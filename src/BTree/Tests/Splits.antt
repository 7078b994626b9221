-- ===== src/BTree/Tests/Splits.antt =====
-- A full internal node of order 3, with three leaves and a fourth to come.
use nu_ksm_pact21_artifact.Base.{
  ℕ, ◌+◌, ◌<◌, ◌≡◌, refl, inl, inr, true, false, none, some, List, [], ◌∷◌, arith, ◌==◌,
  if◌then◌else◌,
}
use nu_ksm_pact21_artifact.BTree.Store.{Ptr, null, Node, Store, done}
use nu_ksm_pact21_artifact.BTree.Store.Laws.{Holds}
use nu_ksm_pact21_artifact.BTree.Alloc.{blank_node}
use nu_ksm_pact21_artifact.BTree.Insert.{split_node}
use nu_ksm_pact21_artifact.BTree.Entries.Leaf.{pairs}
use nu_ksm_pact21_artifact.BTree.Tree.Edit.{Entries}
use nu_ksm_pact21_artifact.BTree.Tree.Owned.{In, Distinct}
use nu_ksm_pact21_artifact.BTree.Tree.Addresses.{Disjoint}
use nu_ksm_pact21_artifact.BTree.Tree.Nest.{Nest}
use nu_ksm_pact21_artifact.BTree.Tree.Nest.Focus.{splice}
use nu_ksm_pact21_artifact.BTree.Tree.Linked.{Linked, first_pointer, rest_of}
use nu_ksm_pact21_artifact.BTree.Tree.Linked.Effects.{Step, Divided}
use nu_ksm_pact21_artifact.BTree.Tree.Linked.SplitInner.{split_node-Divided}

abbrev leaf_of : ℕ → Node
leaf_of k = record {
  pointers = (k + 100) ∷ 0 ∷ 0 ∷ [];
  keys = k ∷ 0 ∷ [];
  parent = 10;
  is_leaf = true;
  num_keys = 1;
  next = null;
}

abbrev full_node : Node
full_node = record {
  pointers = 11 ∷ 12 ∷ 13 ∷ [];
  keys = 20 ∷ 30 ∷ [];
  parent = null;
  is_leaf = false;
  num_keys = 2;
  next = null;
}

abbrev crowded : Store
crowded = record {
  nodes = λ p.
      if p == 10
      then some full_node
      else if p == 11
      then some (leaf_of 5)
      else if p == 12
      then some (leaf_of 20)
      else if p == 13
      then some (leaf_of 30)
      else if p == 14
      then some (leaf_of 40)
      else some blank_node;
  records = λ p. none;
  order = 3;
  queue = null;
  free_nodes = 100;
  free_recs = null;
  allocator_stat = 0;
  supply = 1 ∷ 2 ∷ 3 ∷ 4 ∷ [];
}

leaf_of-Linked :
    (k p : ℕ) → Holds crowded p (leaf_of k) → Linked 3 0 10 crowded p ((k, k + 100) ∷ []) (p ∷ [])
unfolding pairs
leaf_of-Linked k p held = (
  leaf_of k,
  record { at = held; is_leaf = refl; keys = omega arith; pointers = omega arith; entries = refl },
  record {
    arrays = record { keys = refl; pointers = refl };
    parent_is = refl;
    count = omega arith;
  },
  omega arith,
  refl,
)

abbrev four_entries : Entries
four_entries = (5, 105) ∷ (20, 120) ∷ (30, 130) ∷ (40, 140) ∷ []

abbrev four_leaves : List Ptr
four_leaves = 11 ∷ 12 ∷ 13 ∷ 14 ∷ []

four_leaves-Nest :
    Nest
      (Linked 3 0 10 crowded)
      (first_pointer full_node)
      (splice 2 ((40, 14) ∷ []) (rest_of full_node))
      four_entries
      four_leaves
unfolding pairs splice
four_leaves-Nest = (
  (5, 105) ∷ [],
  (20, 120) ∷ (30, 130) ∷ (40, 140) ∷ [],
  11 ∷ [],
  12 ∷ 13 ∷ 14 ∷ [],
  refl,
  refl,
  leaf_of-Linked 5 11 (record { ne_null = omega arith; holds = refl }),
  (omega arith, tt),
  (omega arith, (omega arith, (omega arith, tt))),
  (
    (20, 120) ∷ [],
    (30, 130) ∷ (40, 140) ∷ [],
    12 ∷ [],
    13 ∷ 14 ∷ [],
    refl,
    refl,
    leaf_of-Linked 20 12 (record { ne_null = omega arith; holds = refl }),
    (omega arith, tt),
    (omega arith, (omega arith, tt)),
    (
      (30, 130) ∷ [],
      (40, 140) ∷ [],
      13 ∷ [],
      14 ∷ [],
      refl,
      refl,
      leaf_of-Linked 30 13 (record { ne_null = omega arith; holds = refl }),
      (omega arith, tt),
      (omega arith, tt),
      leaf_of-Linked 40 14 (record { ne_null = omega arith; holds = refl }),
    ),
  ),
)

all_distinct : Distinct (10 ∷ four_leaves)
all_distinct = (
  (omega arith, (omega arith, (omega arith, (omega arith, tt)))),
  (
    (omega arith, (omega arith, (omega arith, tt))),
    ((omega arith, (omega arith, tt)), ((omega arith, tt), (tt, tt))),
  ),
)

few : (x : Ptr) → In x (10 ∷ four_leaves) → x < 100
few x (inl e) = omega arith
few x (inr (inl e)) = omega arith
few x (inr (inr (inl e))) = omega arith
few x (inr (inr (inr (inl e)))) = omega arith
few x (inr (inr (inr (inr (inl e))))) = omega arith
few x (inr (inr (inr (inr (inr nowhere))))) = absurd nowhere

apart : Disjoint (10 ∷ four_leaves) (100 ∷ [])
apart x i (inl e) = absurd (omega (arith, few x i))
apart x i (inr nowhere) = absurd nowhere

split_node-Divided_example :
    (k : ℕ) × (after : Store) × (split_node 10 2 40 14 crowded ≡ done (k, 100) after)
    × Step crowded after (10 ∷ four_leaves) (100 ∷ []) []
    × Divided 3 1 null after 10 100 (10 ∷ four_leaves) (100 ∷ []) k four_entries
split_node-Divided_example =
    split_node-Divided 3 null 0 2 40 14 crowded 10 100 full_node four_entries four_leaves [] refl
      (record { ne_null = omega arith; holds = refl }) refl
      (record {
        arrays = record { keys = refl; pointers = refl };
        parent_is = refl;
        count = omega arith;
      })
      refl (omega arith) (omega arith) (omega arith) four_leaves-Nest all_distinct
      (record {
        chain = (refl, blank_node, record { ne_null = omega arith; holds = refl }, tt);
        memory = omega arith;
      })
      apart tt
