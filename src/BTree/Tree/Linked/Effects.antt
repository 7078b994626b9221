-- ===== src/BTree/Tree/Linked/Effects.antt =====
-- What a part of an insertion leaves behind: the nodes that it changes, the nodes that it takes from the
-- free list, and the two subtrees of a split.
use mathlib.Core.Path.{subst}
use nu_ksm_pact21_artifact.Base.{ℕ, ◌*◌, ◌≤◌, ◌≡◌, sym, ◌∙◌, inl, inr, List, [], ◌∷◌, ◌++◌, length}
use nu_ksm_pact21_artifact.BTree.Store.{Ptr, Node, Store}
use nu_ksm_pact21_artifact.BTree.Tree.{AllBelow, AllFrom}
use nu_ksm_pact21_artifact.BTree.Tree.Edit.{Entries}
use nu_ksm_pact21_artifact.BTree.Tree.Owned.{In, Distinct, In-append_left, In-append_right}
use nu_ksm_pact21_artifact.BTree.Tree.Addresses.{Within, Grows}
use nu_ksm_pact21_artifact.BTree.Tree.Linked.{Linked}
use nu_ksm_pact21_artifact.BTree.Tree.Linked.Ready.{Free, Free-same, Ready}

-- Only nodes at `ns` and `used` have changed, and `rest` is left of the free nodes.
pub record Step (s s' : Store) (ns used rest : List Ptr) : Type 0 where
  pub outside : (x : Ptr) → (In x ns → ⊥) → (In x used → ⊥) → s'.nodes x ≡ s.nodes x
  pub order : s'.order ≡ s.order
  pub records : s'.records ≡ s.records
  pub free_recs : s'.free_recs ≡ s.free_recs
  pub ready : Ready s' rest

-- The subtree at `p` has become two, at `p` and at `new`, with the separator `k` between them.
pub record Divided (o h : ℕ) (parent : Ptr) (s : Store) (p new : Ptr) (ns used : List Ptr) (k : ℕ)
    (es : Entries) : Type 0 where
  pub left : Entries
  pub right : Entries
  pub ln : List Ptr
  pub rn : List Ptr
  pub at_left : Linked o h parent s p left ln
  pub at_right : Linked o h parent s new right rn
  pub all : es ≡ left ++ right
  pub below : AllBelow k left
  pub from : AllFrom k right
  pub distinct : Distinct (ln ++ rn)
  pub grows : Grows ns used (ln ++ rn)

-- The free nodes behind the first are left once that is taken.
pub Ready-taken :
    (s s' : Store) (b : Node) (rest : List Ptr)
    → Free s b.next rest
    → s'.free_nodes ≡ b.next
    → ((x : Ptr) → In x rest → s'.nodes x ≡ s.nodes x)
    → 4 * length rest ≤ length s'.supply
    → Ready s' rest
Ready-taken s s' b rest chain e same memory = record {
  chain = subst (λ f. Free s' f rest) (sym e) (Free-same s s' b.next rest same chain);
  memory = memory;
}

-- The subtree at `p` has other entries, and maybe more nodes.
pub record Replaced (o h : ℕ) (parent : Ptr) (s : Store) (p : Ptr) (ns used : List Ptr)
    (es : Entries) : Type 0 where
  pub addresses : List Ptr
  pub at : Linked o h parent s p es addresses
  pub distinct : Distinct addresses
  pub grows : Grows ns used addresses

pub Grows-Within : (cn ns used ms : List Ptr) → Within cn ns → Grows cn used ms → Grows ns used ms
Grows-Within cn ns used ms within grows =
    λ x i. elim (grows x i) [ inl old ↦ inl (within x old) | inr new ↦ inr new ]

-- A change and one more node.
pub Grows-then :
    (ns used ms ms' : List Ptr) (y : Ptr)
    → Grows ns used ms
    → Grows ms (y ∷ []) ms'
    → Grows ns (used ++ (y ∷ [])) ms'
Grows-then ns used ms ms' y one two = λ x i. elim (two x i) [
  | inl old ↦ elim (one x old) [
    | inl older ↦ inl older
    | inr new ↦ inr (In-append_left x used (y ∷ []) new)
  ]
  | inr new ↦ inr (In-append_right x used (y ∷ []) new)
]

pub Step-within :
    {s s' : Store} {used rest : List Ptr} (cn ns : List Ptr)
    → Within cn ns
    → Step s s' cn used rest
    → Step s s' ns used rest
Step-within cn ns within step = record {
  outside = λ x a b. step.outside x (λ i. a (within x i)) b;
  order = step.order;
  records = step.records;
  free_recs = step.free_recs;
  ready = step.ready;
}

pub Step-then :
    {s s1 s2 : Store} (ns used ms rest1 rest2 : List Ptr) (y : Ptr)
    → Grows ns used ms
    → Step s s1 ns used rest1
    → Step s1 s2 ms (y ∷ []) rest2
    → Step s s2 ns (used ++ (y ∷ [])) rest2
Step-then ns used ms rest1 rest2 y grows one two = record {
  outside = λ x a b.
      two.outside x
        (λ i. elim (grows x i) [
          | inl old ↦ a old
          | inr new ↦ b (In-append_left x used (y ∷ []) new)
        ])
        (λ i. b (In-append_right x used (y ∷ []) i))
      ∙ one.outside x a (λ i. b (In-append_left x used (y ∷ []) i));
  order = two.order ∙ one.order;
  records = two.records ∙ one.records;
  free_recs = two.free_recs ∙ one.free_recs;
  ready = two.ready;
}

pub Divided-Grows :
    {o h : ℕ} {parent : Ptr} {s : Store} {p new : Ptr} {k : ℕ} {es : Entries}
    (ms taken ns used : List Ptr)
    → ((l : List Ptr) → Grows ms taken l → Grows ns used l)
    → Divided o h parent s p new ms taken k es
    → Divided o h parent s p new ns used k es
Divided-Grows ms taken ns used wider d = record {
  left = d.left;
  right = d.right;
  ln = d.ln;
  rn = d.rn;
  at_left = d.at_left;
  at_right = d.at_right;
  all = d.all;
  below = d.below;
  from = d.from;
  distinct = d.distinct;
  grows = wider (d.ln ++ d.rn) d.grows;
}
