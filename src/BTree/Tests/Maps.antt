-- ===== src/BTree/Tests/Maps.antt =====
-- Insertions from an untouched memory of order 16, and from one of order 3 with free lists and one leaf.
use nu_ksm_pact21_artifact.Base.{
  ◌-◌, none, ℕ, zero, suc, ◌+◌, ◌≤◌, ◌<◌, ◌≡◌, refl, inl, inr, true, false, Bool-cases, some, List,
  [], ◌∷◌, arith, ◌==◌, if◌then◌else◌, length, replicate, length-replicate,
}
use nu_ksm_pact21_artifact.BTree.Store.{Ptr, null, Node, Store, done}
use nu_ksm_pact21_artifact.BTree.Alloc.{blank_node}
use nu_ksm_pact21_artifact.BTree.Find.{find}
use nu_ksm_pact21_artifact.BTree.Insert.{insert}
use nu_ksm_pact21_artifact.BTree.Rand48.{State}
use nu_ksm_pact21_artifact.BTree.Tree.{lookup}
use nu_ksm_pact21_artifact.BTree.Tree.Edit.{Entries}
use nu_ksm_pact21_artifact.BTree.Entries.Leaf.{pairs}
use nu_ksm_pact21_artifact.BTree.Tree.Owned.{In, Distinct}
use nu_ksm_pact21_artifact.BTree.Tree.Addresses.{not-NotIn}
use nu_ksm_pact21_artifact.BTree.Tree.Linked.Ready.{Free, Ready}
use nu_ksm_pact21_artifact.BTree.Tree.Linked.Whole.{WellFormed}
use nu_ksm_pact21_artifact.BTree.Map.{assign, HasValue, FreeRecs, Holding, IsMap}
use nu_ksm_pact21_artifact.BTree.Map.Insertion.{find-IsMap, insert-IsMap}
use nu_ksm_pact21_artifact.BTree.Map.Start.{empty, Vacant}
use nu_ksm_pact21_artifact.BTree.Map.Initial.{slab_nodes, slab_records, Initial, insert-Initial}
use nu_ksm_pact21_artifact.BTree.Map.Run.{insert_all, assign_all, insert_all-IsMap}

abbrev leaf : Node
leaf = record {
  pointers = 300 ∷ 0 ∷ 0 ∷ [];
  keys = 5 ∷ 0 ∷ [];
  parent = null;
  is_leaf = true;
  num_keys = 1;
  next = null;
}

-- A leaf at 1 with the key 5, whose record is at 300; free nodes from 100 on, free records from 500 on.
abbrev prepared : Store
prepared = record {
  nodes = λ p. if p == 1 then some leaf else some (record blank_node { next = p + 1 });
  records = λ p.
      if p == 300
      then some (record { word = 9; flags = 0 })
      else some (record { word = p + 1; flags = 0 });
  order = 3;
  queue = null;
  free_nodes = 100;
  free_recs = 500;
  allocator_stat = 0;
  supply = replicate 80 7;
}

unfoldable run_from : ℕ → ℕ → List ℕ
run_from zero f = []
run_from (suc n) f = f ∷ run_from n (f + 1)

length-run_from : (n f : ℕ) → length (run_from n f) ≡ n
unfolding run_from
length-run_from zero f = refl
length-run_from (suc n) f = omega (arith, length-run_from n (f + 1))

In-run_from : (n f x : ℕ) → In x (run_from n f) → f ≤ x
unfolding run_from
In-run_from zero f x i = absurd i
In-run_from (suc n) f x (inl e) = omega arith
In-run_from (suc n) f x (inr i) = omega (arith, In-run_from n (f + 1) x i)

run_from-Distinct : (n f : ℕ) → Distinct (run_from n f)
unfolding run_from
run_from-Distinct zero f = tt
run_from-Distinct (suc n) f = (
  not-NotIn f (run_from n (f + 1)) (λ i. absurd (omega (arith, In-run_from n (f + 1) f i))),
  run_from-Distinct n (f + 1),
)

run_from-Free : (n f : ℕ) → 1 < f → Free prepared f (run_from n f)
unfolding run_from
run_from-Free zero f lt = tt
run_from-Free (suc n) f lt =
    let other : (f == 1) ≡ false = ground arith in
    (
      refl,
      record blank_node { next = f + 1 },
      record { ne_null = omega arith; holds = rw other refl },
      run_from-Free n (f + 1) (omega arith),
    )

run_from-FreeRecs : (n f : ℕ) → 300 < f → FreeRecs prepared.records f (run_from n f)
unfolding run_from
run_from-FreeRecs zero f lt = tt
run_from-FreeRecs (suc n) f lt =
    let other : (f == 300) ≡ false = ground arith in
    (
      refl,
      omega arith,
      record { word = f + 1; flags = 0 },
      rw other refl,
      run_from-FreeRecs n (f + 1) (omega arith),
    )

ready : Ready prepared (run_from 12 100)
ready = record {
  chain = run_from-Free 12 100 (omega arith);
  memory = omega (arith, length-run_from 12 100, length-replicate {A = ℕ} 80 7);
}

prepared-Vacant : Vacant 3 10 4 prepared
prepared-Vacant = record {
  free = run_from 12 100;
  free_records = run_from 4 500;
  order = refl;
  wide = omega arith;
  word = omega arith;
  ready = ready;
  free_distinct = run_from-Distinct 12 100;
  nodes = omega (arith, length-run_from 12 100);
  chain = run_from-FreeRecs 4 500 (omega arith);
  records_distinct = run_from-Distinct 4 500;
  not_null = λ i. absurd (omega (arith, In-run_from 4 500 null i));
  records = omega (arith, length-run_from 4 500);
}

-- The memory of the program before the first insertion.
unfoldable plenty : List Ptr
plenty = replicate 30000 7

length-plenty : length plenty ≡ 30000
unfolding plenty
length-plenty = length-replicate {A = ℕ} 30000 7

abbrev untouched : Store
untouched = record {
  nodes = λ p. none;
  records = λ p. none;
  order = 16;
  queue = null;
  free_nodes = null;
  free_recs = null;
  allocator_stat = 0;
  supply = 1048576 ∷ 2097152 ∷ plenty;
}

untouched-Initial : Initial 16 untouched
untouched-Initial = record {
  order = refl;
  wide = omega arith;
  word = omega arith;
  no_nodes = refl;
  no_records = refl;
  p = 1048576;
  q = 2097152;
  rest = plenty;
  p_there = omega arith;
  q_there = omega arith;
  supply = refl;
  memory = omega (arith, length-plenty);
}

insert-Initial_example :
    (root : Ptr) × (after : Store) × (insert 0 null 5 9 untouched ≡ done root after)
    × IsMap 16 0 (slab_nodes - 1) (slab_records - 1) after root (assign 5 9 empty)
insert-Initial_example = insert-Initial 16 0 5 9 untouched untouched-Initial

abbrev seed : State
seed = record { x0 = 1; x1 = 2; x2 = 3 }

abbrev one_entry : Entries
one_entry = (5, 300) ∷ []

one_entry-WellFormed : WellFormed 3 0 prepared 1 one_entry (1 ∷ []) (run_from 12 100)
unfolding pairs
one_entry-WellFormed = record {
  order = refl;
  wide = omega arith;
  word = omega arith;
  tree = (
    leaf,
    record {
      at = record { ne_null = omega arith; holds = refl };
      is_leaf = refl;
      keys = omega arith;
      pointers = omega arith;
      entries = refl;
    },
    record {
      arrays = record { keys = refl; pointers = refl };
      parent_is = refl;
      count = omega arith;
    },
    omega arith,
    refl,
  );
  distinct = (tt, tt);
  sorted = (tt, tt);
  ready = ready;
  free_distinct = run_from-Distinct 12 100;
  apart = apart;
}
  where
    apart : (x : ℕ) → In x (1 ∷ []) → In x (run_from 12 100) → ⊥
    apart x (inl e) i = absurd (omega (arith, In-run_from 12 100 x i))
    apart x (inr nowhere) i = absurd nowhere

one_entry-Holding : Holding prepared.records 500 (run_from 4 500) one_entry (assign 5 9 empty)
unfolding lookup
one_entry-Holding = record {
  there = (omega arith, tt);
  values = λ key. elim (Bool-cases (5 == key)) [
    | inl hit ↦ rw hit (omega arith, record { word = 9; flags = 0 }, refl, refl)
    | inr miss ↦ rw miss refl
  ];
  separate = λ j k e ne. ground arith;
  fresh = λ key. elim (Bool-cases (5 == key)) [
    | inl hit ↦ rw hit (λ i. absurd (omega (arith, In-run_from 4 500 300 i)))
    | inr miss ↦ rw miss (λ i. absurd (omega (arith, In-run_from 4 500 null i)))
  ];
  chain = run_from-FreeRecs 4 500 (omega arith);
  free_distinct = run_from-Distinct 4 500;
}

one_entry-IsMap : IsMap 3 0 10 3 prepared 1 (assign 5 9 empty)
one_entry-IsMap = record {
  entries = one_entry;
  addresses = 1 ∷ [];
  free = run_from 12 100;
  free_records = run_from 4 500;
  tree = one_entry-WellFormed;
  nodes = omega (arith, length-run_from 12 100);
  holding = one_entry-Holding;
  records = omega (arith, length-run_from 4 500);
}

find-IsMap_example :
    (p : Ptr) × (found : Ptr) × (find 1 1 5 prepared ≡ done (p, found) prepared)
    × HasValue prepared.records p (some 9)
find-IsMap_example =
    find-IsMap 3 0 10 3 1 5 prepared 1 (assign 5 9 empty) one_entry-IsMap (omega arith)

insert-IsMap_example :
    (root : Ptr) × (after : Store) × (h : ℕ) × (insert 1 1 4 8 prepared ≡ done root after)
    × (0 ≤ h)
    × (h ≤ 1)
    × IsMap 3 h 8 2 after root (assign 4 8 (assign 5 9 empty))
insert-IsMap_example =
    insert-IsMap 3 0 8 2 1 4 8 prepared 1 (assign 5 9 empty) one_entry-IsMap (omega arith)

abbrev three : List (ℕ × ℕ)
three = (4, 8) ∷ (6, 7) ∷ (4, 1) ∷ []

insert_all-IsMap_example :
    (root : Ptr) × (after : Store) × (h : ℕ) × (insert_all 3 three 1 prepared ≡ done root after)
    × (h ≤ 0 + length three)
    × IsMap 3 h 1 0 after root (assign_all three (assign 5 9 empty))
insert_all-IsMap_example =
    insert_all-IsMap 3 0 1 0 3 three prepared 1 (assign 5 9 empty) one_entry-IsMap (omega arith)
