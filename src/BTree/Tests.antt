-- ===== src/BTree/Tests.antt =====
-- A small tree of order 4 as benchmarks/btree/btree.c lays it out: an internal root with one key
-- over two leaves.
mod Trees
mod Maps
mod Splits
use nu_ksm_pact21_artifact.Base.{
  ℕ, ◌+◌, ◌^◌, ◌*◌, ◌≡◌, refl, true, false, Option, none, some, List, [], ◌∷◌, arith, ◌==◌,
  if◌then◌else◌,
}
use nu_ksm_pact21_artifact.BTree.Store.{Ptr, Node, Rec, Store, done, put, ◌>>◌}
use nu_ksm_pact21_artifact.BTree.Alloc.{alloc_node, free_node}
use nu_ksm_pact21_artifact.BTree.Alloc.FreeList.{alloc_node-free_node}
use nu_ksm_pact21_artifact.BTree.Find.{find, find_leaf, find_range}
use nu_ksm_pact21_artifact.BTree.Insert.{insert}
use nu_ksm_pact21_artifact.BTree.Delete.{delete}
use nu_ksm_pact21_artifact.BTree.Entries.{insert_into_leaf}
use nu_ksm_pact21_artifact.BTree.Entries.Leaf.{pairs, insert_entry, HasRoom}
use nu_ksm_pact21_artifact.BTree.Tree.{lookup, Leaf, Tree}
use nu_ksm_pact21_artifact.BTree.Tree.Search.{find-lookup}
use nu_ksm_pact21_artifact.BTree.Tree.Insertion.{
  IsSorted, insert_into_leaf-insert_entry, find-insert_into_leaf,
}
use nu_ksm_pact21_artifact.BTree.Shrink.{remove_entry_from_node}
use nu_ksm_pact21_artifact.BTree.Tree.Removal.{remove_entry_from_node-entries}
use nu_ksm_pact21_artifact.BTree.Tree.Range.Lists.{at_most, from_key}
use nu_ksm_pact21_artifact.BTree.Tree.Range.{Chain, find_range-lost, find_range-at_most}
use nu_ksm_pact21_artifact.BTree.Tree.Update.{with_value, insert-existing, delete-missing}
use nu_ksm_pact21_artifact.BTree.Rand48.{State, redis_srand48}
use nu_ksm_pact21_artifact.BTree.Rand48.Lcg.{
  IsState, value, lrand48_run, redis_run, redis_run-lrand48_run, redis_srand48-value,
  next-injective,
}

abbrev root_node : Node
root_node = record {
  pointers = 2 ∷ 3 ∷ 0 ∷ 0 ∷ [];
  keys = 20 ∷ 0 ∷ 0 ∷ [];
  parent = 0;
  is_leaf = false;
  num_keys = 1;
  next = 0;
}

abbrev left_leaf : Node
left_leaf = record {
  pointers = 101 ∷ 0 ∷ 0 ∷ 3 ∷ [];
  keys = 10 ∷ 0 ∷ 0 ∷ [];
  parent = 1;
  is_leaf = true;
  num_keys = 1;
  next = 0;
}

abbrev right_leaf : Node
right_leaf = record {
  pointers = 102 ∷ 103 ∷ 0 ∷ 0 ∷ [];
  keys = 20 ∷ 30 ∷ 0 ∷ [];
  parent = 1;
  is_leaf = true;
  num_keys = 2;
  next = 0;
}

abbrev nodes : Ptr → Option Node
nodes p =
    if p == 1
    then some root_node
    else if p == 2
    then some left_leaf
    else if p == 3
    then some right_leaf
    else none

abbrev a_record : Rec
a_record = record { word = 7; flags = 0 }

abbrev small : Store
small = record {
  nodes = nodes;
  records = λ p. if p == 102 then some a_record else none;
  order = 4;
  free_nodes = 0;
  free_recs = 0;
  queue = 0;
  allocator_stat = 0;
  supply = [];
}

abbrev left_entries : List (ℕ × Ptr)
left_entries = (10, 101) ∷ []

abbrev right_entries : List (ℕ × Ptr)
right_entries = (20, 102) ∷ (30, 103) ∷ []

abbrev left_over : List (ℕ × Ptr)
left_over = (20, 102) ∷ []

abbrev all_entries : List (ℕ × Ptr)
all_entries = (10, 101) ∷ (20, 102) ∷ (30, 103) ∷ []

left_leaf-Leaf : Leaf small 2 left_entries left_leaf
unfolding pairs
left_leaf-Leaf = record {
  at = record { ne_null = ground arith; holds = refl };
  is_leaf = refl;
  keys = omega arith;
  pointers = omega arith;
  entries = refl;
}

right_leaf-Leaf : Leaf small 3 right_entries right_leaf
unfolding pairs
right_leaf-Leaf = record {
  at = record { ne_null = ground arith; holds = refl };
  is_leaf = refl;
  keys = omega arith;
  pointers = omega arith;
  entries = refl;
}

small-Tree : Tree small 1 1 all_entries
small-Tree = (
  root_node,
  record {
    at = record { ne_null = ground arith; holds = refl };
    not_leaf = refl;
    keys = omega arith;
    children = (
      left_entries,
      right_entries,
      refl,
      (left_leaf, left_leaf-Leaf),
      (omega arith, tt),
      (omega arith, (omega arith, tt)),
      (right_leaf, right_leaf-Leaf),
    );
  },
)

left_leaf-HasRoom : HasRoom left_leaf
left_leaf-HasRoom = record { keys = omega arith; pointers = omega arith; count = omega arith }

find-lookup_example :
    (leaf : Ptr) × (part : List (ℕ × Ptr)) × (n : Node) × Leaf small leaf part n
    × (find 2 1 20 small ≡ done (102, leaf) small)
unfolding lookup
find-lookup_example = find-lookup 20 1 2 small 1 all_entries small-Tree (omega arith)

insert_into_leaf-insert_entry_example :
    (m : Node) × (insert_into_leaf 2 5 104 small ≡ done 2 (put 2 m small))
    × Leaf (put 2 m small) 2 ((5, 104) ∷ (10, 101) ∷ []) m
    × IsSorted ((5, 104) ∷ (10, 101) ∷ [])
unfolding insert_entry
insert_into_leaf-insert_entry_example =
    insert_into_leaf-insert_entry 5 104 2 small left_entries left_leaf left_leaf-Leaf
      left_leaf-HasRoom (refl, tt) (tt, tt)

remove_entry_from_node-entries_example :
    (m : Node) × (remove_entry_from_node 3 30 103 small ≡ done 3 (put 3 m small))
    × Leaf (put 3 m small) 3 left_over m
remove_entry_from_node-entries_example =
    remove_entry_from_node-entries 30 103 3 small left_over [] right_leaf right_leaf-Leaf
      (omega arith) (omega arith) (refl, tt) (refl, tt)

-- Of the keys 20 and 30, both from 15 to 30, nothing is found.
find_range-lost_example : find_range 2 1 15 30 small ≡ done [] small
unfolding find_leaf
find_range-lost_example =
    find_range-lost 15 30 2 small 1 2 left_entries left_leaf refl left_leaf-Leaf (omega arith, tt)

leaves : Chain small 2 (left_entries ∷ right_entries ∷ [])
leaves = (
  left_leaf,
  left_leaf-Leaf,
  omega arith,
  (tt, tt),
  (right_leaf, right_leaf-Leaf, omega arith, ((omega arith, tt), (tt, tt)), refl),
)

find_range-at_most_example : find_range 3 1 10 20 small ≡ done ((10, 101) ∷ (20, 102) ∷ []) small
unfolding find_leaf at_most from_key
find_range-at_most_example =
    find_range-at_most 10 20 2 small 1 2 left_entries (right_entries ∷ []) refl leaves
      (ground arith) (omega arith)

insert-existing_example : insert 2 1 20 9 small ≡ done 1 (with_value 102 a_record 9 small)
unfolding lookup
insert-existing_example =
    insert-existing 20 9 1 2 small 1 all_entries a_record small-Tree (omega arith) (ground arith)
      refl

-- The words of a fresh generator.
abbrev fresh : State
fresh = record { x0 = 0x330E; x1 = 0xABCD; x2 = 0x1234 }

fresh-IsState : IsState fresh
fresh-IsState = record { x0 = omega arith; x1 = omega arith; x2 = omega arith }

redis_run-lrand48_run_example : redis_run 3 fresh ≡ lrand48_run 3 (value fresh)
redis_run-lrand48_run_example = redis_run-lrand48_run 3 fresh fresh-IsState
