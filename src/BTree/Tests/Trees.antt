-- ===== src/BTree/Tests/Trees.antt =====
-- Insertion and deletion in whole trees of order 4.
use nu_ksm_pact21_artifact.Base.{ℕ, ◌≡◌, inr, refl, true, some, List, [], ◌∷◌, ◌++◌, arith}
use nu_ksm_pact21_artifact.BTree.Store.{Ptr, Node, Store, done, put}
use nu_ksm_pact21_artifact.BTree.Find.{find, find_leaf}
use nu_ksm_pact21_artifact.BTree.Insert.{split_leaf, insert_into_new_root}
use nu_ksm_pact21_artifact.BTree.Delete.{min_keys, delete}
use nu_ksm_pact21_artifact.BTree.Entries.Leaf.{pairs, insert_entry}
use nu_ksm_pact21_artifact.BTree.Alloc.{blank_node}
use nu_ksm_pact21_artifact.BTree.Tree.{lookup, Leaf}
use nu_ksm_pact21_artifact.BTree.Tree.NewRoot.{insert_into_new_root-Owned}
use nu_ksm_pact21_artifact.BTree.Tree.Split.Leaves.{IsSplit, split_leaf-IsSplit}
use nu_ksm_pact21_artifact.BTree.Tree.Insertion.{IsSorted}
use nu_ksm_pact21_artifact.BTree.Alloc.Records.{HasRecord}
use nu_ksm_pact21_artifact.BTree.Tree.Owned.{Distinct, Owned, Leaf-same}
use nu_ksm_pact21_artifact.BTree.Tree.Growth.{HasRoomFor}
use nu_ksm_pact21_artifact.BTree.Tree.Edit.{remove_entry}
use nu_ksm_pact21_artifact.BTree.Tree.Deletion.{HasSpareFor, delete-remove_entry}
use nu_ksm_pact21_artifact.BTree.Tree.Deletion.Lookup.{find-delete}
use nu_ksm_pact21_artifact.BTree.Tests.{
  root_node, left_leaf, a_record, small, left_entries, right_entries, all_entries, left_leaf-Leaf,
  right_leaf, right_leaf-Leaf, left_leaf-HasRoom,
}

-- The same tree with memory for a slab of records.
abbrev roomy : Store
roomy = record small { supply = 600 ∷ [] }

addresses : Distinct (1 ∷ 2 ∷ 3 ∷ [])
addresses = ((ground arith, (ground arith, tt)), ((ground arith, tt), (tt, tt)))

roomy-Owned : Owned roomy 1 1 all_entries (1 ∷ 2 ∷ 3 ∷ [])
roomy-Owned = (
  root_node,
  2 ∷ 3 ∷ [],
  record {
    at = record { ne_null = ground arith; holds = refl };
    not_leaf = refl;
    keys = omega arith;
  },
  refl,
  (
    left_entries,
    right_entries,
    2 ∷ [],
    3 ∷ [],
    refl,
    refl,
    (left_leaf, Leaf-same refl left_leaf-Leaf, refl),
    (omega arith, tt),
    (omega arith, (omega arith, tt)),
    (right_leaf, Leaf-same refl right_leaf-Leaf, refl),
  ),
)

roomy-HasRecord : HasRecord roomy
roomy-HasRecord = inr (refl, 600, [], ground arith, refl)

left_leaf-HasRoomFor : HasRoomFor 2 1 5 roomy 2 left_leaf
unfolding find_leaf
left_leaf-HasRoomFor = record {
  reached = refl;
  holds = refl;
  below = omega arith;
  room = left_leaf-HasRoom;
}

-- The same tree with a right leaf of three entries.
abbrev full_leaf : Node
full_leaf = record {
  pointers = 102 ∷ 103 ∷ 104 ∷ 0 ∷ [];
  keys = 20 ∷ 30 ∷ 40 ∷ [];
  parent = 1;
  is_leaf = true;
  num_keys = 3;
  next = 0;
}

abbrev large : Store
large = put 3 full_leaf small

abbrev full_entries : List (ℕ × Ptr)
full_entries = (20, 102) ∷ (30, 103) ∷ (40, 104) ∷ []

abbrev large_entries : List (ℕ × Ptr)
large_entries = (10, 101) ∷ full_entries

large-Owned : Owned large 1 1 large_entries (1 ∷ 2 ∷ 3 ∷ [])
unfolding pairs
large-Owned = (
  root_node,
  2 ∷ 3 ∷ [],
  record {
    at = record { ne_null = ground arith; holds = refl };
    not_leaf = refl;
    keys = omega arith;
  },
  refl,
  (
    left_entries,
    full_entries,
    2 ∷ [],
    3 ∷ [],
    refl,
    refl,
    (left_leaf, Leaf-same refl left_leaf-Leaf, refl),
    (omega arith, tt),
    (omega arith, (omega arith, (omega arith, tt))),
    (
      full_leaf,
      record {
        at = record { ne_null = ground arith; holds = refl };
        is_leaf = refl;
        keys = omega arith;
        pointers = omega arith;
        entries = refl;
      },
      refl,
    ),
  ),
)

full_leaf-HasSpareFor : HasSpareFor 2 1 20 large 3 full_leaf
unfolding find_leaf min_keys pairs
full_leaf-HasSpareFor = record {
  reached = refl;
  holds = refl;
  above = omega arith;
  not_last = omega arith;
  word = omega arith;
  fits = omega arith;
  own = ((ground arith, (ground arith, tt)), ((ground arith, tt), (tt, tt)));
}

delete-remove_entry_example :
    (after : Store) × (delete 2 1 20 large ≡ done 1 after)
    × Owned after 1 1 ((10, 101) ∷ (30, 103) ∷ (40, 104) ∷ []) (1 ∷ 2 ∷ 3 ∷ [])
    × (after.free_recs ≡ 102)
unfolding lookup remove_entry
delete-remove_entry_example =
    delete-remove_entry 20 1 2 large 1 large_entries (1 ∷ 2 ∷ 3 ∷ []) 3 full_leaf a_record
      large-Owned addresses (omega arith) (ground arith) refl full_leaf-HasSpareFor

large-IsSorted : IsSorted large_entries
large-IsSorted = (
  (omega arith, (omega arith, (omega arith, tt))),
  ((omega arith, (omega arith, tt)), ((omega arith, tt), (tt, tt))),
)

find-delete_example :
    (after : Store) × (delete 2 1 20 large ≡ done 1 after)
    × (found : Ptr) × (find 2 1 30 after ≡ done (103, found) after)
unfolding lookup
find-delete_example =
    find-delete 20 30 1 2 large 1 large_entries (1 ∷ 2 ∷ 3 ∷ []) 3 full_leaf a_record large-Owned
      addresses (omega arith) large-IsSorted (ground arith) refl full_leaf-HasSpareFor

-- The same tree with a free node, and with memory for four arrays.
abbrev splitting : Store
splitting = record (put 9 blank_node large) { free_nodes = 9; supply = 700 ∷ 701 ∷ 702 ∷ 703 ∷ [] }

full_leaf-Leaf : Leaf splitting 3 full_entries full_leaf
unfolding pairs
full_leaf-Leaf = record {
  at = record { ne_null = ground arith; holds = refl };
  is_leaf = refl;
  keys = omega arith;
  pointers = omega arith;
  entries = refl;
}

split_leaf-IsSplit_example :
    (new_key : ℕ) × (after : Store) × (split_leaf 3 25 105 splitting ≡ done (new_key, 9) after)
    × IsSplit splitting after 3 9 full_leaf new_key
        (insert_entry 25 105 full_entries)
        blank_node.next
        []
split_leaf-IsSplit_example =
    split_leaf-IsSplit 25 105 3 splitting full_entries full_leaf blank_node [] 700 701 702 703
      full_leaf-Leaf (record { keys = refl; pointers = refl }) refl (refl, (refl, (refl, tt)))
      ((omega arith, (omega arith, tt)), ((omega arith, tt), (tt, tt))) (omega arith) (omega arith)
      (record { ne_null = ground arith; holds = refl }) (ground arith) refl

left-Owned : Owned splitting 0 2 left_entries (2 ∷ [])
left-Owned = (left_leaf, Leaf-same refl left_leaf-Leaf, refl)

right-Owned : Owned splitting 0 3 full_entries (3 ∷ [])
right-Owned = (full_leaf, full_leaf-Leaf, refl)

insert_into_new_root-Owned_example :
    (after : Store) × (insert_into_new_root 2 20 3 splitting ≡ done 9 after)
    × Owned after 1 9 (left_entries ++ full_entries) (9 ∷ 2 ∷ 3 ∷ [])
    × (l : Node) × (r : Node) × (after.nodes 2 ≡ some l)
    × (after.nodes 3 ≡ some r)
    × (l.parent ≡ 9)
    × (r.parent ≡ 9)
insert_into_new_root-Owned_example =
    insert_into_new_root-Owned 20 0 2 3 splitting left_entries full_entries (2 ∷ []) (3 ∷ [])
      blank_node 700 701 (702 ∷ 703 ∷ []) left-Owned right-Owned
      ((ground arith, (ground arith, tt)), ((ground arith, tt), (tt, tt))) (omega arith, tt)
      (omega arith, (omega arith, (omega arith, tt)))
      (record { ne_null = ground arith; holds = refl }) refl (omega arith)
