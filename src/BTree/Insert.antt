-- ===== src/BTree/Insert.antt =====
-- Insertion of benchmarks/btree/btree.c across nodes: the splits, the climb to the parent, and
-- `insert`. The climb takes fuel, one unit for each level that it reaches.
use nu_ksm_pact21_artifact.Base.{
  ℕ, zero, suc, ◌+◌, ◌-◌, ◌*◌, ◌==◌, not, if◌then◌else◌, ltb, replicate,
}
use nu_ksm_pact21_artifact.BTree.Store.{
  Ptr, null, out_of_fuel, Prog, pure, ◌>>=◌, ◌>>◌, gets, load, at, write_at, get_key, get_pointer,
  set_key, set_pointer, set_num_keys, set_parent, add64,
}
use nu_ksm_pact21_artifact.BTree.Alloc.{allocate, make_node, make_leaf, make_record, set_value}
use nu_ksm_pact21_artifact.BTree.Find.{scan_keys, find, find_leaf, cut}
use nu_ksm_pact21_artifact.BTree.Entries.{
  get_left_index, insert_into_leaf, spread_entries, spread, fill_entries, clear_pointers, adopt,
  insert_into_node,
}

-- `num_keys` grows from 0, so `num_keys++` is `add64 0 1`.
unfoldable pub insert_into_new_root : Ptr → ℕ → Ptr → Prog Ptr
unfolding make_node set_key set_pointer set_num_keys set_parent
insert_into_new_root left key right = do
  root ← make_node
  set_key root 0 key
  set_pointer root 0 left
  set_pointer root 1 right
  n ← load root
  set_num_keys root (add64 n.num_keys 1)
  set_parent root null
  set_parent left root
  set_parent right root
  pure root

unfoldable pub start_new_tree : ℕ → Ptr → Prog Ptr
unfolding make_leaf set_key set_pointer set_num_keys set_parent
start_new_tree key pointer = do
  root ← make_leaf
  order ← gets (λ s. s.order)
  set_key root 0 key
  set_pointer root 0 pointer
  set_pointer root (order - 1) null
  set_parent root null
  n ← load root
  set_num_keys root (add64 n.num_keys 1)
  pure root

-- `insert_into_node_after_splitting`, up to its last call: the new node and `k_prime`.
unfoldable pub split_node : Ptr → ℕ → ℕ → Ptr → Prog (ℕ × Ptr)
unfolding allocate make_node spread fill_entries adopt set_parent
split_node old_node left_index key right = do
  order ← gets (λ s. s.order)
  temp_pointers_mem ← allocate ((order + 1) * 8)
  temp_keys_mem ← allocate (order * 8)
  n ← load old_node
  temp_pointers ←
      spread (n.num_keys + 1) (get_pointer old_node) (left_index + 1) 0 0
        (replicate (order + 1) null)
  temp_keys ← spread n.num_keys (get_key old_node) left_index 0 0 (replicate order 0)
  temp_pointers ← write_at temp_pointers (left_index + 1) right
  temp_keys ← write_at temp_keys left_index key
  let split = cut order
  new_node ← make_node
  set_num_keys old_node 0
  fill_entries (split - 1) old_node temp_keys temp_pointers 0 0
  p ← at temp_pointers (split - 1)
  set_pointer old_node (split - 1) p
  k_prime ← at temp_keys (split - 1)
  fill_entries (order - split) new_node temp_keys temp_pointers split 0
  p ← at temp_pointers order
  set_pointer new_node (order - split) p
  n ← load old_node
  set_parent new_node n.parent
  m ← load new_node
  adopt (m.num_keys + 1) new_node 0
  pure (k_prime, new_node)

-- `insert_into_parent`, with the call of `insert_into_node_after_splitting` written in place.
unfoldable pub insert_into_parent : ℕ → Ptr → Ptr → ℕ → Ptr → Prog Ptr
unfolding load insert_into_new_root get_left_index insert_into_node split_node
insert_into_parent zero root left key right = λ _. out_of_fuel
insert_into_parent (suc fuel) root left key right = do
  l ← load left
  let parent = l.parent
  if parent == null then insert_into_new_root left key right else do
    left_index ← get_left_index parent left
    n ← load parent
    order ← gets (λ s. s.order)
    if ltb n.num_keys (order - 1) then insert_into_node root parent left_index key right else (do
      (k_prime, new_node) ← split_node parent left_index key right
      insert_into_parent fuel root parent k_prime new_node)

-- `insert_into_leaf_after_splitting`, up to its last call: the new leaf and its first key.
unfoldable pub split_leaf : Ptr → ℕ → Ptr → Prog (ℕ × Ptr)
unfolding allocate make_leaf spread_entries fill_entries clear_pointers set_parent
split_leaf leaf key pointer = do
  new_leaf ← make_leaf
  order ← gets (λ s. s.order)
  temp_keys_mem ← allocate ((order + 1) * 8)
  temp_pointers_mem ← allocate ((order + 1) * 8)
  insertion_index ← scan_keys (λ k. ltb k key) (order - 1) leaf 0
  n ← load leaf
  (temp_keys, temp_pointers) ←
      spread_entries n.num_keys leaf insertion_index 0 0 (replicate (order + 1) 0)
        (replicate (order + 1) null)
  temp_keys ← write_at temp_keys insertion_index key
  temp_pointers ← write_at temp_pointers insertion_index pointer
  set_num_keys leaf 0
  let split = cut (order - 1)
  fill_entries split leaf temp_keys temp_pointers 0 0
  fill_entries (order - split) new_leaf temp_keys temp_pointers split 0
  right ← get_pointer leaf (order - 1)
  set_pointer new_leaf (order - 1) right
  set_pointer leaf (order - 1) new_leaf
  n ← load leaf
  clear_pointers (order - 1 - n.num_keys) leaf n.num_keys
  m ← load new_leaf
  clear_pointers (order - 1 - m.num_keys) new_leaf m.num_keys
  set_parent new_leaf n.parent
  new_key ← get_key new_leaf 0
  pure (new_key, new_leaf)

unfoldable pub insert_into_leaf_after_splitting : ℕ → Ptr → Ptr → ℕ → Ptr → Prog Ptr
unfolding split_leaf insert_into_parent
insert_into_leaf_after_splitting fuel root leaf key pointer = do
  (new_key, new_leaf) ← split_leaf leaf key pointer
  insert_into_parent fuel root leaf new_key new_leaf

-- `insert`, from `make_record` on.
unfoldable pub insert_new : ℕ → Ptr → ℕ → ℕ → Prog Ptr
unfolding make_record start_new_tree find_leaf insert_into_leaf insert_into_leaf_after_splitting
insert_new fuel root key value = do
  pointer ← make_record value
  if root == null then start_new_tree key pointer else do
    leaf ← find_leaf fuel root key
    n ← load leaf
    order ← gets (λ s. s.order)
    if ltb n.num_keys (order - 1)
        then (do same ← insert_into_leaf leaf key pointer; pure root)
        else insert_into_leaf_after_splitting fuel root leaf key pointer

unfoldable pub insert : ℕ → Ptr → ℕ → ℕ → Prog Ptr
unfolding find set_value insert_new
insert fuel root key value = do
  (found, leaf) ← find fuel root key
  if not (found == null)
      then (set_value found value >> pure root)
      else insert_new fuel root key value
