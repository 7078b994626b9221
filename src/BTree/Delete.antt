-- ===== src/BTree/Delete.antt =====
-- `delete` of benchmarks/btree/btree.c and the climb from an underfull node to its parent, which
-- takes fuel, one unit for each level that it reaches.
use nu_ksm_pact21_artifact.Base.{
  ℕ, zero, suc, ◌+◌, ◌-◌, Bool, ◌&&◌, ◌==◌, not, if◌then◌else◌, leb, ltb,
}
use nu_ksm_pact21_artifact.BTree.Store.{
  Ptr, null, out_of_fuel, Prog, pure, ◌>>=◌, ◌>>◌, gets, load, get_key, get_pointer,
}
use nu_ksm_pact21_artifact.BTree.Alloc.{free_node, free_record, free_arrays}
use nu_ksm_pact21_artifact.BTree.Find.{find, cut}
use nu_ksm_pact21_artifact.BTree.Shrink.{
  minus_one, get_neighbor_index, remove_entry_from_node, adjust_root, merge_nodes,
  redistribute_nodes,
}

-- `coalesce_nodes`; `climb` is its call of `delete_entry`.
unfoldable pub coalesce_nodes :
    (climb : Ptr → Ptr → ℕ → Ptr → Prog Ptr) → Ptr → Ptr → Ptr → ℕ → ℕ → Prog Ptr
unfolding load merge_nodes free_arrays free_node
coalesce_nodes climb root n neighbor neighbor_index k_prime =
    if neighbor_index == minus_one then run neighbor n else run n neighbor
  where
    run : Ptr → Ptr → Prog Ptr
    run n neighbor = do
      merge_nodes n neighbor k_prime
      a ← load n
      root ← climb root a.parent k_prime n
      free_arrays n
      free_node n
      pure root

-- The least number of keys of a node below the root.
unfoldable pub min_keys : ℕ → Bool → ℕ
unfolding cut
min_keys order leaf = if leaf then cut (order - 1) else cut order - 1

unfoldable pub delete_entry : ℕ → Ptr → Ptr → ℕ → Ptr → Prog Ptr
unfolding load get_key get_pointer remove_entry_from_node adjust_root get_neighbor_index
    coalesce_nodes redistribute_nodes min_keys
delete_entry zero root n key pointer = λ _. out_of_fuel
delete_entry (suc fuel) root n key pointer = do
  n ← remove_entry_from_node n key pointer
  if n == root then adjust_root root else do
    nd ← load n
    order ← gets (λ s. s.order)
    if leb (min_keys order nd.is_leaf) nd.num_keys then pure root else do
      neighbor_index ← get_neighbor_index n
      let leftmost = neighbor_index == minus_one
      let k_prime_index = if leftmost then 0 else neighbor_index
      k_prime ← get_key nd.parent k_prime_index
      neighbor ← get_pointer nd.parent (if leftmost then 1 else neighbor_index)
      b ← load neighbor
      if ltb (b.num_keys + nd.num_keys) (if nd.is_leaf then order else order - 1)
          then coalesce_nodes (delete_entry fuel) root n neighbor neighbor_index k_prime
          else redistribute_nodes root n neighbor neighbor_index k_prime_index k_prime

unfoldable pub delete : ℕ → Ptr → ℕ → Prog Ptr
unfolding find delete_entry free_record
delete fuel root key = do
  (key_record, key_leaf) ← find fuel root key
  if not (key_record == null) && not (key_leaf == null)
      then (do
        root ← delete_entry fuel root key_leaf key key_record
        free_record key_record
        pure root)
      else pure root
