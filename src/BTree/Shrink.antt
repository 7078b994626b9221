-- ===== src/BTree/Shrink.antt =====
-- The steps of deletion in benchmarks/btree/btree.c that stay in one node, its parent and one
-- neighbor. An index of -1 is its `uint64_t` value.
pub mod Close
use nu_ksm_pact21_artifact.Base.{
  ℕ, zero, suc, ◌+◌, ◌-◌, ◌^◌, Bool, true, false, ◌==◌, if◌then◌else◌, ltb, length,
}
use nu_ksm_pact21_artifact.BTree.Store.{
  Ptr, null, out_of_fuel, exited, Prog, pure, ◌>>=◌, ◌>>◌, gets, load, get_key, get_pointer,
  set_key, set_pointer, set_num_keys, set_parent, add64,
}
use nu_ksm_pact21_artifact.BTree.Alloc.{free_node, free_arrays}
use nu_ksm_pact21_artifact.BTree.Entries.{scan_pointers, clear_pointers, adopt}

abbrev pub minus_one : ℕ
minus_one = 2 ^ 64 - 1

abbrev pub dec64 : ℕ → ℕ
dec64 a = add64 a minus_one

-- `i - 1`, where `i` is the index of `n` in its parent; `exit` if it is not there.
unfoldable pub get_neighbor_index : Ptr → Prog ℕ
unfolding load scan_pointers
get_neighbor_index n = do
  nd ← load n
  p ← load nd.parent
  i ← scan_pointers (p.num_keys + 1) nd.parent n 0
  if i == p.num_keys + 1 then (λ _. exited) else pure (dec64 i)

-- `while (n->keys[i] != key) i++;`, and the same over the pointers. The read past the end of the
-- array is a fault, so `length + 1` rounds are never used up.
unfoldable pub seek_key : ℕ → Ptr → ℕ → ℕ → Prog ℕ
unfolding get_key
seek_key zero n key i = λ _. out_of_fuel
seek_key (suc rounds) n key i = do
  k ← get_key n i
  if k == key then pure i else seek_key rounds n key (i + 1)

unfoldable pub seek_pointer : ℕ → Ptr → Ptr → ℕ → Prog ℕ
unfolding get_pointer
seek_pointer zero n pointer i = λ _. out_of_fuel
seek_pointer (suc rounds) n pointer i = do
  p ← get_pointer n i
  if p == pointer then pure i else seek_pointer rounds n pointer (i + 1)

-- `for (++i; i < bound; i++) a[i - 1] = a[i];`
unfoldable pub close_keys : ℕ → Ptr → ℕ → Prog (Unit {0})
unfolding get_key set_key
close_keys zero n i = pure tt
close_keys (suc rounds) n i = do k ← get_key n (i + 1); set_key n i k; close_keys rounds n (i + 1)

unfoldable pub close_pointers : ℕ → Ptr → ℕ → Prog (Unit {0})
unfolding get_pointer set_pointer
close_pointers zero n i = pure tt
close_pointers (suc rounds) n i = do
  p ← get_pointer n (i + 1)
  set_pointer n i p
  close_pointers rounds n (i + 1)

unfoldable pub remove_entry_from_node : Ptr → ℕ → Ptr → Prog Ptr
unfolding load seek_key seek_pointer close_keys close_pointers set_num_keys clear_pointers
remove_entry_from_node n key pointer = do
  nd ← load n
  i ← seek_key (length nd.keys + 1) n key 0
  close_keys (nd.num_keys - (i + 1)) n i
  let num_pointers = if nd.is_leaf then nd.num_keys else nd.num_keys + 1
  i ← seek_pointer (length nd.pointers + 1) n pointer 0
  close_pointers (num_pointers - (i + 1)) n i
  set_num_keys n (dec64 nd.num_keys)
  order ← gets (λ s. s.order)
  let left = dec64 nd.num_keys
  if nd.is_leaf
      then clear_pointers (order - 1 - left) n left
      else clear_pointers (order - (left + 1)) n (left + 1)
  pure n

unfoldable pub adjust_root : Ptr → Prog Ptr
unfolding load get_pointer set_parent free_arrays free_node
adjust_root root = do
  n ← load root
  if ltb 0 n.num_keys then pure root else do
    new_root ←
        (if n.is_leaf then pure null else (do r ← get_pointer root 0; set_parent r null; pure r))
    free_arrays root
    free_node root
    pure new_root

-- `neighbor->keys[i] = n->keys[j]; neighbor->pointers[i] = n->pointers[j]; neighbor->num_keys++;`,
-- and `n->num_keys--` in an internal node, where the test is against the old `n->num_keys`.
unfoldable pub append_entries : ℕ → Bool → Ptr → Ptr → ℕ → ℕ → Prog (Unit {0})
unfolding load get_key get_pointer set_key set_pointer set_num_keys
append_entries zero leaf n neighbor i j = pure tt
append_entries (suc rounds) leaf n neighbor i j = do
  k ← get_key n j
  set_key neighbor i k
  p ← get_pointer n j
  set_pointer neighbor i p
  b ← load neighbor
  set_num_keys neighbor (add64 b.num_keys 1)
  a ← load n
  if leaf then pure tt else set_num_keys n (dec64 a.num_keys)
  append_entries rounds leaf n neighbor (i + 1) (j + 1)

-- `coalesce_nodes` up to its call of `delete_entry`, after the swap of `n` and `neighbor`.
unfoldable pub merge_nodes : Ptr → Ptr → ℕ → Prog (Unit {0})
unfolding load append_entries get_pointer set_key set_pointer set_num_keys adopt
merge_nodes n neighbor k_prime = do
  a ← load n
  b ← load neighbor
  let start = b.num_keys
  if a.is_leaf
      then (do
        append_entries a.num_keys true n neighbor start 0
        order ← gets (λ s. s.order)
        right ← get_pointer n (order - 1)
        set_pointer neighbor (order - 1) right)
      else (do
        set_key neighbor start k_prime
        set_num_keys neighbor (add64 b.num_keys 1)
        append_entries a.num_keys false n neighbor (start + 1) 0
        last ← get_pointer n a.num_keys
        set_pointer neighbor (start + 1 + a.num_keys) last
        b ← load neighbor
        adopt (b.num_keys + 1) neighbor 0)

-- The two halves of `redistribute_nodes`. First `n` takes the last entry of its left neighbor.
unfoldable pub shift_right : Ptr → ℕ → Prog (Unit {0})
unfolding get_key get_pointer set_key set_pointer
shift_right n zero = pure tt
shift_right n (suc i) = do
  k ← get_key n i
  set_key n (i + 1) k
  p ← get_pointer n i
  set_pointer n (i + 1) p
  shift_right n i

unfoldable pub borrow_left : Ptr → Ptr → ℕ → ℕ → Prog (Unit {0})
unfolding load shift_right get_key get_pointer set_key set_pointer set_parent
borrow_left n neighbor k_prime_index k_prime = do
  a ← load n
  b ← load neighbor
  if a.is_leaf
      then (do
        shift_right n a.num_keys
        p ← get_pointer neighbor (dec64 b.num_keys)
        set_pointer n 0 p
        set_pointer neighbor (dec64 b.num_keys) null
        k ← get_key neighbor (dec64 b.num_keys)
        set_key n 0 k
        set_key a.parent k_prime_index k)
      else (do
        last ← get_pointer n a.num_keys
        set_pointer n (a.num_keys + 1) last
        shift_right n a.num_keys
        child ← get_pointer neighbor b.num_keys
        set_pointer n 0 child
        set_parent child n
        set_pointer neighbor b.num_keys null
        set_key n 0 k_prime
        k ← get_key neighbor (dec64 b.num_keys)
        set_key a.parent k_prime_index k)

-- `for (i = 0; i < neighbor->num_keys - 1; i++)`: keys and pointers move one place down.
unfoldable pub shift_left : ℕ → Ptr → ℕ → Prog (Unit {0})
unfolding get_key get_pointer set_key set_pointer
shift_left zero p i = pure tt
shift_left (suc rounds) p i = do
  k ← get_key p (i + 1)
  set_key p i k
  q ← get_pointer p (i + 1)
  set_pointer p i q
  shift_left rounds p (i + 1)

-- Otherwise `n` is the leftmost child, and takes the first entry of the neighbor to its right.
unfoldable pub borrow_right : Ptr → Ptr → ℕ → ℕ → Prog (Unit {0})
unfolding load shift_left get_key get_pointer set_key set_pointer set_parent
borrow_right n neighbor k_prime_index k_prime = do
  a ← load n
  b ← load neighbor
  if a.is_leaf
      then (do
        k ← get_key neighbor 0
        set_key n a.num_keys k
        p ← get_pointer neighbor 0
        set_pointer n a.num_keys p
        k ← get_key neighbor 1
        set_key a.parent k_prime_index k
        shift_left (dec64 b.num_keys) neighbor 0)
      else (do
        set_key n a.num_keys k_prime
        child ← get_pointer neighbor 0
        set_pointer n (a.num_keys + 1) child
        set_parent child n
        k ← get_key neighbor 0
        set_key a.parent k_prime_index k
        shift_left (dec64 b.num_keys) neighbor 0
        last ← get_pointer neighbor b.num_keys
        set_pointer neighbor (dec64 b.num_keys) last)

unfoldable pub redistribute_nodes : Ptr → Ptr → Ptr → ℕ → ℕ → ℕ → Prog Ptr
unfolding load borrow_left borrow_right set_num_keys
redistribute_nodes root n neighbor neighbor_index k_prime_index k_prime = do
  if neighbor_index == minus_one
      then borrow_right n neighbor k_prime_index k_prime
      else borrow_left n neighbor k_prime_index k_prime
  a ← load n
  set_num_keys n (add64 a.num_keys 1)
  b ← load neighbor
  set_num_keys neighbor (dec64 b.num_keys)
  pure root
