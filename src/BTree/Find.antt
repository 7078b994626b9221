-- ===== src/BTree/Find.antt =====
-- Queries of benchmarks/btree/btree.c: the print queue, `height`, `path_to_root`, `find_leaf`,
-- `find`, `find_range` and `cut`. The lines that only print are left out.
use nu_ksm_pact21_artifact.Base.{
  ℕ, zero, suc, ◌+◌, ◌-◌, ◌/◌, ◌%◌, Bool, List, [], ◌∷◌, ◌++◌, ◌==◌, not, if◌then◌else◌, ltb, leb,
}
use nu_ksm_pact21_artifact.BTree.Store.{
  Ptr, null, out_of_fuel, Prog, pure, ◌>>=◌, ◌>>◌, gets, modify, load, get_key, get_pointer,
  set_next,
}

-- `while (c->next != NULL) c = c->next;`
unfoldable pub last_queued : ℕ → Ptr → Prog Ptr
unfolding load
last_queued zero c = λ _. out_of_fuel
last_queued (suc fuel) c = do n ← load c; if n.next == null then pure c else last_queued fuel n.next

unfoldable pub enqueue : ℕ → Ptr → Prog (Unit {0})
unfolding last_queued set_next
enqueue fuel new_node = do
  queue ← gets (λ s. s.queue)
  if queue == null
      then (modify (λ s. record s { queue = new_node }) >> set_next new_node null)
      else (do c ← last_queued fuel queue; set_next c new_node; set_next new_node null)

unfoldable pub dequeue : Prog Ptr
unfolding load set_next
dequeue = do
  n ← gets (λ s. s.queue)
  head ← load n
  modify (λ s. record s { queue = head.next })
  set_next n null
  pure n

-- `while (!c->is_leaf) { c = c->pointers[0]; h++; }`
unfoldable pub height_from : ℕ → Ptr → ℕ → Prog ℕ
unfolding get_pointer
height_from zero c h = λ _. out_of_fuel
height_from (suc fuel) c h = do
  n ← load c
  if n.is_leaf then pure h else (do d ← get_pointer c 0; height_from fuel d (h + 1))

unfoldable pub height : ℕ → Ptr → Prog ℕ
unfolding height_from
height fuel root = height_from fuel root 0

-- `while (c != root) { c = c->parent; length++; }`
unfoldable pub path_from : ℕ → Ptr → Ptr → ℕ → Prog ℕ
unfolding load
path_from zero root c len = λ _. out_of_fuel
path_from (suc fuel) root c len =
    if c == root then pure len else (do n ← load c; path_from fuel root n.parent (len + 1))

unfoldable pub path_to_root : ℕ → Ptr → Ptr → Prog ℕ
unfolding path_from
path_to_root fuel root child = path_from fuel root child 0

-- `while (i < bound && go_on(p->keys[i])) i++;` with `bound - i` rounds left.
unfoldable pub scan_keys : (ℕ → Bool) → ℕ → Ptr → ℕ → Prog ℕ
unfolding get_key
scan_keys go_on zero p i = pure i
scan_keys go_on (suc rounds) p i = do
  k ← get_key p i
  if go_on k then scan_keys go_on rounds p (i + 1) else pure i

-- The index of the child to go down to, and the descent.
unfoldable pub find_leaf_from : ℕ → Ptr → ℕ → Prog Ptr
unfolding scan_keys get_pointer
find_leaf_from zero c key = λ _. out_of_fuel
find_leaf_from (suc fuel) c key = do
  n ← load c
  if n.is_leaf then pure c else do
    i ← scan_keys (λ k. leb k key) n.num_keys c 0
    child ← get_pointer c i
    find_leaf_from fuel child key

unfoldable pub find_leaf : ℕ → Ptr → ℕ → Prog Ptr
unfolding find_leaf_from
find_leaf fuel root key = if root == null then pure root else find_leaf_from fuel root key

-- The record, and the leaf that goes out through `leaf_out`.
unfoldable pub find : ℕ → Ptr → ℕ → Prog (Ptr × Ptr)
unfolding find_leaf
find fuel root key = if root == null then pure (null, null) else do
  leaf ← find_leaf fuel root key
  n ← load leaf
  i ← scan_keys (λ k. not (k == key)) n.num_keys leaf 0
  if i == n.num_keys then pure (null, leaf) else (do r ← get_pointer leaf i; pure (r, leaf))

-- `for (; i < n->num_keys && n->keys[i] <= key_end; i++)`, which stores what it meets.
unfoldable pub collect_leaf : ℕ → ℕ → Ptr → ℕ → Prog (List (ℕ × Ptr))
unfolding get_key get_pointer
collect_leaf key_end zero p i = pure []
collect_leaf key_end (suc rounds) p i = do
  k ← get_key p i
  if leb k key_end
      then (do
        r ← get_pointer p i
        rest ← collect_leaf key_end rounds p (i + 1)
        pure ((k, r) ∷ rest))
      else pure []

-- `while (n != NULL) { …; n = n->pointers[order - 1]; i = 0; }`
unfoldable pub collect : ℕ → ℕ → Ptr → ℕ → Prog (List (ℕ × Ptr))
unfolding load collect_leaf
collect zero key_end n i = λ _. out_of_fuel
collect (suc fuel) key_end n i = if n == null then pure [] else do
  nd ← load n
  found ← collect_leaf key_end (nd.num_keys - i) n i
  order ← gets (λ s. s.order)
  right ← get_pointer n (order - 1)
  rest ← collect fuel key_end right 0
  pure (found ++ rest)

-- What `returned_keys` and `returned_pointers` hold; the length is `num_found`.
unfoldable pub find_range : ℕ → Ptr → ℕ → ℕ → Prog (List (ℕ × Ptr))
unfolding find_leaf collect
find_range fuel root key_start key_end = do
  n ← find_leaf fuel root key_start
  if n == null then pure [] else do
    nd ← load n
    i ← scan_keys (λ k. ltb k key_start) nd.num_keys n 0
    if i == nd.num_keys then pure [] else collect fuel key_end n i

unfoldable pub cut : ℕ → ℕ
cut length = if length % 2 == 0 then length / 2 else length / 2 + 1
