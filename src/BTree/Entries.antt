-- ===== src/BTree/Entries.antt =====
-- The steps of insertion in benchmarks/btree/btree.c that stay in one node, and the loops that the
-- splits use. Each loop is a function over the rounds that it has left.
pub mod Scan
pub mod Shift
pub mod Leaf
pub mod Copy
pub mod Children
use nu_ksm_pact21_artifact.Base.{ℕ, zero, suc, ◌+◌, ◌-◌, List, ◌==◌, if◌then◌else◌, ltb}
use nu_ksm_pact21_artifact.BTree.Store.{
  Ptr, null, Prog, pure, ◌>>=◌, ◌>>◌, load, at, write_at, get_key, get_pointer, set_key,
  set_pointer, set_num_keys, set_parent, add64,
}
use nu_ksm_pact21_artifact.BTree.Find.{scan_keys}

-- `while (left_index <= num_keys && pointers[left_index] != left) left_index++;`
unfoldable pub scan_pointers : ℕ → Ptr → Ptr → ℕ → Prog ℕ
unfolding get_pointer
scan_pointers zero parent left i = pure i
scan_pointers (suc rounds) parent left i = do
  p ← get_pointer parent i
  if p == left then pure i else scan_pointers rounds parent left (i + 1)

unfoldable pub get_left_index : Ptr → Ptr → Prog ℕ
unfolding scan_pointers load
get_left_index parent left = do n ← load parent; scan_pointers (n.num_keys + 1) parent left 0

-- The downward loop of `insert_into_leaf`, from `i = lo + rounds` to `i = lo + 1`.
unfoldable pub shift_entries : Ptr → ℕ → ℕ → Prog (Unit {0})
unfolding get_key get_pointer set_key set_pointer
shift_entries leaf lo zero = pure tt
shift_entries leaf lo (suc rounds) = do
  k ← get_key leaf (lo + rounds)
  set_key leaf (lo + rounds + 1) k
  p ← get_pointer leaf (lo + rounds)
  set_pointer leaf (lo + rounds + 1) p
  shift_entries leaf lo rounds

unfoldable pub insert_into_leaf : Ptr → ℕ → Ptr → Prog Ptr
unfolding load scan_keys shift_entries set_key set_pointer set_num_keys
insert_into_leaf leaf key pointer = do
  n ← load leaf
  insertion_point ← scan_keys (λ k. ltb k key) n.num_keys leaf 0
  shift_entries leaf insertion_point (n.num_keys - insertion_point)
  set_key leaf insertion_point key
  set_pointer leaf insertion_point pointer
  set_num_keys leaf (add64 n.num_keys 1)
  pure leaf

-- `if (j == gap) j++;`
abbrev pub skip_gap : ℕ → ℕ → ℕ
skip_gap gap j = if j == gap then j + 1 else j

-- The copy of a leaf into the temporary arrays, around the gap at `gap`.
unfoldable pub spread_entries : ℕ → Ptr → ℕ → ℕ → ℕ → List ℕ → List Ptr → Prog (List ℕ × List Ptr)
unfolding get_key get_pointer write_at
spread_entries zero leaf gap i j temp_keys temp_pointers = pure (temp_keys, temp_pointers)
spread_entries (suc rounds) leaf gap i j temp_keys temp_pointers = do
  k ← get_key leaf i
  keys ← write_at temp_keys (skip_gap gap j) k
  p ← get_pointer leaf i
  pointers ← write_at temp_pointers (skip_gap gap j) p
  spread_entries rounds leaf gap (i + 1) (skip_gap gap j + 1) keys pointers

-- The two loops that copy one array of an internal node around a gap.
unfoldable pub spread : ℕ → (ℕ → Prog ℕ) → ℕ → ℕ → ℕ → List ℕ → Prog (List ℕ)
unfolding write_at
spread zero source gap i j temp = pure temp
spread (suc rounds) source gap i j temp = do
  v ← source i
  temp ← write_at temp (skip_gap gap j) v
  spread rounds source gap (i + 1) (skip_gap gap j + 1) temp

-- `n->pointers[j] = temp_pointers[i]; n->keys[j] = temp_keys[i]; n->num_keys++;`, with `i` and
-- `j` going up together.
unfoldable pub fill_entries : ℕ → Ptr → List ℕ → List Ptr → ℕ → ℕ → Prog (Unit {0})
unfolding at set_key set_pointer set_num_keys
fill_entries zero p temp_keys temp_pointers i j = pure tt
fill_entries (suc rounds) p temp_keys temp_pointers i j = do
  q ← at temp_pointers i
  set_pointer p j q
  k ← at temp_keys i
  set_key p j k
  n ← load p
  set_num_keys p (add64 n.num_keys 1)
  fill_entries rounds p temp_keys temp_pointers (i + 1) (j + 1)

-- `for (; i < i + rounds; i++) p->pointers[i] = NULL;`
unfoldable pub clear_pointers : ℕ → Ptr → ℕ → Prog (Unit {0})
unfolding set_pointer
clear_pointers zero p i = pure tt
clear_pointers (suc rounds) p i = do set_pointer p i null; clear_pointers rounds p (i + 1)

-- `child = new_node->pointers[i]; child->parent = new_node;`
unfoldable pub adopt : ℕ → Ptr → ℕ → Prog (Unit {0})
unfolding get_pointer set_parent
adopt zero p i = pure tt
adopt (suc rounds) p i = do child ← get_pointer p i; set_parent child p; adopt rounds p (i + 1)

-- The downward loop of `insert_into_node`, from `i = left_index + rounds` to `left_index + 1`.
unfoldable pub shift_children : Ptr → ℕ → ℕ → Prog (Unit {0})
unfolding get_key get_pointer set_key set_pointer
shift_children n left_index zero = pure tt
shift_children n left_index (suc rounds) = do
  p ← get_pointer n (left_index + rounds + 1)
  set_pointer n (left_index + rounds + 2) p
  k ← get_key n (left_index + rounds)
  set_key n (left_index + rounds + 1) k
  shift_children n left_index rounds

unfoldable pub insert_into_node : Ptr → Ptr → ℕ → ℕ → Ptr → Prog Ptr
unfolding load shift_children set_key set_pointer set_num_keys
insert_into_node root n left_index key right = do
  nd ← load n
  shift_children n left_index (nd.num_keys - left_index)
  set_pointer n (left_index + 1) right
  set_key n left_index key
  set_num_keys n (add64 nd.num_keys 1)
  pure root
