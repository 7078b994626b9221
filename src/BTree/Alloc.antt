-- ===== src/BTree/Alloc.antt =====
-- The allocators of benchmarks/btree/btree.c: aligned memory, the free lists of node and record
-- slabs, and the constructors `make_record`, `make_node` and `make_leaf`.
pub mod FreeList
pub mod Records
pub mod Leaves
use nu_ksm_pact21_artifact.Base.{
  ℕ, zero, suc, ◌+◌, ◌-◌, ◌*◌, ◌/◌, ◌^◌, true, false, [], ◌∷◌, ◌==◌, if◌then◌else◌, replicate,
}
use nu_ksm_pact21_artifact.BTree.Store.{
  Ptr, null, Node, Rec, Store, done, exited, Prog, pure, ◌>>=◌, ◌>>◌, gets, modify, update, put,
  load, store, load_record, store_record, set_next, add64,
}

-- `allocate` and `allocate_align64`, less the address's alignment: the memory is zeroed, and
-- `exit(1)` follows a failure.
unfoldable pub allocate : ℕ → Prog Ptr
allocate size s = elim s.supply [
  | [] ↦ exited
  | p ∷ rest ↦ done p (record s { supply = rest; allocator_stat = add64 s.allocator_stat size })
]

abbrev pub slab_bytes : ℕ
slab_bytes = 2 ^ 18

abbrev pub node_bytes : ℕ
node_bytes = 48

abbrev pub record_bytes : ℕ
record_bytes = 16

-- A node of zeroed memory: its array pointers are NULL, so it has no elements.
abbrev pub blank_node : Node
blank_node = record {
  pointers = [];
  keys = [];
  parent = null;
  is_leaf = false;
  num_keys = 0;
  next = null;
}

abbrev pub blank_record : Rec
blank_record = record { word = 0; flags = 0 }

-- `for (i …; i < i + rounds; i++) { n[i].next = free_nodes; free_nodes = &n[i]; }`
unfoldable pub chain_nodes : ℕ → Ptr → Store → Store
chain_nodes zero p s = s
chain_nodes (suc r) p s =
    chain_nodes r (p + node_bytes)
      (record (put p (record blank_node { next = s.free_nodes }) s) { free_nodes = p })

unfoldable pub chain_records : ℕ → Ptr → Store → Store
chain_records zero p s = s
chain_records (suc r) p s = chain_records r (p + record_bytes) (record s {
  records = update s.records p (record blank_record { word = s.free_recs });
  free_recs = p;
})

-- The rest of `alloc_node`, once the free list is not empty.
unfoldable pub pop_node : Prog Ptr
unfolding load
pop_node = do
  nd ← gets (λ s. s.free_nodes)
  n ← load nd
  modify (λ s. record s { free_nodes = n.next })
  pure nd

unfoldable pub alloc_node : Prog Ptr
unfolding allocate chain_nodes pop_node
alloc_node = do
  head ← gets (λ s. s.free_nodes)
  if head == null
      then (do n ← allocate slab_bytes; modify (chain_nodes (slab_bytes / node_bytes) n); pop_node)
      else pop_node

unfoldable pub free_node : Ptr → Prog (Unit {0})
unfolding set_next
free_node n = do
  head ← gets (λ s. s.free_nodes)
  set_next n head
  modify (λ s. record s { free_nodes = n })

unfoldable pub pop_record : Prog Ptr
unfolding load_record
pop_record = do
  rec ← gets (λ s. s.free_recs)
  r ← load_record rec
  modify (λ s. record s { free_recs = r.word })
  pure rec

unfoldable pub alloc_record : Prog Ptr
unfolding allocate pop_record
alloc_record = do
  head ← gets (λ s. s.free_recs)
  if head == null
      then (do
        r ← allocate slab_bytes
        modify (chain_records (slab_bytes / record_bytes) r)
        pop_record)
      else pop_record

unfoldable pub free_record : Ptr → Prog (Unit {0})
unfolding store_record
free_record r = do
  head ← gets (λ s. s.free_recs)
  old ← load_record r
  store_record r (record old { word = head })
  modify (λ s. record s { free_recs = r })

-- `r->value = v`
unfoldable pub set_value : Ptr → ℕ → Prog (Unit {0})
unfolding store_record
set_value r v = do old ← load_record r; store_record r (record old { word = v })

unfoldable pub make_record : ℕ → Prog Ptr
unfolding alloc_record set_value
make_record value = do r ← alloc_record; set_value r value; pure r

-- The new arrays have `order - 1` keys and `order` pointers, all zero.
unfoldable pub make_node : Prog Ptr
unfolding alloc_node allocate store
make_node = do
  p ← alloc_node
  order ← gets (λ s. s.order)
  keys ← allocate ((order - 1) * 8)
  pointers ← allocate (order * 8)
  n ← load p
  store p (record n {
    keys = replicate (order - 1) 0;
    pointers = replicate order null;
    is_leaf = false;
    num_keys = 0;
    parent = null;
    next = null;
  })
  pure p

unfoldable pub make_leaf : Prog Ptr
unfolding make_node store
make_leaf = do p ← make_node; n ← load p; store p (record n { is_leaf = true }); pure p

-- `free(n->keys); free(n->pointers);`: an access to either array is a fault from now on.
unfoldable pub free_arrays : Ptr → Prog (Unit {0})
unfolding store
free_arrays p = do n ← load p; store p (record n { keys = []; pointers = [] })
