-- ===== src/BTree/Alloc/Leaves.antt =====
-- `make_leaf` of benchmarks/btree/btree.c with a free node.
use mathlib.Core.Path.{subst}
use nu_ksm_pact21_artifact.Base.{
  ℕ, ◌-◌, ◌*◌, ◌≡◌, ◌≢◌, refl, sym, ap, true, false, List, ◌∷◌, arith, ◌==◌, replicate,
}
use nu_ksm_pact21_artifact.BTree.Store.{Ptr, null, Node, Store, done, put, add64}
use nu_ksm_pact21_artifact.BTree.Store.Laws.{Holds, put-put, not_null}
use nu_ksm_pact21_artifact.BTree.Alloc.{allocate, make_node, make_leaf}

abbrev pub new_leaf : ℕ → Node
new_leaf order = record {
  pointers = replicate order null;
  keys = replicate (order - 1) 0;
  parent = null;
  is_leaf = true;
  num_keys = 0;
  next = null;
}

-- The second store has the given node at `new`, and differs from the first in no other node; `next`
-- is the head of its free list.
pub record Grown (s after : Store) (new : Ptr) (m : Node) (rest : List Ptr) (next : Ptr)
    : Type 0 where
  pub at : Holds after new m
  pub order : after.order ≡ s.order
  pub supply : after.supply ≡ rest
  pub others : (q : Ptr) → q ≢ new → after.nodes q ≡ s.nodes q
  pub free : after.free_nodes ≡ next
  pub records : after.records ≡ s.records
  pub free_recs : after.free_recs ≡ s.free_recs

pub allocate_lem :
    (size : ℕ) (s : Store) (p : Ptr) (rest : List Ptr)
    → s.supply ≡ p ∷ rest
    → allocate size s
      ≡ done p (record s { supply = rest; allocator_stat = add64 s.allocator_stat size })
unfolding allocate
allocate_lem size s p rest e = rw e refl

-- The store in which the free node `b` at `new` has become a leaf.
abbrev with_leaf : Ptr → Node → List Ptr → Store → Store
with_leaf new b rest s = record (put new (new_leaf s.order) s) {
  free_nodes = b.next;
  supply = rest;
  allocator_stat = add64 (add64 s.allocator_stat ((s.order - 1) * 8)) (s.order * 8);
}

eq_self : (p : Ptr) → (p == p) ≡ true
eq_self p = ground arith

make_leaf-with_leaf :
    (s : Store) (b : Node) (p q : Ptr) (rest : List Ptr)
    → Holds s s.free_nodes b
    → s.supply ≡ p ∷ q ∷ rest
    → make_leaf s ≡ done s.free_nodes (with_leaf s.free_nodes b rest s)
unfolding make_leaf
make_leaf-with_leaf s b p q rest h e =
    let new = s.free_nodes in
    let none : (new == null) ≡ false = not_null h in
    let old = record s {
      free_nodes = b.next;
      supply = rest;
      allocator_stat = add64 (add64 s.allocator_stat ((s.order - 1) * 8)) (s.order * 8);
    } in
    let same = put-put old new (new_leaf s.order) (record (new_leaf s.order) { is_leaf = false }) in
    rw (none, none, h.holds, e, none, h.holds, h.holds, none, eq_self new, eq_self new)
      (ap (done new) same)

-- Where the free list of nodes has a node and the system gives memory for its two arrays, `make_leaf`
-- returns this node as an empty leaf, and leaves the other nodes as they were.
pub make_leaf-Grown :
    (s : Store) (b : Node) (p q : Ptr) (rest : List Ptr)
    → Holds s s.free_nodes b
    → s.supply ≡ p ∷ q ∷ rest
    → (after : Store) × (make_leaf s ≡ done s.free_nodes after)
      × Grown s after s.free_nodes (new_leaf s.order) rest b.next
make_leaf-Grown s b p q rest h e = (
  with_leaf s.free_nodes b rest s,
  make_leaf-with_leaf s b p q rest h e,
  record {
    at = record { ne_null = h.ne_null; holds = rw (eq_self s.free_nodes) refl };
    order = refl;
    supply = refl;
    free = refl;
    records = refl;
    free_recs = refl;
    others = λ x ne. let other : (x == s.free_nodes) ≡ false = ground arith in rw other refl;
  },
)

abbrev pub new_node : ℕ → Node
new_node order = record (new_leaf order) { is_leaf = false }

abbrev with_node : Ptr → Node → List Ptr → Store → Store
with_node new b rest s = record (put new (new_node s.order) s) {
  free_nodes = b.next;
  supply = rest;
  allocator_stat = add64 (add64 s.allocator_stat ((s.order - 1) * 8)) (s.order * 8);
}

make_node-with_node :
    (s : Store) (b : Node) (p q : Ptr) (rest : List Ptr)
    → Holds s s.free_nodes b
    → s.supply ≡ p ∷ q ∷ rest
    → make_node s ≡ done s.free_nodes (with_node s.free_nodes b rest s)
unfolding make_node
make_node-with_node s b p q rest h e =
    let none : (s.free_nodes == null) ≡ false = not_null h in
    rw (none, none, h.holds, e, none, h.holds, h.holds) refl

-- The same for `make_node`, whose node is not a leaf.
pub make_node-Grown :
    (s : Store) (b : Node) (p q : Ptr) (rest : List Ptr)
    → Holds s s.free_nodes b
    → s.supply ≡ p ∷ q ∷ rest
    → (after : Store) × (make_node s ≡ done s.free_nodes after)
      × Grown s after s.free_nodes (new_node s.order) rest b.next
make_node-Grown s b p q rest h e = (
  with_node s.free_nodes b rest s,
  make_node-with_node s b p q rest h e,
  record {
    at = record { ne_null = h.ne_null; holds = rw (eq_self s.free_nodes) refl };
    order = refl;
    supply = refl;
    free = refl;
    records = refl;
    free_recs = refl;
    others = λ x ne. let other : (x == s.free_nodes) ≡ false = ground arith in rw other refl;
  },
)

-- The same at a free node that has another name.
pub make_leaf-Grown_at :
    (s : Store) (b : Node) (x p q : Ptr) (rest : List Ptr)
    → s.free_nodes ≡ x
    → Holds s x b
    → s.supply ≡ p ∷ q ∷ rest
    → (after : Store) × (make_leaf s ≡ done x after)
      × Grown s after x (new_leaf s.order) rest b.next
make_leaf-Grown_at s b x p q rest e h supply =
    subst
      (λ y.
        (after : Store) × (make_leaf s ≡ done y after)
        × Grown s after y (new_leaf s.order) rest b.next)
      e (make_leaf-Grown s b p q rest (subst (λ y. Holds s y b) (sym e) h) supply)

-- The same at a free node that has another name.
pub make_node-Grown_at :
    (s : Store) (b : Node) (x p q : Ptr) (rest : List Ptr)
    → s.free_nodes ≡ x
    → Holds s x b
    → s.supply ≡ p ∷ q ∷ rest
    → (after : Store) × (make_node s ≡ done x after)
      × Grown s after x (new_node s.order) rest b.next
make_node-Grown_at s b x p q rest e h supply =
    subst
      (λ y.
        (after : Store) × (make_node s ≡ done y after)
        × Grown s after y (new_node s.order) rest b.next)
      e (make_node-Grown s b p q rest (subst (λ y. Holds s y b) (sym e) h) supply)
