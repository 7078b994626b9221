-- ===== src/BTree/Alloc/Records.antt =====
-- `make_record` of benchmarks/btree/btree.c, with the free list of records and with a new slab.
use nu_ksm_pact21_artifact.Base.{
  ℕ, zero, suc, ◌+◌, ◌/◌, ◌<◌, ◌≡◌, ◌≢◌, ◌⊎◌, inl, inr, refl, ap, sym, ◌∙◌, false, true, some, List,
  ◌∷◌, arith, ◌==◌,
}
use nu_ksm_pact21_artifact.BTree.Store.{
  Ptr, null, Rec, Outcome, Store, done, continue_with, pure, ◌>>◌, update, add64,
}
use nu_ksm_pact21_artifact.BTree.Alloc.{
  slab_bytes, record_bytes, blank_record, chain_records, pop_record, alloc_record, set_value,
  make_record,
}

-- The free list of records has a record at its head.
pub record HasFree (s : Store) (old : Rec) : Type 0 where
  pub ne_null : s.free_recs ≢ null
  pub head : s.records s.free_recs ≡ some old

-- A record is free, or the system has memory for a slab of them.
abbrev pub HasRecord : Store → Type 0
HasRecord s =
    ((old : Rec) × HasFree s old)
    ⊎ ((s.free_recs ≡ null) × (p : Ptr) × (rest : List Ptr) × (p ≢ null) × (s.supply ≡ p ∷ rest))

-- The second store has the same nodes and the same order, and at `r` a record with this value.
pub record Recorded (s after : Store) (r : Ptr) (value : ℕ) : Type 0 where
  pub nodes : after.nodes ≡ s.nodes
  pub order : after.order ≡ s.order
  pub ne_null : r ≢ null
  pub there : (made : Rec) × (after.records r ≡ some made) × (made.word ≡ value)

eq_null : (p : Ptr) → p ≢ null → (p == null) ≡ false
eq_null p h = ground arith

eq_self : (p : Ptr) → (p == p) ≡ true
eq_self p = ground arith

-- `pop_record` and the assignment of the value.
make_pop :
    (s : Store) (value : ℕ) (old : Rec)
    → HasFree s old
    → (after : Store) × (make_record value s ≡ done s.free_recs after)
      × Recorded s after s.free_recs value
unfolding make_record
make_pop s value old h =
    let r = s.free_recs in
    let made = record old { word = value } in
    let after = record s { free_recs = old.word; records = update s.records r made } in
    (
      after,
      rw (eq_null r h.ne_null, eq_null r h.ne_null, h.head, eq_null r h.ne_null, h.head, h.head)
          refl,
      record {
        nodes = refl;
        order = refl;
        ne_null = h.ne_null;
        there = (made, rw (eq_self r) refl, refl);
      },
    )

-- The store once the record at the head of the free list has this value.
abbrev pub with_record : ℕ → Rec → Store → Store
with_record value old s = record s {
  free_recs = old.word;
  records = update s.records s.free_recs (record old { word = value });
}

pub make_record-with_record :
    (s : Store) (value : ℕ) (old : Rec)
    → HasFree s old
    → make_record value s ≡ done s.free_recs (with_record value old s)
unfolding make_record
make_record-with_record s value old h =
    let none = eq_null s.free_recs h.ne_null in rw (none, none, h.head, none, h.head, h.head) refl

-- The records of a new slab go to the free list one by one.
chain_records-Free :
    (rounds : ℕ) (p : Ptr) (s : Store)
    → p ≢ null
    → (old : Rec) × HasFree s old
    → let after = chain_records rounds p s in
      (after.nodes ≡ s.nodes) × (after.order ≡ s.order) × (old : Rec) × HasFree after old
unfolding chain_records
chain_records-Free zero p s ne (old, free) = (refl, refl, old, free)
chain_records-Free (suc r) p s ne free =
    let first = record blank_record { word = s.free_recs } in
    chain_records-Free r (p + record_bytes)
      (record s { records = update s.records p first; free_recs = p }) (omega arith)
      (first, record { ne_null = ne; head = rw (eq_self p) refl })

chain_records-suc :
    (rounds : ℕ) (p : Ptr) (s : Store)
    → 0 < rounds
    → p ≢ null
    → let after = chain_records rounds p s in
      (after.nodes ≡ s.nodes) × (after.order ≡ s.order) × (old : Rec) × HasFree after old
unfolding chain_records
chain_records-suc zero p s h ne = absurd (omega arith)
chain_records-suc (suc r) p s h ne =
    let first = record blank_record { word = s.free_recs } in
    chain_records-Free r (p + record_bytes)
      (record s { records = update s.records p first; free_recs = p }) (omega arith)
      (first, record { ne_null = ne; head = rw (eq_self p) refl })

-- The store once the free list has the records of a new slab.
unfoldable pub with_slab : Ptr → List Ptr → Store → Store
with_slab p rest s =
    chain_records (slab_bytes / record_bytes) p
      (record s { supply = rest; allocator_stat = add64 s.allocator_stat slab_bytes })

alloc_record-pop : (s : Store) (old : Rec) → HasFree s old → alloc_record s ≡ pop_record s
unfolding alloc_record
alloc_record-pop s old h = let e = eq_null s.free_recs h.ne_null in rw (e, e) refl

alloc_record-slab :
    (s : Store) (p : Ptr) (rest : List Ptr)
    → (s.free_recs == null) ≡ true
    → s.supply ≡ p ∷ rest
    → alloc_record s ≡ pop_record (with_slab p rest s)
unfolding alloc_record with_slab
alloc_record-slab s p rest empty there = rw (empty, there) refl

pub make_slab :
    (s : Store) (value : ℕ) (p : Ptr) (rest : List Ptr) (old : Rec)
    → s.free_recs ≡ null
    → s.supply ≡ p ∷ rest
    → HasFree (with_slab p rest s) old
    → make_record value s ≡ make_record value (with_slab p rest s)
unfolding make_record
make_slab s value p rest old empty there free =
    let same : alloc_record s ≡ alloc_record (with_slab p rest s) =
      alloc_record-slab s p rest (ground arith) there
      ∙ sym (alloc_record-pop (with_slab p rest s) old free) in
    ap (λ (o : Outcome Ptr). continue_with o (λ r. set_value r value >> pure r)) same

-- Where a record is free, or where the system gives memory for a slab, `make_record` returns a record
-- with the value, and leaves the nodes as they were.
pub make_record-Recorded :
    (s : Store) (value : ℕ)
    → HasRecord s
    → (r : Ptr) × (after : Store) × (make_record value s ≡ done r after) × Recorded s after r value
unfolding with_slab
make_record-Recorded s value (inl (old, free)) =
    let (after, run, made) = make_pop s value old free in (s.free_recs, after, run, made)
make_record-Recorded s value (inr (empty, p, rest, ne, there)) =
    let given = record s { supply = rest; allocator_stat = add64 s.allocator_stat slab_bytes } in
    let (nodes, order, old, free) =
      chain_records-suc (slab_bytes / record_bytes) p given (omega arith) ne in
    let slab = with_slab p rest s in
    let (after, run, made) = make_pop slab value old free in
    (
      slab.free_recs,
      after,
      make_slab s value p rest old empty there free ∙ run,
      record {
        nodes = made.nodes ∙ nodes;
        order = made.order ∙ order;
        ne_null = made.ne_null;
        there = made.there;
      },
    )
