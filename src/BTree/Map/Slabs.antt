-- ===== src/BTree/Map/Slabs.antt =====
-- The free lists once `alloc_node` and `alloc_record` have put a slab into them.
use nu_ksm_pact21_artifact.Base.{
  ℕ, zero, suc, ◌+◌, ◌≤◌, ◌<◌, ◌≡◌, ◌≢◌, ◌⊎◌, refl, inl, inr, List, ◌∷◌, arith, length,
}
use nu_ksm_pact21_artifact.BTree.Store.{Ptr, null, Store, put, update}
use nu_ksm_pact21_artifact.BTree.Store.Laws.{Holds, put-Holds}
use nu_ksm_pact21_artifact.BTree.Alloc.{
  node_bytes, record_bytes, blank_node, blank_record, chain_nodes, chain_records,
}
use nu_ksm_pact21_artifact.BTree.Tree.Owned.{In, Distinct}
use nu_ksm_pact21_artifact.BTree.Tree.Addresses.{not-NotIn}
use nu_ksm_pact21_artifact.BTree.Tree.Linked.Adopt.{put_ne}
use nu_ksm_pact21_artifact.BTree.Tree.Linked.Ready.{Free, Free-same}
use nu_ksm_pact21_artifact.BTree.Map.{FreeRecs}
use nu_ksm_pact21_artifact.BTree.Map.Records.{update_self, FreeRecs-update}

-- A free list to which so many pieces of `d` bytes have been added, from `p` on.
unfoldable pub chained : ℕ → ℕ → Ptr → List Ptr → List Ptr
chained d zero p acc = acc
chained d (suc rounds) p acc = chained d rounds (p + d) (p ∷ acc)

pub length-chained :
    (d rounds : ℕ) (p : Ptr) (acc : List Ptr)
    → length (chained d rounds p acc) ≡ rounds + length acc
unfolding chained
length-chained d zero p acc = omega arith
length-chained d (suc rounds) p acc = omega (arith, length-chained d rounds (p + d) (p ∷ acc))

abbrev Under : Ptr → List Ptr → Type 0
Under p acc = (x : Ptr) → In x acc → x < p

Under-next : (d : ℕ) (p : Ptr) (acc : List Ptr) → 0 < d → Under p acc → Under (p + d) (p ∷ acc)
Under-next d p acc h under x (inl e) = omega arith
Under-next d p acc h under x (inr i) = omega (arith, under x i)

pub chained-Distinct :
    (d rounds : ℕ) (p : Ptr) (acc : List Ptr)
    → 0 < d
    → Under p acc
    → Distinct acc
    → Distinct (chained d rounds p acc)
unfolding chained
chained-Distinct d zero p acc h under distinct = distinct
chained-Distinct d (suc rounds) p acc h under distinct =
    chained-Distinct d rounds (p + d) (p ∷ acc) h (Under-next d p acc h under)
      (not-NotIn p acc (λ i. absurd (omega (arith, under p i))), distinct)

pub chained-there :
    (d rounds : ℕ) (p : Ptr) (acc : List Ptr) (x : Ptr)
    → In x (chained d rounds p acc)
    → In x acc ⊎ (p ≤ x)
unfolding chained
chained-there d zero p acc x i = inl i
chained-there d (suc rounds) p acc x i = elim (chained-there d rounds (p + d) (p ∷ acc) x i) [
  | inl j ↦ elim j [ inl e ↦ inr (omega arith) | inr k ↦ inl k ]
  | inr le ↦ inr (omega arith)
]

-- What a slab of nodes leaves as it was.
pub record OnlyNodes (s t : Store) : Type 0 where
  pub order : t.order ≡ s.order
  pub supply : t.supply ≡ s.supply
  pub records : t.records ≡ s.records
  pub free_recs : t.free_recs ≡ s.free_recs

pub chain_nodes-Free :
    (rounds : ℕ) (p : Ptr) (acc : List Ptr) (s : Store)
    → p ≢ null
    → Under p acc
    → Free s s.free_nodes acc
    → let t = chain_nodes rounds p s in
      Free t t.free_nodes (chained node_bytes rounds p acc) × OnlyNodes s t
unfolding chain_nodes chained
chain_nodes-Free zero p acc s ne under free =
    (free, record { order = refl; supply = refl; records = refl; free_recs = refl })
chain_nodes-Free (suc rounds) p acc s ne under free =
    let b = record blank_node { next = s.free_nodes } in
    let s1 = record (put p b s) { free_nodes = p } in
    let first : Holds s1 p b = record { ne_null = ne; holds = (put-Holds s b ne).holds } in
    let behind : Free s1 s.free_nodes acc =
      Free-same s s1 s.free_nodes acc
        (λ x i. put_ne s p x b (λ e. absurd (omega (arith, under x i)))) free in
    let (rest, same) =
      chain_nodes-Free rounds (p + node_bytes) (p ∷ acc) s1 (omega arith)
        (Under-next node_bytes p acc (omega arith) under) (refl, b, first, behind) in
    (
      rest,
      record {
        order = same.order;
        supply = same.supply;
        records = same.records;
        free_recs = same.free_recs;
      },
    )

-- What a slab of records leaves as it was.
pub record OnlyRecords (s t : Store) : Type 0 where
  pub order : t.order ≡ s.order
  pub supply : t.supply ≡ s.supply
  pub free_nodes : t.free_nodes ≡ s.free_nodes

pub chain_records-FreeRecs :
    (rounds : ℕ) (p : Ptr) (acc : List Ptr) (s : Store)
    → p ≢ null
    → Under p acc
    → FreeRecs s.records s.free_recs acc
    → let t = chain_records rounds p s in
      FreeRecs t.records t.free_recs (chained record_bytes rounds p acc) × OnlyRecords s t
unfolding chain_records chained
chain_records-FreeRecs zero p acc s ne under free =
    (free, record { order = refl; supply = refl; free_nodes = refl })
chain_records-FreeRecs (suc rounds) p acc s ne under free =
    let b = record blank_record { word = s.free_recs } in
    let s1 = record s { records = update s.records p b; free_recs = p } in
    let behind : FreeRecs s1.records s.free_recs acc =
      FreeRecs-update s.records p s.free_recs b acc (λ i. absurd (omega (arith, under p i))) free in
    let (rest, same) =
      chain_records-FreeRecs rounds (p + record_bytes) (p ∷ acc) s1 (omega arith)
        (Under-next record_bytes p acc (omega arith) under)
        (refl, ne, b, update_self s.records p b, behind) in
    (rest, record { order = same.order; supply = same.supply; free_nodes = same.free_nodes })
