-- ===== src/BTree/Map/Run.antt =====
-- A sequence of insertions against the map.
use nu_ksm_pact21_artifact.Base.{
  ◌-◌, inl, inr, ℕ, zero, suc, ◌+◌, ◌≤◌, ◌≡◌, refl, List, [], ◌∷◌, arith, length,
}
use nu_ksm_pact21_artifact.BTree.Store.{Ptr, null, Prog, Store, done, pure, ◌>>=◌}
use nu_ksm_pact21_artifact.BTree.Insert.{insert}
use nu_ksm_pact21_artifact.BTree.Map.{Contents, assign, IsMap}
use nu_ksm_pact21_artifact.BTree.Map.Insertion.{insert-IsMap}
use nu_ksm_pact21_artifact.BTree.Map.Start.{empty, insert-empty}
use nu_ksm_pact21_artifact.BTree.Map.Initial.{slab_nodes, slab_records, Begins, insert-Initial}

unfoldable pub insert_all : ℕ → List (ℕ × ℕ) → Ptr → Prog Ptr
unfolding insert
insert_all fuel [] root = pure root
insert_all fuel ((k, v) ∷ items) root = do next ← insert fuel root k v; insert_all fuel items next

unfoldable pub assign_all : List (ℕ × ℕ) → Contents → Contents
assign_all [] m = m
assign_all ((k, v) ∷ items) m = assign_all items (assign k v m)

-- The nodes that so many insertions can take from a tree of height `h` on.
abbrev pub nodes_for : ℕ → ℕ → ℕ
nodes_for zero h = 0
nodes_for (suc n) h = suc (suc h) + nodes_for n (suc h)

nodes_for_le : (n h h' : ℕ) → h ≤ h' → nodes_for n h ≤ nodes_for n h'
nodes_for_le zero h h' le = omega arith
nodes_for_le (suc n) h h' le = omega (arith, nodes_for_le n (suc h) (suc h') (omega arith))

pub fewer :
    {o h : ℕ} {s : Store} {root : Ptr} {m : Contents} (n n' r r' : ℕ)
    → n' ≤ n
    → r' ≤ r
    → IsMap o h n r s root m
    → IsMap o h n' r' s root m
fewer n n' r r' le le' t =
    let nodes = t.nodes in
    let records = t.records in
    record {
      entries = t.entries;
      addresses = t.addresses;
      free = t.free;
      free_records = t.free_records;
      tree = t.tree;
      nodes = omega arith;
      holding = t.holding;
      records = omega arith;
    }

-- A sequence of insertions, with enough free nodes and a free record for each, and with as much fuel as
-- the height and the number of insertions together: they all return, and the memory then stands for
-- the map with the values assigned one after the other.
pub insert_all-IsMap :
    (o h spare_nodes spare_records fuel : ℕ) (items : List (ℕ × ℕ)) (s : Store) (root : Ptr)
    (m : Contents)
    → IsMap o h (nodes_for (length items) h + spare_nodes) (length items + spare_records) s root m
    → h + length items ≤ fuel
    → (root' : Ptr) × (after : Store) × (h' : ℕ) × (insert_all fuel items root s ≡ done root' after)
      × (h' ≤ h + length items)
      × IsMap o h' spare_nodes spare_records after root' (assign_all items m)
unfolding insert_all assign_all
insert_all-IsMap o h spare_nodes spare_records fuel [] s root m t le = (
  root,
  s,
  h,
  refl,
  omega arith,
  fewer (0 + spare_nodes) spare_nodes (0 + spare_records) spare_records (omega arith) (omega arith)
      t,
)
insert_all-IsMap o h spare_nodes spare_records fuel ((k, v) ∷ items) s root m t le =
    let n = length items in
    let (root1, s1, h1, run, low, high, t1) =
      insert-IsMap o h (nodes_for n (suc h) + spare_nodes) (n + spare_records) fuel k v s root m
        (fewer (suc (suc h) + nodes_for n (suc h) + spare_nodes)
          (suc (suc h) + (nodes_for n (suc h) + spare_nodes)) (suc n + spare_records)
          (suc (n + spare_records)) (omega arith) (omega arith) t)
        (omega arith) in
    let (root2, s2, h2, rest, bound, t2) =
      insert_all-IsMap o h1 spare_nodes spare_records fuel items s1 root1 (assign k v m)
        (fewer (nodes_for n (suc h) + spare_nodes) (nodes_for n h1 + spare_nodes)
          (n + spare_records) (n + spare_records) (omega (arith, nodes_for_le n h1 (suc h) high))
          (omega arith) t1)
        (omega arith) in
    (root2, s2, h2, rw run rest, omega arith, t2)

-- The first insertion, whatever the free lists hold.
pub insert-Begins :
    (o nodes records fuel key value : ℕ) (s : Store)
    → Begins o nodes records s
    → (root : Ptr) × (after : Store) × (insert fuel null key value s ≡ done root after)
      × IsMap o 0 nodes records after root (assign key value empty)
insert-Begins o nodes records fuel key value s (inl v) =
    insert-empty o nodes records fuel key value s v
insert-Begins o nodes records fuel key value s (inr (i, few_nodes, few_records)) =
    let (root, after, run, t) = insert-Initial o fuel key value s i in
    (
      root,
      after,
      run,
      fewer (slab_nodes - 1) nodes (slab_records - 1) records (omega arith) (omega arith) t,
    )

-- A sequence of insertions from a memory without a tree on.
pub insert_all-Begins :
    (o spare_nodes spare_records fuel key value : ℕ) (items : List (ℕ × ℕ)) (s : Store)
    → let n = length items in
      Begins o (nodes_for n 0 + spare_nodes) (n + spare_records) s
      → n ≤ fuel
      → (root : Ptr) × (after : Store) × (h : ℕ) × (insert_all fuel ((key, value) ∷ items) null s
          ≡ done root after)
        × (h ≤ n)
        × IsMap o h spare_nodes spare_records after root (assign_all ((key, value) ∷ items) empty)
unfolding insert_all assign_all
insert_all-Begins o spare_nodes spare_records fuel key value items s v le =
    let n = length items in
    let (root1, s1, run, t) =
      insert-Begins o (nodes_for n 0 + spare_nodes) (n + spare_records) fuel key value s v in
    let (root, after, h, rest, bound, t') =
      insert_all-IsMap o 0 spare_nodes spare_records fuel items s1 root1 (assign key value empty) t
        (omega arith) in
    (root, after, h, rw run rest, omega arith, t')
