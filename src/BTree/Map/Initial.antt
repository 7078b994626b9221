-- ===== src/BTree/Map/Initial.antt =====
-- The first insertion of the program, which takes a slab of records and a slab of nodes.
use mathlib.Core.Path.{subst}
use nu_ksm_pact21_artifact.Base.{
  ℕ, suc, ◌-◌, ◌*◌, ◌/◌, ◌^◌, ◌≤◌, ◌<◌, ◌≡◌, ◌≢◌, ◌⊎◌, refl, sym, ap, ◌∙◌, inl, inr, true, false,
  List, [], ◌∷◌, arith, ◌==◌, length,
}
use nu_ksm_pact21_artifact.BTree.Store.{
  Ptr, null, Prog, Outcome, Store, done, continue_with, ◌>>=◌, add64, update,
}
use nu_ksm_pact21_artifact.BTree.Store.Laws.{not_null}
use nu_ksm_pact21_artifact.BTree.Find.{find}
use nu_ksm_pact21_artifact.BTree.Alloc.{
  slab_bytes, node_bytes, record_bytes, chain_nodes, pop_node, alloc_node, make_node, make_leaf,
  make_record,
}
use nu_ksm_pact21_artifact.BTree.Alloc.Records.{
  HasFree, with_slab, make_slab, with_record, make_record-with_record,
}
use nu_ksm_pact21_artifact.BTree.Insert.{start_new_tree, insert_new, insert}
use nu_ksm_pact21_artifact.BTree.Entries.Leaf.{insert_entry}
use nu_ksm_pact21_artifact.BTree.Tree.Owned.{In, Distinct}
use nu_ksm_pact21_artifact.BTree.Tree.Linked.Ready.{Free}
use nu_ksm_pact21_artifact.BTree.Tree.Linked.Whole.{WellFormed}
use nu_ksm_pact21_artifact.BTree.Map.{assign, Holding, IsMap}
use nu_ksm_pact21_artifact.BTree.Map.Records.{Holding-same, Holding-new}
use nu_ksm_pact21_artifact.BTree.Map.Insertion.{first_record}
use nu_ksm_pact21_artifact.BTree.Map.Start.{empty, Vacant, empty-Holding}
use nu_ksm_pact21_artifact.BTree.Map.FirstLeaf.{started}
use nu_ksm_pact21_artifact.BTree.Map.Slabs.{
  chained, length-chained, chained-Distinct, chained-there, chain_nodes-Free,
  chain_records-FreeRecs,
}

abbrev pub slab_nodes : ℕ
slab_nodes = slab_bytes / node_bytes

abbrev pub slab_records : ℕ
slab_records = slab_bytes / record_bytes

-- The memory before anything is inserted: the free lists are empty, and the system has memory for two
-- slabs and for the arrays of a slab of nodes.
pub record Initial (o : ℕ) (s : Store) : Type 0 where
  pub order : s.order ≡ o
  pub wide : 2 < o
  pub word : o < 2 ^ 64
  pub no_nodes : s.free_nodes ≡ null
  pub no_records : s.free_recs ≡ null
  pub p : Ptr
  pub q : Ptr
  pub rest : List Ptr
  pub p_there : p ≢ null
  pub q_there : q ≢ null
  pub supply : s.supply ≡ p ∷ q ∷ rest
  pub memory : 4 * slab_nodes ≤ length rest

-- The store once the free list has the nodes of a new slab.
unfoldable with_node_slab : Ptr → List Ptr → Store → Store
with_node_slab q rest s =
    chain_nodes slab_nodes q
      (record s { supply = rest; allocator_stat = add64 s.allocator_stat slab_bytes })

alloc_node-slab :
    (s : Store) (q : Ptr) (rest : List Ptr)
    → (s.free_nodes == null) ≡ true
    → s.supply ≡ q ∷ rest
    → alloc_node s ≡ pop_node (with_node_slab q rest s)
unfolding alloc_node with_node_slab
alloc_node-slab s q rest none there = rw (none, there) refl

alloc_node-pop : (t : Store) → (t.free_nodes == null) ≡ false → alloc_node t ≡ pop_node t
unfolding alloc_node
alloc_node-pop t there = rw (there, there) refl

bind_same :
    {A B : Type 0} (m : Prog A) (k : A → Prog B) (s t : Store)
    → m s ≡ m t
    → (m >>= k) s ≡ (m >>= k) t
bind_same {A} m k s t e = ap (λ (o : Outcome A). continue_with o k) e

start_same :
    (key : ℕ) (r : Ptr) (s t : Store)
    → alloc_node s ≡ alloc_node t
    → start_new_tree key r s ≡ start_new_tree key r t
unfolding start_new_tree make_leaf make_node
start_same key r s t e =
    bind_same make_leaf _ s t (bind_same make_node _ s t (bind_same alloc_node _ s t e))

nothing_under : (p x : Ptr) → In x [] → x < p
nothing_under p x i = absurd i

null_outside : (d rounds : ℕ) (p : Ptr) → p ≢ null → In null (chained d rounds p []) → ⊥
null_outside d rounds p ne i = elim (chained-there d rounds p [] null i) [
  | inl none ↦ none
  | inr le ↦ ne (omega arith)
]

-- The first leaf, from a slab of nodes.
first_leaf :
    (o key : ℕ) (r q : Ptr) (rest : List Ptr) (s : Store)
    → s.order ≡ o
    → 2 < o
    → o < 2 ^ 64
    → s.free_nodes ≡ null
    → s.supply ≡ q ∷ rest
    → q ≢ null
    → 4 * slab_nodes ≤ length rest
    → (leaf : Ptr) × (more : List Ptr) × (s' : Store) × (start_new_tree key r s ≡ done leaf s')
      × WellFormed o 0 s' leaf ((key, r) ∷ []) (leaf ∷ []) more
      × (slab_nodes - 1 ≤ length more)
      × (s'.records ≡ s.records)
      × (s'.free_recs ≡ s.free_recs)
unfolding with_node_slab
first_leaf o key r q rest s order wide word none supply q_there memory =
    let given = record s { supply = rest; allocator_stat = add64 s.allocator_stat slab_bytes } in
    let t = with_node_slab q rest s in
    let (free, only) = chain_nodes-Free slab_nodes q [] given q_there (nothing_under q) tt in
    let all = chained node_bytes slab_nodes q [] in
    let size = length-chained node_bytes slab_nodes q [] in
    let distinct = chained-Distinct node_bytes slab_nodes q [] (omega arith) (nothing_under q) tt in
    let (leaf, more, e, count) = first_record (slab_nodes - 1) all (omega arith) in
    let chain : Free t t.free_nodes (leaf ∷ more) = subst (Free t t.free_nodes) e free in
    let (head, b, held, behind) = chain in
    let there : (t.free_nodes == null) ≡ false = ap (λ x. x == null) head ∙ not_null held in
    let empty_list : (s.free_nodes == null) ≡ true = ground arith in
    let same = alloc_node-slab s q rest empty_list supply ∙ sym (alloc_node-pop t there) in
    let count_all = ap (λ (l : List Ptr). length l) e in
    let (s', run, tree, records, free_recs) =
      started o key r leaf t more (only.order ∙ order) wide word
        (record {
          chain = chain;
          memory = subst (λ l. 4 * length (leaf ∷ more) ≤ length l) (sym only.supply) (omega arith);
        })
        (subst Distinct e distinct) in
    (
      leaf,
      more,
      s',
      start_same key r s t same ∙ run,
      tree,
      count,
      records ∙ only.records,
      free_recs ∙ only.free_recs,
    )

-- From the memory before anything is inserted, `insert` into the root NULL, with any fuel, takes a slab of
-- records and one of nodes and returns a root; the memory then stands for the map of this key and value
-- only, and what is left of the two slabs is on the free lists.
pub insert-Initial :
    (o fuel key value : ℕ) (s : Store)
    → Initial o s
    → (root : Ptr) × (after : Store) × (insert fuel null key value s ≡ done root after)
      × IsMap o 0 (slab_nodes - 1) (slab_records - 1) after root (assign key value empty)
unfolding insert insert_new find insert_entry with_slab
insert-Initial o fuel key value s i =
    let given = record s {
      supply = i.q ∷ i.rest;
      allocator_stat = add64 s.allocator_stat slab_bytes;
    } in
    let t = with_slab i.p (i.q ∷ i.rest) s in
    let (free, only) =
      chain_records-FreeRecs slab_records i.p [] given i.p_there (nothing_under i.p) tt in
    let all = chained record_bytes slab_records i.p [] in
    let size = length-chained record_bytes slab_records i.p [] in
    let distinct =
      chained-Distinct record_bytes slab_records i.p [] (omega arith) (nothing_under i.p) tt in
    let (x, recs, ex, count) = first_record (slab_records - 1) all (omega arith) in
    let holding0 =
      empty-Holding t.records t.free_recs all free distinct
        (null_outside record_bytes slab_records i.p i.p_there) in
    let holding = subst (λ l. Holding t.records t.free_recs l [] empty) ex holding0 in
    let (old, at, e, x_null, holding') =
      Holding-new t.records t.free_recs x recs [] empty key value holding in
    let rec = record old { word = value } in
    let s1 = with_record value old t in
    let has : HasFree t old = record {
      ne_null = λ n. x_null (sym e ∙ n);
      head = ap t.records e ∙ at;
    } in
    let made : make_record value s ≡ done x s1 =
      make_slab s value i.p (i.q ∷ i.rest) old i.no_records i.supply has
      ∙ make_record-with_record t value old has
      ∙ ap (λ p. done p s1) e in
    let (leaf, more, s2, run, tree, nodes, same_records, same_first) =
      first_leaf o key x i.q i.rest s1 (only.order ∙ i.order) i.wide i.word
        (only.free_nodes ∙ i.no_nodes) only.supply i.q_there i.memory in
    (
      leaf,
      s2,
      rw (made, run) refl,
      record {
        entries = (key, x) ∷ [];
        addresses = leaf ∷ [];
        free = more;
        free_records = recs;
        tree = tree;
        nodes = nodes;
        holding =
            Holding-same (same_records ∙ ap (λ f. update t.records f rec) e) same_first
              (holding' rec refl);
        records = count;
      },
    )

-- Where a first insertion can start: with free lists that hold so many nodes and records, or with
-- memory for a slab of each.
abbrev pub Begins : ℕ → ℕ → ℕ → Store → Type 0
Begins o nodes records s =
    Vacant o (suc nodes) (suc records) s
    ⊎ (Initial o s × (nodes < slab_nodes) × (records < slab_records))
