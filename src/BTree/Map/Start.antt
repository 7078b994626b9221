-- ===== src/BTree/Map/Start.antt =====
-- The first insertion: `insert` into no tree at all, with `start_new_tree`.
use mathlib.Core.Path.{subst}
use nu_ksm_pact21_artifact.Base.{
  ℕ, suc, ◌^◌, ◌≤◌, ◌<◌, ◌≡◌, refl, sym, ap, ◌∙◌, none, List, [], ◌∷◌, length,
}
use nu_ksm_pact21_artifact.BTree.Store.{Ptr, null, Store, done, update}
use nu_ksm_pact21_artifact.BTree.Find.{find}
use nu_ksm_pact21_artifact.BTree.Alloc.{make_record}
use nu_ksm_pact21_artifact.BTree.Alloc.Records.{with_record, make_record-with_record}
use nu_ksm_pact21_artifact.BTree.Insert.{insert_new, insert}
use nu_ksm_pact21_artifact.BTree.Entries.Leaf.{insert_entry}
use nu_ksm_pact21_artifact.BTree.Tree.{lookup}
use nu_ksm_pact21_artifact.BTree.Tree.Owned.{In, Distinct}
use nu_ksm_pact21_artifact.BTree.Tree.Linked.Ready.{Ready, Free-same}
use nu_ksm_pact21_artifact.BTree.Map.{Contents, assign, Heap, FreeRecs, Holding, IsMap}
use nu_ksm_pact21_artifact.BTree.Map.Records.{Holding-same, Holding-new}
use nu_ksm_pact21_artifact.BTree.Map.Insertion.{first_record}
use nu_ksm_pact21_artifact.BTree.Map.FirstLeaf.{started}

abbrev pub empty : Contents
empty = λ _. none

-- A memory without a tree, with at least so many free nodes and free records.
pub record Vacant (o spare_nodes spare_records : ℕ) (s : Store) : Type 0 where
  pub free : List Ptr
  pub free_records : List Ptr
  pub order : s.order ≡ o
  pub wide : 2 < o
  pub word : o < 2 ^ 64
  pub ready : Ready s free
  pub free_distinct : Distinct free
  pub nodes : spare_nodes ≤ length free
  pub chain : FreeRecs s.records s.free_recs free_records
  pub records_distinct : Distinct free_records
  pub not_null : In null free_records → ⊥
  pub records : spare_records ≤ length free_records

pub empty-Holding :
    (heap : Heap) (first : Ptr) (free : List Ptr)
    → FreeRecs heap first free
    → Distinct free
    → (In null free → ⊥)
    → Holding heap first free [] empty
unfolding lookup
empty-Holding heap first free chain d out = record {
  there = tt;
  values = λ j. refl;
  separate = λ j k e ne. absurd (ne refl);
  fresh = λ j. out;
  chain = chain;
  free_distinct = d;
}

-- The first insertion, once the record and the leaf are named.
first_at :
    (o spare_nodes spare_records fuel key value : ℕ) (s : Store) (x leaf : Ptr)
    (recs rest : List Ptr)
    → s.order ≡ o
    → 2 < o
    → o < 2 ^ 64
    → Ready s (leaf ∷ rest)
    → Distinct (leaf ∷ rest)
    → spare_nodes ≤ length rest
    → Holding s.records s.free_recs (x ∷ recs) [] empty
    → spare_records ≤ length recs
    → (root : Ptr) × (after : Store) × (insert fuel null key value s ≡ done root after)
      × IsMap o 0 spare_nodes spare_records after root (assign key value empty)
unfolding insert insert_new find insert_entry
first_at o spare_nodes spare_records fuel key value s x leaf recs rest order wide word ready d nodes
      holding records =
    let (old, at, e, x_null, holding') =
      Holding-new s.records s.free_recs x recs [] empty key value holding in
    let rec = record old { word = value } in
    let s1 = with_record value old s in
    let made : make_record value s ≡ done x s1 =
      make_record-with_record s value old
        (record { ne_null = λ n. x_null (sym e ∙ n); head = ap s.records e ∙ at })
      ∙ ap (λ p. done p s1) e in
    let ready1 : Ready s1 (leaf ∷ rest) = record {
      chain = Free-same s s1 s.free_nodes (leaf ∷ rest) (λ y i. refl) ready.chain;
      memory = ready.memory;
    } in
    let (s2, run, tree, same_records, same_first) =
      started o key x leaf s1 rest order wide word ready1 d in
    (
      leaf,
      s2,
      rw (made, run) refl,
      record {
        entries = (key, x) ∷ [];
        addresses = leaf ∷ [];
        free = rest;
        free_records = recs;
        tree = tree;
        nodes = nodes;
        holding =
            Holding-same (same_records ∙ ap (λ f. update s.records f rec) e) same_first
              (holding' rec refl);
        records = records;
      },
    )

-- In a memory without a tree that has a free node and a free record, `insert` into the root NULL, with
-- any fuel, returns a root, and the memory then stands for the map of this key and value only.
pub insert-empty :
    (o spare_nodes spare_records fuel key value : ℕ) (s : Store)
    → Vacant o (suc spare_nodes) (suc spare_records) s
    → (root : Ptr) × (after : Store) × (insert fuel null key value s ≡ done root after)
      × IsMap o 0 spare_nodes spare_records after root (assign key value empty)
insert-empty o spare_nodes spare_records fuel key value s v =
    let (leaf, rest, e, nodes) = first_record spare_nodes v.free v.nodes in
    let (x, recs, e', records) = first_record spare_records v.free_records v.records in
    let holding =
      empty-Holding s.records s.free_recs v.free_records v.chain v.records_distinct v.not_null in
    first_at o spare_nodes spare_records fuel key value s x leaf recs rest v.order v.wide v.word
      (subst (Ready s) e v.ready) (subst Distinct e v.free_distinct) nodes
      (subst (λ l. Holding s.records s.free_recs l [] empty) e' holding) records
