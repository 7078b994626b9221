-- ===== src/BTree/Map/Insertion.antt =====
-- `find` and `insert` against the map.
use mathlib.Core.Path.{subst}
use nu_ksm_pact21_artifact.Base.{
  ℕ, suc, ◌+◌, ◌≤◌, ◌<◌, ◌≡◌, ◌≢◌, refl, sym, ap, ◌∙◌, ◌⊎◌, inl, inr, true, false, Bool-cases, List,
  [], ◌∷◌, arith, ◌==◌, length, length-append,
}
use nu_ksm_pact21_artifact.BTree.Store.{Ptr, null, Store, done, update}
use nu_ksm_pact21_artifact.BTree.Find.{find, find_leaf}
use nu_ksm_pact21_artifact.BTree.Alloc.{make_record}
use nu_ksm_pact21_artifact.BTree.Alloc.Records.{with_record, make_record-with_record}
use nu_ksm_pact21_artifact.BTree.Insert.{insert_new, insert}
use nu_ksm_pact21_artifact.BTree.Entries.Leaf.{insert_entry}
use nu_ksm_pact21_artifact.BTree.Tree.{lookup, Tree}
use nu_ksm_pact21_artifact.BTree.Tree.Edit.{Entries}
use nu_ksm_pact21_artifact.BTree.Tree.Owned.{Owned-Tree}
use nu_ksm_pact21_artifact.BTree.Tree.Search.{find-lookup, root_not_null}
use nu_ksm_pact21_artifact.BTree.Tree.Update.{with_value, insert-existing}
use nu_ksm_pact21_artifact.BTree.Tree.Linked.{Linked-Family, Linked-Owned}
use nu_ksm_pact21_artifact.BTree.Tree.Linked.Ready.{Free-same}
use nu_ksm_pact21_artifact.BTree.Tree.Linked.Whole.{WellFormed, place-Leaves}
use nu_ksm_pact21_artifact.BTree.Tree.Linked.Level.{otherwise}
use nu_ksm_pact21_artifact.BTree.Tree.Linked.Climb.{place}
use nu_ksm_pact21_artifact.BTree.Map.{Contents, assign, Heap, HasValue, Holding, IsMap}
use nu_ksm_pact21_artifact.BTree.Map.Records.{Holding-same, lookup-IsNew, Holding-new, Holding-old}

pub WellFormed-Tree :
    (o h : ℕ) (s : Store) (root : Ptr) (es : Entries) (ns free : List Ptr)
    → WellFormed o h s root es ns free
    → Tree s h root es
WellFormed-Tree o h s root es ns free w =
    let wide = w.wide in
    Owned-Tree s h root es ns (Linked-Owned o h null s root es ns (omega arith) w.tree)

-- A tree does not depend on the records.
with_records :
    (o h : ℕ) (s : Store) (heap : Heap) (first root : Ptr) (es : Entries) (ns free : List Ptr)
    → WellFormed o h s root es ns free
    → WellFormed o h (record s { free_recs = first; records = heap }) root es ns free
with_records o h s heap first root es ns free w =
    let t = record s { free_recs = first; records = heap } in
    record {
      order = w.order;
      wide = w.wide;
      word = w.word;
      tree = (Linked-Family o h null).same s t root es ns (λ x i. refl) w.tree;
      distinct = w.distinct;
      sorted = w.sorted;
      ready = record {
        chain = Free-same s t s.free_nodes free (λ x i. refl) w.ready.chain;
        memory = w.ready.memory;
      };
      free_distinct = w.free_distinct;
      apart = w.apart;
    }

-- In a memory that stands for the map `m`, with more fuel than the height, `find` returns NULL for a
-- key that has no value in `m`, and otherwise a record with this value; it changes nothing.
pub find-IsMap :
    (o h spare_nodes spare_records fuel key : ℕ) (s : Store) (root : Ptr) (m : Contents)
    → IsMap o h spare_nodes spare_records s root m
    → h < fuel
    → (p : Ptr) × (leaf : Ptr) × (find fuel root key s ≡ done (p, leaf) s)
      × HasValue s.records p (m key)
find-IsMap o h spare_nodes spare_records fuel key s root m t lt =
    let es = t.entries in
    let (leaf, part, n, l, run) =
      find-lookup key h fuel s root es (WellFormed-Tree o h s root es t.addresses t.free t.tree)
        lt in
    (lookup key es, leaf, run, t.holding.values key)

-- What an insertion leaves of a map: the new map, in a tree at most one level higher.
abbrev pub Inserted : ℕ → ℕ → ℕ → ℕ → ℕ → Ptr → ℕ → ℕ → Store → Contents → Type 0
Inserted o h spare_nodes spare_records fuel root key value s m =
    (root' : Ptr) × (after : Store) × (h' : ℕ) × (insert fuel root key value s ≡ done root' after)
    × (h ≤ h')
    × (h' ≤ suc h)
    × IsMap o h' spare_nodes spare_records after root' (assign key value m)

insert_new-place :
    (fuel key value : ℕ) (s s' : Store) (root r leaf : Ptr)
    → make_record value s ≡ done r s'
    → (root == null) ≡ false
    → find_leaf fuel root key s' ≡ done leaf s'
    → insert_new fuel root key value s ≡ place fuel root leaf key r s'
unfolding insert_new
insert_new-place fuel key value s s' root r leaf made there found =
    rw made (otherwise (root == null) _ _ s' there (rw found refl))

-- The key is not there.
insert_absent :
    (o h spare_nodes spare_records fuel key value : ℕ) (s : Store) (root x : Ptr) (recs : List Ptr)
    (m : Contents) (es : Entries) (ns free : List Ptr)
    → WellFormed o h s root es ns free
    → suc (suc h) + spare_nodes ≤ length free
    → Holding s.records s.free_recs (x ∷ recs) es m
    → spare_records ≤ length recs
    → h < fuel
    → lookup key es ≡ null
    → Inserted o h spare_nodes spare_records fuel root key value s m
unfolding insert
insert_absent o h spare_nodes spare_records fuel key value s root x recs m es ns free w nodes
      holding records lt missing =
    let whole = WellFormed-Tree o h s root es ns free w in
    let (l0, part0, n0, leaf0, found) = find-lookup key h fuel s root es whole lt in
    let none_yet : (lookup key es == null) ≡ true = ground arith in
    let (old, at, e, x_null, holding') =
      Holding-new s.records s.free_recs x recs es m key value holding in
    let rec = record old { word = value } in
    let s' = with_record value old s in
    let made : make_record value s ≡ done x s' =
      make_record-with_record s value old
        (record { ne_null = λ n. x_null (sym e ∙ n); head = ap s.records e ∙ at })
      ∙ ap (λ p. done p s') e in
    let (leaf, descent, left) =
      place-Leaves o h fuel s' root es ns free key x
        (with_records o h s s'.records old.word root es ns free w) lt (omega arith)
        (lookup-IsNew key es holding.there missing) in
    let few = left.few in
    let split = ap (λ (l : List Ptr). length l) left.taken in
    (
      left.root,
      left.after,
      left.height,
      rw (found, none_yet)
          (insert_new-place fuel key value s s' root x leaf made (root_not_null h s root es whole)
              descent
            ∙ left.runs),
      at_least h left.height left.level,
      at_most h left.height left.level,
      record {
        entries = insert_entry key x es;
        addresses = left.addresses;
        free = left.rest;
        free_records = recs;
        tree = left.tree;
        nodes = omega (arith, length-append left.used left.rest);
        holding =
            Holding-same (left.records ∙ ap (λ f. update s.records f rec) e) left.free_recs
              (holding' rec refl);
        records = records;
      },
    )
  where
    at_least : (h g : ℕ) → (g ≡ h) ⊎ (g ≡ suc h) → h ≤ g
    at_least h g (inl e) = omega arith
    at_least h g (inr e) = omega arith

    at_most : (h g : ℕ) → (g ≡ h) ⊎ (g ≡ suc h) → g ≤ suc h
    at_most h g (inl e) = omega arith
    at_most h g (inr e) = omega arith

-- The key is there.
insert_present :
    (o h spare_nodes spare_records fuel key value : ℕ) (s : Store) (root : Ptr) (m : Contents)
    → (t : IsMap o h (suc (suc h) + spare_nodes) (suc spare_records) s root m) → h < fuel
    → lookup key t.entries ≢ null
    → Inserted o h spare_nodes spare_records fuel root key value s m
insert_present o h spare_nodes spare_records fuel key value s root m t lt ne =
    let es = t.entries in
    let whole = WellFormed-Tree o h s root es t.addresses t.free t.tree in
    let nodes = t.nodes in
    let records = t.records in
    let (old, at, holding) =
      Holding-old s.records s.free_recs t.free_records es m key value t.holding ne in
    let s' = with_value (lookup key es) old value s in
    (
      root,
      s',
      h,
      insert-existing key value h fuel s root es old whole lt ne at,
      omega arith,
      omega arith,
      record {
        entries = es;
        addresses = t.addresses;
        free = t.free;
        free_records = t.free_records;
        tree = with_records o h s s'.records s.free_recs root es t.addresses t.free t.tree;
        nodes = omega arith;
        holding = holding;
        records = omega arith;
      },
    )

pub first_record :
    (n : ℕ) (recs : List Ptr)
    → suc n ≤ length recs
    → (x : Ptr) × (rest : List Ptr) × (recs ≡ x ∷ rest) × (n ≤ length rest)
first_record n [] h = absurd (omega arith)
first_record n (x ∷ rest) h = (x, rest, refl, omega arith)

-- In a memory that stands for the map `m`, with more fuel than the tree's height, with two more free
-- nodes than it and a free record: `insert` of any key returns a root, and the memory then stands for
-- `m` with the value assigned to the key, in a well-formed tree as high as before or one level higher,
-- at the cost of at most those nodes and one record.
pub insert-IsMap :
    (o h spare_nodes spare_records fuel key value : ℕ) (s : Store) (root : Ptr) (m : Contents)
    → IsMap o h (suc (suc h) + spare_nodes) (suc spare_records) s root m
    → h < fuel
    → (root' : Ptr) × (after : Store) × (h' : ℕ) × (insert fuel root key value s ≡ done root' after)
      × (h ≤ h')
      × (h' ≤ suc h)
      × IsMap o h' spare_nodes spare_records after root' (assign key value m)
insert-IsMap o h spare_nodes spare_records fuel key value s root m t lt =
    let es = t.entries in
    elim (Bool-cases (lookup key es == null)) [
      | inl missing ↦
          let (x, recs, e, enough) = first_record spare_records t.free_records t.records in
          insert_absent o h spare_nodes spare_records fuel key value s root x recs m es t.addresses
            t.free t.tree t.nodes (subst (λ l. Holding s.records s.free_recs l es m) e t.holding)
            enough lt (ground arith)
      | inr there ↦
          insert_present o h spare_nodes spare_records fuel key value s root m t lt (ground arith)
    ]
