-- ===== src/BTree/Map.antt =====
-- What the B+ tree of benchmarks/btree/btree.c stands for: a map from keys to values. `IsMap` relates
-- the memory under a root to such a map.
pub mod Records
pub mod Insertion
pub mod FirstLeaf
pub mod Start
pub mod Slabs
pub mod Initial
pub mod Run
pub mod Filled
pub mod Lookups
use nu_ksm_pact21_artifact.Base.{
  ℕ, suc, ◌≤◌, ◌≡◌, ◌≢◌, Option, none, some, List, [], ◌∷◌, ◌==◌, if◌then◌else◌, length,
}
use nu_ksm_pact21_artifact.BTree.Store.{Ptr, null, Rec, Store}
use nu_ksm_pact21_artifact.BTree.Tree.{lookup}
use nu_ksm_pact21_artifact.BTree.Tree.Edit.{Entries}
use nu_ksm_pact21_artifact.BTree.Tree.Owned.{In, Distinct}
use nu_ksm_pact21_artifact.BTree.Tree.Linked.Whole.{WellFormed}

abbrev pub Contents : Type 0
Contents = ℕ → Option ℕ

abbrev pub assign : ℕ → ℕ → Contents → Contents
assign key value m = λ j. if key == j then some value else m j

abbrev pub Heap : Type 0
Heap = Ptr → Option Rec

-- The pointer leads to a record with this value; it is NULL where there is no value.
abbrev pub HasValue : Heap → Ptr → Option ℕ → Type 0
HasValue heap p none = p ≡ null
HasValue heap p (some v) = (p ≢ null) × (rec : Rec) × (heap p ≡ some rec) × (rec.word ≡ v)

-- The free list of records from `f` on begins with these.
abbrev pub FreeRecs : Heap → Ptr → List Ptr → Type 0
FreeRecs heap f [] = Unit
FreeRecs heap f (x ∷ xs) =
    (f ≡ x) × (x ≢ null) × (rec : Rec) × (heap x ≡ some rec) × FreeRecs heap rec.word xs

abbrev pub AllThere : Entries → Type 0
AllThere [] = Unit
AllThere ((k, p) ∷ es) = (p ≢ null) × AllThere es

-- The records of a tree with the entries `es`: no two keys share one, none of them is free, and the
-- values in them are those of the map.
pub record Holding (heap : Heap) (first : Ptr) (free : List Ptr) (es : Entries) (m : Contents)
    : Type 0 where
  pub there : AllThere es
  pub values : (key : ℕ) → HasValue heap (lookup key es) (m key)
  pub separate : (j k : ℕ) → lookup j es ≡ lookup k es → lookup j es ≢ null → j ≡ k
  pub fresh : (key : ℕ) → In (lookup key es) free → ⊥
  pub chain : FreeRecs heap first free
  pub free_distinct : Distinct free

-- A well-formed tree of order `o` and height `h` under `root` whose values are those of the map `m`, in
-- a memory with at least so many free nodes and free records.
pub record IsMap (o h spare_nodes spare_records : ℕ) (s : Store) (root : Ptr) (m : Contents)
    : Type 0 where
  pub entries : Entries
  pub addresses : List Ptr
  pub free : List Ptr
  pub free_records : List Ptr
  pub tree : WellFormed o h s root entries addresses free
  pub nodes : spare_nodes ≤ length free
  pub holding : Holding s.records s.free_recs free_records entries m
  pub records : spare_records ≤ length free_records
