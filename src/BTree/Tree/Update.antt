-- ===== src/BTree/Tree/Update.antt =====
-- `insert` of a key that the tree holds, and `delete` of one that it does not hold.
use nu_ksm_pact21_artifact.Base.{ℕ, ◌<◌, ◌≡◌, ◌≢◌, refl, false, true, some, List, ◌==◌, arith}
use nu_ksm_pact21_artifact.BTree.Store.{Ptr, null, Rec, Store, done, update}
use nu_ksm_pact21_artifact.BTree.Insert.{insert}
use nu_ksm_pact21_artifact.BTree.Delete.{delete}
use nu_ksm_pact21_artifact.BTree.Tree.{lookup, Tree}
use nu_ksm_pact21_artifact.BTree.Tree.Search.{find-lookup}

eq_null-false : (p : Ptr) → p ≢ null → (p == null) ≡ false
eq_null-false p h = ground arith

eq_null-true : (p : Ptr) → p ≡ null → (p == null) ≡ true
eq_null-true p h = ground arith

-- The store after `r->value = value`.
abbrev pub with_value : Ptr → Rec → ℕ → Store → Store
with_value r old value s = record s { records = update s.records r (record old { word = value }) }

-- In a tree, with more fuel than its height, `insert` of a key for which the tree holds a record
-- that is there returns the same root, and its only effect is the new value in this record: no
-- entry is added twice and no node is touched.
pub insert-existing :
    (key value h fuel : ℕ) (s : Store) (root : Ptr) (es : List (ℕ × Ptr)) (old : Rec)
    → Tree s h root es
    → h < fuel
    → lookup key es ≢ null
    → s.records (lookup key es) ≡ some old
    → insert fuel root key value s ≡ done root (with_value (lookup key es) old value s)
unfolding insert
insert-existing key value h fuel s root es old t lt ne there =
    let (leaf, part, n, l, run) = find-lookup key h fuel s root es t lt in
    rw (run, eq_null-false (lookup key es) ne, there, there) refl

-- In a tree, with more fuel than its height, `delete` of a key that no entry has returns the same
-- root and changes nothing.
pub delete-missing :
    (key h fuel : ℕ) (s : Store) (root : Ptr) (es : List (ℕ × Ptr))
    → Tree s h root es
    → h < fuel
    → lookup key es ≡ null
    → delete fuel root key s ≡ done root s
unfolding delete
delete-missing key h fuel s root es t lt missing =
    let (leaf, part, n, l, run) = find-lookup key h fuel s root es t lt in
    rw (run, eq_null-true (lookup key es) missing) refl
