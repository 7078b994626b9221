-- ===== src/BTree/Tree/Deletion/Lookup.antt =====
-- What `find` returns after `delete`.
use nu_ksm_pact21_artifact.Base.{
  ℕ, ◌≤◌, ◌<◌, ◌≡◌, ◌≢◌, refl, ap, ◌∙◌, inl, inr, false, some, List, [], ◌∷◌, arith, ◌==◌,
  if◌then◌else◌, Bool-cases,
}
use nu_ksm_pact21_artifact.BTree.Store.{Ptr, null, Node, Rec, Store, done}
use nu_ksm_pact21_artifact.BTree.Find.{find}
use nu_ksm_pact21_artifact.BTree.Delete.{delete}
use nu_ksm_pact21_artifact.BTree.Tree.{lookup}
use nu_ksm_pact21_artifact.BTree.Tree.Search.{find-lookup}
use nu_ksm_pact21_artifact.BTree.Tree.Insertion.{AllAbove, IsSorted}
use nu_ksm_pact21_artifact.BTree.Tree.Owned.{Distinct, Owned, Owned-Tree}
use nu_ksm_pact21_artifact.BTree.Tree.Edit.{Entries, remove_entry}
use nu_ksm_pact21_artifact.BTree.Tree.Deletion.{HasSpareFor, delete-remove_entry}

lookup-AllAbove : (j b : ℕ) (es : Entries) → j ≤ b → AllAbove b es → lookup j es ≡ null
unfolding lookup
lookup-AllAbove j b [] h above = refl
lookup-AllAbove j b ((k, p) ∷ es) h (more, above) =
    let other : (k == j) ≡ false = ground arith in rw other (lookup-AllAbove j b es h above)

lookup-remove_entry :
    (j key : ℕ) (es : Entries)
    → IsSorted es
    → lookup j (remove_entry key es) ≡ (if key == j then null else lookup j es)
unfolding lookup remove_entry
lookup-remove_entry j key [] sorted = ground arith
lookup-remove_entry j key ((k, p) ∷ es) (above, sorted) =
    let rest = lookup-remove_entry j key es sorted in
    elim (Bool-cases (k == key)) [
      | inl hit ↦
          let gone = lookup-AllAbove k k es (omega arith) above in
          let same : k ≡ key = ground arith in
          elim (Bool-cases (key == j)) [
            | inl it ↦ let to : k ≡ j = ground arith in rw (hit, it, ← to) gone
            | inr not_it ↦
                let other : (k == j) ≡ false = ground arith in rw (hit, not_it, other) refl
          ]
      | inr miss ↦ rw miss (ground (arith, rest))
    ]

-- Under the conditions of `delete-remove_entry`, and with entries in the order of their keys, each
-- key once: after `delete` of the key, `find` returns NULL for it, and for every other key what the
-- tree held for it before, with the memory unchanged.
pub find-delete :
    (key j h fuel : ℕ) (s : Store) (root : Ptr) (es : Entries) (ns : List Ptr) (leaf : Ptr)
    (n : Node) (old : Rec)
    → Owned s h root es ns
    → Distinct ns
    → h < fuel
    → IsSorted es
    → lookup key es ≢ null
    → s.records (lookup key es) ≡ some old
    → HasSpareFor fuel root key s leaf n
    → (after : Store) × (delete fuel root key s ≡ done root after)
      × (found : Ptr) × (find fuel root j after
          ≡ done (if key == j then null else lookup j es, found) after)
find-delete key j h fuel s root es ns leaf n old t distinct lt sorted ne held spare =
    let (after, run, t', freed) =
      delete-remove_entry key h fuel s root es ns leaf n old t distinct lt ne held spare in
    let (found, part, m, l, search) =
      find-lookup j h fuel after root (remove_entry key es)
        (Owned-Tree after h root (remove_entry key es) ns t') lt in
    (
      after,
      run,
      found,
      search ∙ ap (λ p. done (p, found) after) (lookup-remove_entry j key es sorted),
    )
