-- ===== src/BTree/Map/Filled.antt =====
-- The tree that the loop of benchmarks/btree/btree.c fills with few keys, and what lookups in it find.
use nu_ksm_pact21_artifact.Base.{
  ℕ, zero, suc, ◌+◌, ◌-◌, ◌/◌, ◌%◌, ◌≡◌, none, some, List, [], ◌∷◌, ltb, ◌==◌, if◌then◌else◌,
}
use nu_ksm_pact21_artifact.BTree.Store.{Ptr, Store, done}
use nu_ksm_pact21_artifact.BTree.Find.{find}
use nu_ksm_pact21_artifact.BTree.Workload.{element_at}
use nu_ksm_pact21_artifact.BTree.Map.{Contents, HasValue}
use nu_ksm_pact21_artifact.BTree.Map.Initial.{Initial}

-- The insertions of the loop as a list.
unfoldable items : Ptr → Ptr → ℕ → ℕ → ℕ → List (ℕ × ℕ)
items elms elms2 n i zero = []
items elms elms2 n i (suc rounds) =
    (i, element_at elms (i / 2))
    ∷ (n - i - 1, element_at elms2 (i / 2))
    ∷ items elms elms2 n (i + 2) rounds

-- The element of a key: of `elms` in order for the even ones, of `elms2` in the reverse order for the
-- odd ones.
unfoldable pub element_for : Ptr → Ptr → ℕ → ℕ → Ptr
element_for elms elms2 n j =
    if j % 2 == 0 then element_at elms (j / 2) else element_at elms2 ((n - 1 - j) / 2)

-- The map that the loop is to leave.
unfoldable pub filled : Ptr → Ptr → ℕ → Contents
filled elms elms2 n j = if ltb j n then some (element_for elms elms2 n j) else none

-- What `find` answers for every key.
abbrev pub Answers : ℕ → Store → Ptr → Contents → Type 0
Answers fuel s root m =
    (j : ℕ)
    → (p : Ptr) × (leaf : Ptr) × (find fuel root j s ≡ done (p, leaf) s)
      × HasValue s.records p (m j)
