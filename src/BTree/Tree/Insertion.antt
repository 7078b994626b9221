-- ===== src/BTree/Tree/Insertion.antt =====
-- `insert_into_leaf` on a leaf with room, and what a lookup finds after it.
use nu_ksm_pact21_artifact.Base.{
  ℕ, suc, ◌+◌, ◌-◌, ◌<◌, ◌≡◌, refl, sym, ap, ◌∙◌, true, false, inl, inr, List, [], ◌∷◌, arith, ltb,
  ◌==◌, if◌then◌else◌, Bool-cases,
}
use nu_ksm_pact21_artifact.BTree.Store.{Ptr, Node, Store, done, put}
use nu_ksm_pact21_artifact.BTree.Store.Laws.{Holds, put-Holds}
use nu_ksm_pact21_artifact.BTree.Find.{find}
use nu_ksm_pact21_artifact.BTree.Entries.{insert_into_leaf}
use nu_ksm_pact21_artifact.BTree.Entries.Scan.{scan, scan-le}
use nu_ksm_pact21_artifact.BTree.Entries.Shift.{length-gap}
use nu_ksm_pact21_artifact.BTree.Entries.Leaf.{
  entries, insert_entry, pairs-gap, HasRoom, leaf_with, insert_into_leaf-leaf_with,
}
use nu_ksm_pact21_artifact.BTree.Tree.{lookup, Leaf}
use nu_ksm_pact21_artifact.BTree.Tree.Search.{find-lookup}

-- An entry in the given order of keys: each key is smaller than the ones after it.
abbrev pub AllAbove : ℕ → List (ℕ × Ptr) → Type 0
AllAbove b [] = Unit
AllAbove b ((k, p) ∷ es) = (b < k) × AllAbove b es

abbrev pub IsSorted : List (ℕ × Ptr) → Type 0
IsSorted [] = Unit
IsSorted ((k, p) ∷ es) = AllAbove k es × IsSorted es

AllAbove-trans : (a b : ℕ) (es : List (ℕ × Ptr)) → a < b → AllAbove b es → AllAbove a es
AllAbove-trans a b [] h all = tt
AllAbove-trans a b ((k, p) ∷ es) h (x, all) = (omega arith, AllAbove-trans a b es h all)

-- A key that the list does not hold is looked up after its insertion; the other lookups stay.
pub lookup-insert_entry :
    (j key : ℕ) (r : Ptr) (es : List (ℕ × Ptr))
    → lookup j (insert_entry key r es) ≡ (if key == j then r else lookup j es)
unfolding lookup insert_entry
lookup-insert_entry j key r [] = refl
lookup-insert_entry j key r ((k, p) ∷ es) =
    let rest = lookup-insert_entry j key r es in
    elim (Bool-cases (ltb k key)) [
      | inl below ↦ rw below (ground (arith, rest))
      | inr above ↦ rw above refl
    ]

AllAbove-insert_entry :
    (b key : ℕ) (r : Ptr) (es : List (ℕ × Ptr))
    → b < key
    → AllAbove b es
    → AllAbove b (insert_entry key r es)
unfolding insert_entry
AllAbove-insert_entry b key r [] h all = (h, tt)
AllAbove-insert_entry b key r ((k, p) ∷ es) h (x, all) = elim (Bool-cases (ltb k key)) [
  | inl below ↦ rw below (x, AllAbove-insert_entry b key r es h all)
  | inr above ↦ rw above (h, (x, all))
]

-- The key is not among the entries.
abbrev pub IsNew : ℕ → List (ℕ × Ptr) → Type 0
IsNew key [] = Unit
IsNew key ((k, p) ∷ es) = ((k == key) ≡ false) × IsNew key es

pub insert_entry-IsSorted :
    (key : ℕ) (r : Ptr) (es : List (ℕ × Ptr))
    → IsNew key es
    → IsSorted es
    → IsSorted (insert_entry key r es)
unfolding insert_entry
insert_entry-IsSorted key r [] new sorted = (tt, tt)
insert_entry-IsSorted key r ((k, p) ∷ es) (ne, new) (all, sorted) = elim (Bool-cases (ltb k key)) [
  | inl below ↦ rw below (
    AllAbove-insert_entry k key r es (ground arith) all,
    insert_entry-IsSorted key r es new sorted,
  )
  | inr above ↦
      let less : key < k = ground arith in
      rw above ((less, AllAbove-trans key k es less all), (all, sorted))
]

pub leaf_with-Leaf :
    (key : ℕ) (r : Ptr) {s : Store} {leaf : Ptr} {n : Node}
    → Holds s leaf n
    → n.is_leaf ≡ true
    → HasRoom n
    → Leaf
        (put leaf (leaf_with key r n) s)
        leaf
        (insert_entry key r (entries n))
        (leaf_with key r n)
unfolding leaf_with
leaf_with-Leaf key r {s} {leaf} {n} h is_leaf room =
    let i = scan (λ k. ltb k key) n.num_keys n.keys in
    let m = n.num_keys - i in
    let inside = scan-le (λ k. ltb k key) n.num_keys n.keys in
    let ks = length-gap i m key n.keys (omega arith) in
    let ps = length-gap i m r n.pointers (omega arith) in
    let count : n.num_keys + 1 ≡ suc n.num_keys = omega arith in
    record {
      at = put-Holds s _ h.ne_null;
      is_leaf = is_leaf;
      keys = omega arith;
      pointers = omega arith;
      entries =
          rw count (sym (pairs-gap key r n.num_keys n.keys n.pointers (omega arith) (omega arith)));
    }

-- On a leaf with sorted entries and with room for one more key, pointer and count, `insert_into_leaf`
-- of a key that is new ends with a store that differs in this leaf only, and the leaf then has the
-- entries it had with the new one in its place in the order; they are sorted again.
pub insert_into_leaf-insert_entry :
    (key : ℕ) (r leaf : Ptr) (s : Store) (es : List (ℕ × Ptr)) (n : Node)
    → Leaf s leaf es n
    → HasRoom n
    → IsNew key es
    → IsSorted es
    → (m : Node) × (insert_into_leaf leaf key r s ≡ done leaf (put leaf m s))
      × Leaf (put leaf m s) leaf (insert_entry key r es) m
      × IsSorted (insert_entry key r es)
insert_into_leaf-insert_entry key r leaf s es n l room new sorted =
    let after : Leaf (put leaf (leaf_with key r n) s) leaf (insert_entry key r es)
        (leaf_with key r n) =
      rw l.entries (leaf_with-Leaf key r l.at l.is_leaf room) in
    (
      leaf_with key r n,
      insert_into_leaf-leaf_with key r l.at room,
      after,
      insert_entry-IsSorted key r es new sorted,
    )

-- After `insert_into_leaf` on a leaf with room that is the root of its tree, `find`, with any
-- positive fuel, returns the new pointer for the new key, and for every other key what the leaf's
-- entries held before; it changes nothing.
pub find-insert_into_leaf :
    (j key : ℕ) (r leaf : Ptr) (fuel : ℕ) (s : Store) (es : List (ℕ × Ptr)) (n : Node)
    → Leaf s leaf es n
    → HasRoom n
    → 0 < fuel
    → (after : Store) × (insert_into_leaf leaf key r s ≡ done leaf after)
      × (found : Ptr) × (find fuel leaf j after
          ≡ done (if key == j then r else lookup j es, found) after)
find-insert_into_leaf j key r leaf fuel s es n l room lt =
    let after : Leaf (put leaf (leaf_with key r n) s) leaf (insert_entry key r es)
        (leaf_with key r n) =
      rw l.entries (leaf_with-Leaf key r l.at l.is_leaf room) in
    let (found, part, m, at, run) =
      find-lookup j 0 fuel (put leaf (leaf_with key r n) s) leaf (insert_entry key r es)
        (leaf_with key r n, after) lt in
    (
      put leaf (leaf_with key r n) s,
      insert_into_leaf-leaf_with key r l.at room,
      found,
      run
          ∙ ap (λ p. done (p, found) (put leaf (leaf_with key r n) s))
              (lookup-insert_entry j key r es),
    )
