-- ===== src/BTree/Tree/Range/Lists.antt =====
-- The range of keys of `find_range` on lists of entries.
use nu_ksm_pact21_artifact.Base.{
  ℕ, zero, suc, ◌-◌, ◌≤◌, ◌≡◌, ◌≢◌, refl, sym, ap, false, inl, inr, List, [], ◌∷◌, ◌++◌, arith, leb,
  ltb, if◌then◌else◌, Bool-cases, length, drop,
}
use nu_ksm_pact21_artifact.BTree.Store.{Ptr}
use nu_ksm_pact21_artifact.BTree.Entries.Scan.{scan}
use nu_ksm_pact21_artifact.BTree.Entries.Leaf.{pairs}
use nu_ksm_pact21_artifact.BTree.Tree.{AllBelow}
use nu_ksm_pact21_artifact.BTree.Tree.Insertion.{AllAbove, IsSorted}

pub scan-AllBelow :
    (b n : ℕ) (ks : List ℕ) (ps : List Ptr)
    → n ≤ length ks
    → n ≤ length ps
    → AllBelow b (pairs n ks ps)
    → scan (λ k. ltb k b) n ks ≡ n
unfolding pairs scan
scan-AllBelow b zero ks ps hk hp all = refl
scan-AllBelow b (suc n) [] ps hk hp all = absurd (omega arith)
scan-AllBelow b (suc n) (k ∷ ks) [] hk hp all = absurd (omega arith)
scan-AllBelow b (suc n) (k ∷ ks) (p ∷ ps) hk hp (lt, all) =
    let rest = scan-AllBelow b n ks ps (omega arith) (omega arith) all in ground arith

-- The entries up to the first key above the bound.
unfoldable pub up_to : ℕ → List (ℕ × Ptr) → List (ℕ × Ptr)
up_to key_end [] = []
up_to key_end ((k, p) ∷ es) = if leb k key_end then (k, p) ∷ up_to key_end es else []

-- The entries with keys up to the bound, and the entries from the first key that is not below one.
unfoldable pub at_most : ℕ → List (ℕ × Ptr) → List (ℕ × Ptr)
at_most key_end [] = []
at_most key_end ((k, p) ∷ es) =
    if leb k key_end then (k, p) ∷ at_most key_end es else at_most key_end es

unfoldable pub from_key : ℕ → List (ℕ × Ptr) → List (ℕ × Ptr)
from_key key_start [] = []
from_key key_start ((k, p) ∷ es) = if ltb k key_start then from_key key_start es else (k, p) ∷ es

abbrev pub joined : List (List (ℕ × Ptr)) → List (ℕ × Ptr)
joined [] = []
joined (es ∷ parts) = es ++ joined parts

at_most-AllAbove :
    (b k : ℕ) (es : List (ℕ × Ptr)) → leb k b ≡ false → AllAbove k es → at_most b es ≡ []
unfolding at_most
at_most-AllAbove b k [] h all = refl
at_most-AllAbove b k ((j, p) ∷ es) h (lt, all) =
    let rest = at_most-AllAbove b k es h all in
    let off : leb j b ≡ false = ground arith in rw off rest

pub up_to-at_most : (b : ℕ) (es : List (ℕ × Ptr)) → IsSorted es → up_to b es ≡ at_most b es
unfolding up_to at_most
up_to-at_most b [] sorted = refl
up_to-at_most b ((k, p) ∷ es) (all, sorted) = elim (Bool-cases (leb k b)) [
  | inl on ↦ rw on (ap (λ l. (k, p) ∷ l) (up_to-at_most b es sorted))
  | inr off ↦ rw off (sym (at_most-AllAbove b k es off all))
]

pub at_most-append :
    (b : ℕ) (es fs : List (ℕ × Ptr)) → at_most b (es ++ fs) ≡ at_most b es ++ at_most b fs
unfolding at_most
at_most-append b [] fs = refl
at_most-append b ((k, p) ∷ es) fs = elim (Bool-cases (leb k b)) [
  | inl on ↦ rw on (ap (λ l. (k, p) ∷ l) (at_most-append b es fs))
  | inr off ↦ rw off (at_most-append b es fs)
]

pub from_key-IsSorted : (b : ℕ) (es : List (ℕ × Ptr)) → IsSorted es → IsSorted (from_key b es)
unfolding from_key
from_key-IsSorted b [] sorted = sorted
from_key-IsSorted b ((k, p) ∷ es) (all, sorted) = elim (Bool-cases (ltb k b)) [
  | inl below ↦ rw below (from_key-IsSorted b es sorted)
  | inr above ↦ rw above (all, sorted)
]

pub from_key-append :
    (b : ℕ) (es fs : List (ℕ × Ptr))
    → from_key b es ≢ []
    → from_key b (es ++ fs) ≡ from_key b es ++ fs
unfolding from_key
from_key-append b [] fs ne = absurd (ne refl)
from_key-append b ((k, p) ∷ es) fs ne = elim (Bool-cases (ltb k b)) [
  | inl below ↦ rw below (from_key-append b es fs (λ e. ne (rw below e)))
  | inr above ↦ rw above refl
]

pub pairs-from_key :
    (b n : ℕ) (ks : List ℕ) (ps : List Ptr)
    → n ≤ length ks
    → n ≤ length ps
    → let i = scan (λ k. ltb k b) n ks in
      pairs (n - i) (drop i ks) (drop i ps) ≡ from_key b (pairs n ks ps)
unfolding pairs scan from_key
pairs-from_key b zero ks ps hk hp = refl
pairs-from_key b (suc n) [] ps hk hp = absurd (omega arith)
pairs-from_key b (suc n) (k ∷ ks) [] hk hp = absurd (omega arith)
pairs-from_key b (suc n) (k ∷ ks) (p ∷ ps) hk hp = elim (Bool-cases (ltb k b)) [
  | inl below ↦
      let less : suc n - suc (scan (λ j. ltb j b) n ks) ≡ n - scan (λ j. ltb j b) n ks =
        omega arith in
      rw (below, less) (pairs-from_key b n ks ps (omega arith) (omega arith))
  | inr above ↦ let all : suc n - 0 ≡ suc n = omega arith in rw (above, all) refl
]
