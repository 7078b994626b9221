-- ===== src/BTree/Entries/Scan.antt =====
-- The search loops over a node's arrays, as functions on lists.
use nu_ksm_pact21_artifact.Base.{
  ℕ, zero, suc, ◌+◌, ◌≤◌, ◌<◌, ◌≡◌, refl, ap, Bool, inl, inr, List, [], ◌∷◌, arith, if◌then◌else◌,
  Bool-cases, length, get_or, drop,
}
use native.Mathlib.Nat.{zero-add}
use native.Mathlib.Numerals.{add-one}
use nu_ksm_pact21_artifact.BTree.Store.{Ptr, Node, Store, done}
use nu_ksm_pact21_artifact.BTree.Store.Laws.{Holds, get_key_lem}
use nu_ksm_pact21_artifact.BTree.Find.{scan_keys}

-- How many of the first `n` keys the loop passes.
unfoldable pub scan : (ℕ → Bool) → ℕ → List ℕ → ℕ
scan go_on zero ks = 0
scan go_on (suc n) [] = 0
scan go_on (suc n) (k ∷ ks) = if go_on k then suc (scan go_on n ks) else 0

pub scan-le : (go_on : ℕ → Bool) (n : ℕ) (ks : List ℕ) → scan go_on n ks ≤ n
unfolding scan
scan-le go_on zero ks = omega arith
scan-le go_on (suc n) [] = omega arith
scan-le go_on (suc n) (k ∷ ks) = ground (arith, scan-le go_on n ks)

pub drop-cons : (i : ℕ) (a : List ℕ) → i < length a → drop i a ≡ get_or a i 0 ∷ drop (suc i) a
drop-cons i [] h = absurd (omega arith)
drop-cons zero (x ∷ a) h = refl
drop-cons (suc i) (x ∷ a) h = drop-cons i a (omega arith)

pub scan_keys-scan :
    (go_on : ℕ → Bool) (rounds i : ℕ) {s : Store} {p : Ptr} {n : Node}
    → Holds s p n
    → i + rounds ≤ length n.keys
    → scan_keys go_on rounds p i s ≡ done (i + scan go_on rounds (drop i n.keys)) s
unfolding scan_keys scan
scan_keys-scan go_on zero i {s} h b = ap (λ k. done k s) (omega arith)
scan_keys-scan go_on (suc r) i {s} {p} {n} h b =
    let k = get_or n.keys i 0 in
    rw (get_key_lem h i (omega arith), drop-cons i n.keys (omega arith))
      (elim (Bool-cases (go_on k)) [
        | inl on ↦
            rw (on, scan_keys-scan go_on r (i + 1) h (omega arith), add-one)
              (ap (λ k. done k s) (omega arith))
        | inr off ↦ rw off (ap (λ k. done k s) (omega arith))
      ])

pub scan_keys_lem :
    (go_on : ℕ → Bool) {s : Store} {p : Ptr} {n : Node}
    → Holds s p n
    → n.num_keys ≤ length n.keys
    → scan_keys go_on n.num_keys p 0 s ≡ done (scan go_on n.num_keys n.keys) s
scan_keys_lem go_on {n} h b = rw (scan_keys-scan go_on n.num_keys 0 h (omega arith), zero-add)
