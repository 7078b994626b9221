-- ===== src/BTree/Shrink/Close.antt =====
-- The loops of `remove_entry_from_node`, as functions on lists.
use native.Mathlib.Numerals.{add-one}
use nu_ksm_pact21_artifact.Base.{
  ℕ, zero, suc, ◌+◌, ◌≤◌, ◌<◌, ◌≡◌, ◌∙◌, refl, ap, inl, inr, List, arith, ◌==◌, not, Bool-cases,
  length, get_or, set, drop, length-set,
}
use nu_ksm_pact21_artifact.BTree.Store.{Ptr, null, Node, Store, done, put}
use nu_ksm_pact21_artifact.BTree.Store.Laws.{
  Holds, put-Holds, put-put, put_self, get_key_lem, get_pointer_lem, set_key_lem, set_pointer_lem,
}
use nu_ksm_pact21_artifact.BTree.Entries.{clear_pointers}
use nu_ksm_pact21_artifact.BTree.Entries.Scan.{scan, drop-cons}
use nu_ksm_pact21_artifact.BTree.Shrink.{seek_key, seek_pointer, close_keys, close_pointers}

-- The array after the entries behind `lo` have moved one place down.
unfoldable pub closed : List ℕ → ℕ → ℕ → List ℕ
closed a lo zero = a
closed a lo (suc rounds) = closed (set a lo (get_or a (lo + 1) 0)) (lo + 1) rounds

unfoldable pub cleared : List ℕ → ℕ → ℕ → List ℕ
cleared a lo zero = a
cleared a lo (suc rounds) = cleared (set a lo null) (lo + 1) rounds

pub length-closed : (rounds lo : ℕ) (a : List ℕ) → length (closed a lo rounds) ≡ length a
unfolding closed
length-closed zero lo a = refl
length-closed (suc r) lo a =
    length-closed r (lo + 1) (set a lo (get_or a (lo + 1) 0))
    ∙ length-set a lo (get_or a (lo + 1) 0)

pub length-cleared : (rounds lo : ℕ) (a : List ℕ) → length (cleared a lo rounds) ≡ length a
unfolding cleared
length-cleared zero lo a = refl
length-cleared (suc r) lo a = length-cleared r (lo + 1) (set a lo null) ∙ length-set a lo null

pub close_keys-closed :
    (rounds lo : ℕ) {s : Store} {p : Ptr} {n : Node}
    → Holds s p n
    → lo + rounds < length n.keys
    → close_keys rounds p lo s ≡ done tt (put p (record n { keys = closed n.keys lo rounds }) s)
unfolding close_keys closed
close_keys-closed zero lo {s} h b = rw (put_self h) refl
close_keys-closed (suc r) lo {s} {p} {n} h b =
    let v = get_or n.keys (lo + 1) 0 in
    let m = record n { keys = set n.keys lo v } in
    let same = length-set n.keys lo v in
    rw (
      get_key_lem h (lo + 1) (omega arith),
      set_key_lem h lo v (omega arith),
      close_keys-closed r (lo + 1) (put-Holds s m h.ne_null) (omega arith),
      put-put,
    )

pub close_pointers-closed :
    (rounds lo : ℕ) {s : Store} {p : Ptr} {n : Node}
    → Holds s p n
    → lo + rounds < length n.pointers
    → close_pointers rounds p lo s
      ≡ done tt (put p (record n { pointers = closed n.pointers lo rounds }) s)
unfolding close_pointers closed
close_pointers-closed zero lo {s} h b = rw (put_self h) refl
close_pointers-closed (suc r) lo {s} {p} {n} h b =
    let v = get_or n.pointers (lo + 1) 0 in
    let m = record n { pointers = set n.pointers lo v } in
    let same = length-set n.pointers lo v in
    rw (
      get_pointer_lem h (lo + 1) (omega arith),
      set_pointer_lem h lo v (omega arith),
      close_pointers-closed r (lo + 1) (put-Holds s m h.ne_null) (omega arith),
      put-put,
    )

pub clear_pointers-cleared :
    (rounds lo : ℕ) {s : Store} {p : Ptr} {n : Node}
    → Holds s p n
    → lo + rounds ≤ length n.pointers
    → clear_pointers rounds p lo s
      ≡ done tt (put p (record n { pointers = cleared n.pointers lo rounds }) s)
unfolding clear_pointers cleared
clear_pointers-cleared zero lo {s} h b = rw (put_self h) refl
clear_pointers-cleared (suc r) lo {s} {p} {n} h b =
    let m = record n { pointers = set n.pointers lo null } in
    let same = length-set n.pointers lo null in
    rw (
      set_pointer_lem h lo null (omega arith),
      clear_pointers-cleared r (lo + 1) (put-Holds s m h.ne_null) (omega arith),
      put-put,
    )

pub seek_key-scan :
    (m rounds j key : ℕ) {s : Store} {p : Ptr} {n : Node}
    → Holds s p n
    → j + m ≤ length n.keys
    → m < rounds
    → let i = scan (λ k. not (k == key)) m (drop j n.keys) in
      i < m → seek_key rounds p key j s ≡ done (j + i) s
unfolding seek_key scan
seek_key-scan zero rounds j key h b lt inside = absurd (omega arith)
seek_key-scan (suc m) zero j key h b lt inside = absurd (omega arith)
seek_key-scan (suc m) (suc r) j key {s} {p} {n} h b lt inside =
    let k = get_or n.keys j 0 in
    let first = rw (drop-cons j n.keys (omega arith)) at inside in
    rw (get_key_lem h j (omega arith), drop-cons j n.keys (omega arith))
      (elim (Bool-cases (k == key)) [
        | inl hit ↦ rw hit (ap (λ i. done i s) (omega arith))
        | inr miss ↦
            let rest = rw miss at first in
            let tail : scan (λ k. not (k == key)) m (drop (j + 1) n.keys) < m =
              rw add-one (omega arith) in
            rw (miss, seek_key-scan m r (j + 1) key h (omega arith) (omega arith) tail, add-one)
              (ap (λ i. done i s) (omega arith))
      ])

pub seek_pointer-scan :
    (m rounds j pointer : ℕ) {s : Store} {p : Ptr} {n : Node}
    → Holds s p n
    → j + m ≤ length n.pointers
    → m < rounds
    → let i = scan (λ q. not (q == pointer)) m (drop j n.pointers) in
      i < m → seek_pointer rounds p pointer j s ≡ done (j + i) s
unfolding seek_pointer scan
seek_pointer-scan zero rounds j pointer h b lt inside = absurd (omega arith)
seek_pointer-scan (suc m) zero j pointer h b lt inside = absurd (omega arith)
seek_pointer-scan (suc m) (suc r) j pointer {s} {p} {n} h b lt inside =
    let q = get_or n.pointers j 0 in
    let first = rw (drop-cons j n.pointers (omega arith)) at inside in
    rw (get_pointer_lem h j (omega arith), drop-cons j n.pointers (omega arith))
      (elim (Bool-cases (q == pointer)) [
        | inl hit ↦ rw hit (ap (λ i. done i s) (omega arith))
        | inr miss ↦
            let rest = rw miss at first in
            let tail : scan (λ q. not (q == pointer)) m (drop (j + 1) n.pointers) < m =
              rw add-one (omega arith) in
            rw
              (
                miss,
                seek_pointer-scan m r (j + 1) pointer h (omega arith) (omega arith) tail,
                add-one,
              )
              (ap (λ i. done i s) (omega arith))
      ])
