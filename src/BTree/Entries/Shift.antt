-- ===== src/BTree/Entries/Shift.antt =====
-- The loops that open a gap in a node's arrays, as functions on lists.
use nu_ksm_pact21_artifact.Base.{
  ℕ, zero, suc, ◌+◌, ◌<◌, ◌≡◌, refl, sym, ap, ◌∙◌, List, [], ◌∷◌, ◌++◌, arith, length, get_or, set,
  take, drop, length-set,
}
use native.Mathlib.Nat.{zero-add, suc-add}
use native.Mathlib.Numerals.{add-one}
use nu_ksm_pact21_artifact.BTree.Store.{Ptr, Node, Store, done, put}
use nu_ksm_pact21_artifact.BTree.Store.Laws.{
  Holds, put-Holds, put_self, put-put, get_key_lem, get_pointer_lem, set_key_lem, set_pointer_lem,
}
use nu_ksm_pact21_artifact.BTree.Entries.{shift_entries}

-- The `rounds` elements from `lo` on move one place up; the place `lo` keeps its element.
unfoldable pub shifted : List ℕ → ℕ → ℕ → List ℕ
shifted a lo zero = a
shifted a lo (suc rounds) = shifted (set a (lo + rounds + 1) (get_or a (lo + rounds) 0)) lo rounds

pub length-shifted : (a : List ℕ) (lo rounds : ℕ) → length (shifted a lo rounds) ≡ length a
unfolding shifted
length-shifted a lo zero = refl
length-shifted a lo (suc rounds) =
    length-shifted (set a (lo + rounds + 1) (get_or a (lo + rounds) 0)) lo rounds
    ∙ length-set a (lo + rounds + 1) (get_or a (lo + rounds) 0)

pub shift_entries-shifted :
    (rounds lo : ℕ) {s : Store} {p : Ptr} {n : Node}
    → Holds s p n
    → lo + rounds < length n.keys
    → lo + rounds < length n.pointers
    → shift_entries p lo rounds s
      ≡ done tt (
          put p
            (record n { keys = shifted n.keys lo rounds; pointers = shifted n.pointers lo rounds })
            s)
unfolding shift_entries shifted
shift_entries-shifted zero lo h bk bp = ap (done tt) (sym (put_self h))
shift_entries-shifted (suc r) lo {s} {p} {n} h bk bp =
    let k = get_or n.keys (lo + r) 0 in
    let n1 = record n { keys = set n.keys (lo + r + 1) k } in
    let h1 = put-Holds s n1 h.ne_null in
    let q = get_or n.pointers (lo + r) 0 in
    let n2 = record n1 { pointers = set n.pointers (lo + r + 1) q } in
    let h2 = put-Holds (put p n1 s) n2 h.ne_null in
    rw (
      get_key_lem h (lo + r) (omega arith),
      set_key_lem h (lo + r + 1) k (omega arith),
      get_pointer_lem h1 (lo + r) (omega arith),
      set_pointer_lem h1 (lo + r + 1) q (omega arith),
      shift_entries-shifted r lo h2 (omega (arith, length-set n.keys (lo + r + 1) k))
          (omega (arith, length-set n.pointers (lo + r + 1) q)),
      put-put,
      put-put,
    )

-- `a` with `v` put in at `lo`, the `rounds` elements from there on moved up, and the next one lost.
unfoldable pub gap : ℕ → ℕ → ℕ → List ℕ → List ℕ
gap zero rounds v a = v ∷ (take rounds a ++ drop (suc rounds) a)
gap (suc lo) rounds v [] = []
gap (suc lo) rounds v (x ∷ a) = x ∷ gap lo rounds v a

one_up :
    (r : ℕ) (a : List ℕ)
    → suc r < length a
    → take r (set a (suc r) (get_or a r 0)) ++ drop (suc r) (set a (suc r) (get_or a r 0))
      ≡ take (suc r) a ++ drop (suc (suc r)) a
one_up zero [] h = absurd (omega arith)
one_up zero (x ∷ []) h = absurd (omega arith)
one_up zero (x ∷ y ∷ a) h = refl
one_up (suc r) [] h = absurd (omega arith)
one_up (suc r) (x ∷ a) h = ap (λ l. x ∷ l) (one_up r a (omega arith))

shifted-cons : (r lo x : ℕ) (a : List ℕ) → shifted (x ∷ a) (suc lo) r ≡ x ∷ shifted a lo r
unfolding shifted
shifted-cons zero lo x a = refl
shifted-cons (suc r) lo x a =
    rw (suc-add, suc-add) (shifted-cons r lo x (set a (lo + r + 1) (get_or a (lo + r) 0)))

set-shifted-zero :
    (r v : ℕ) (a : List ℕ)
    → r < length a
    → set (shifted a 0 r) 0 v ≡ v ∷ (take r a ++ drop (suc r) a)
unfolding shifted
set-shifted-zero zero v [] h = absurd (omega arith)
set-shifted-zero zero v (x ∷ a) h = refl
set-shifted-zero (suc r) v a h =
    rw (zero-add, add-one)
      (set-shifted-zero r v (set a (suc r) (get_or a r 0))
          (omega (arith, length-set a (suc r) (get_or a r 0)))
        ∙ ap (λ l. v ∷ l) (one_up r a h))

pub set-shifted :
    (lo r v : ℕ) (a : List ℕ) → lo + r < length a → set (shifted a lo r) lo v ≡ gap lo r v a
unfolding gap
set-shifted zero r v a h = set-shifted-zero r v a (omega arith)
set-shifted (suc lo) r v [] h = absurd (omega arith)
set-shifted (suc lo) r v (x ∷ a) h =
    rw (shifted-cons r lo x a) (ap (λ l. x ∷ l) (set-shifted lo r v a (omega arith)))

pub length-gap : (lo r v : ℕ) (a : List ℕ) → lo + r < length a → length (gap lo r v a) ≡ length a
length-gap lo r v a h =
    ap length (sym (set-shifted lo r v a h))
    ∙ length-set (shifted a lo r) lo v
    ∙ length-shifted a lo r
