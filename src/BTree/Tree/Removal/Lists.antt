-- ===== src/BTree/Tree/Removal/Lists.antt =====
-- Entries of a leaf under the loops of `remove_entry_from_node`: what the arrays spell after the moves,
-- and where the searches stop.
use nu_ksm_pact21_artifact.Base.{
  ℕ, zero, suc, ◌+◌, ◌≤◌, ◌<◌, ◌≡◌, ◌∙◌, refl, ap, false, List, [], ◌∷◌, ◌++◌, arith, ◌==◌, not,
  length, get_or, set,
}
use nu_ksm_pact21_artifact.BTree.Store.{Ptr, null}
use nu_ksm_pact21_artifact.BTree.Entries.Scan.{scan}
use nu_ksm_pact21_artifact.BTree.Entries.Leaf.{pairs}
use nu_ksm_pact21_artifact.BTree.Shrink.Close.{closed, cleared}
use nu_ksm_pact21_artifact.BTree.Tree.Insertion.{IsNew}

-- The pointer is not among those of the entries.
abbrev pub IsNewPtr : Ptr → List (ℕ × Ptr) → Type 0
IsNewPtr r [] = Unit
IsNewPtr r ((k, p) ∷ es) = ((p == r) ≡ false) × IsNewPtr r es

unfoldable pub remove_at : ℕ → List (ℕ × Ptr) → List (ℕ × Ptr)
remove_at i [] = []
remove_at zero (e ∷ es) = es
remove_at (suc i) (e ∷ es) = e ∷ remove_at i es

pub remove_at-append :
    (before after : List (ℕ × Ptr)) (e : ℕ × Ptr)
    → remove_at (length before) (before ++ (e ∷ after)) ≡ before ++ after
unfolding remove_at
remove_at-append [] after e = refl
remove_at-append (b ∷ before) after e = ap (λ l. b ∷ l) (remove_at-append before after e)

closed-cons :
    (rounds lo x : ℕ) (a : List ℕ) → closed (x ∷ a) (suc lo) rounds ≡ x ∷ closed a lo rounds
unfolding closed
closed-cons zero lo x a = refl
closed-cons (suc r) lo x a =
    let next : suc lo + 1 ≡ suc (lo + 1) = omega arith in
    rw next (closed-cons r (lo + 1) x (set a lo (get_or a (lo + 1) 0)))

closed-front :
    (rounds x y : ℕ) (a : List ℕ) → closed (x ∷ y ∷ a) 0 (suc rounds) ≡ y ∷ closed (y ∷ a) 0 rounds
unfolding closed
closed-front rounds x y a =
    let one : 0 + 1 ≡ 1 = omega arith in rw one (closed-cons rounds 0 y (y ∷ a))

pairs-closed_front :
    (m k p : ℕ) (ks : List ℕ) (ps : List Ptr)
    → m ≤ length ks
    → m ≤ length ps
    → pairs m (closed (k ∷ ks) 0 m) (closed (p ∷ ps) 0 m) ≡ pairs m ks ps
unfolding pairs
pairs-closed_front zero k p ks ps hk hp = refl
pairs-closed_front (suc m) k p [] ps hk hp = absurd (omega arith)
pairs-closed_front (suc m) k p (j ∷ ks) [] hk hp = absurd (omega arith)
pairs-closed_front (suc m) k p (j ∷ ks) (q ∷ ps) hk hp =
    rw (closed-front m k j ks, closed-front m p q ps)
      (ap (λ l. (j, q) ∷ l) (pairs-closed_front m j q ks ps (omega arith) (omega arith)))

pub pairs-closed :
    (i m : ℕ) (ks : List ℕ) (ps : List Ptr)
    → i + m < length ks
    → i + m < length ps
    → pairs (i + m) (closed ks i m) (closed ps i m) ≡ remove_at i (pairs (suc (i + m)) ks ps)
unfolding pairs remove_at
pairs-closed i m [] ps hk hp = absurd (omega arith)
pairs-closed i m (k ∷ ks) [] hk hp = absurd (omega arith)
pairs-closed zero m (k ∷ ks) (p ∷ ps) hk hp =
    let none : 0 + m ≡ m = omega arith in
    rw none (pairs-closed_front m k p ks ps (omega arith) (omega arith))
pairs-closed (suc i) m (k ∷ ks) (p ∷ ps) hk hp =
    let next : suc i + m ≡ suc (i + m) = omega arith in
    rw (next, closed-cons m i k ks, closed-cons m i p ps)
      (ap (λ l. (k, p) ∷ l) (pairs-closed i m ks ps (omega arith) (omega arith)))

pub pairs-set :
    (n lo v : ℕ) (ks : List ℕ) (ps : List Ptr) → n ≤ lo → pairs n ks (set ps lo v) ≡ pairs n ks ps
unfolding pairs
pairs-set zero lo v ks ps h = refl
pairs-set (suc n) lo v [] ps h = refl
pairs-set (suc n) lo v (k ∷ ks) [] h = refl
pairs-set (suc n) zero v (k ∷ ks) (p ∷ ps) h = absurd (omega arith)
pairs-set (suc n) (suc lo) v (k ∷ ks) (p ∷ ps) h =
    ap (λ l. (k, p) ∷ l) (pairs-set n lo v ks ps (omega arith))

pub pairs-cleared :
    (rounds n lo : ℕ) (ks : List ℕ) (ps : List Ptr)
    → n ≤ lo
    → pairs n ks (cleared ps lo rounds) ≡ pairs n ks ps
unfolding cleared
pairs-cleared zero n lo ks ps h = refl
pairs-cleared (suc r) n lo ks ps h =
    pairs-cleared r n (lo + 1) ks (set ps lo null) (omega arith) ∙ pairs-set n lo null ks ps h

cons_inv :
    (k j : ℕ) (p q : Ptr) (es fs : List (ℕ × Ptr))
    → ◌≡◌ {A = List (ℕ × Ptr)} ((k, p) ∷ es) ((j, q) ∷ fs)
    → (k ≡ j) × (p ≡ q) × (es ≡ fs)
cons_inv k j p q es fs e = (cc, cc, cc)

nil_ne_append :
    (before after : List (ℕ × Ptr)) (e : ℕ × Ptr)
    → ¬ (◌≡◌ {A = List (ℕ × Ptr)} [] (before ++ (e ∷ after)))
nil_ne_append [] after e h = cc
nil_ne_append (b ∷ before) after e h = cc

-- Where the two searches stop.
pub pairs-scan :
    (n key : ℕ) (r : Ptr) (ks : List ℕ) (ps : List Ptr) (before after : List (ℕ × Ptr))
    → pairs n ks ps ≡ before ++ ((key, r) ∷ after)
    → IsNew key before
    → IsNewPtr r before
    → (scan (λ k. not (k == key)) n ks ≡ length before)
      × (scan (λ q. not (q == r)) n ps ≡ length before)
      × (length before < n)
unfolding pairs scan
pairs-scan zero key r ks ps before after e new newp = absurd (nil_ne_append before after (key, r) e)
pairs-scan (suc n) key r [] ps before after e new newp =
    absurd (nil_ne_append before after (key, r) e)
pairs-scan (suc n) key r (k ∷ ks) [] before after e new newp =
    absurd (nil_ne_append before after (key, r) e)
pairs-scan (suc n) key r (k ∷ ks) (p ∷ ps) [] after e new newp =
    let (same_key, same_ptr, rest) = cons_inv k key p r (pairs n ks ps) after e in
    (ground arith, ground arith, omega arith)
pairs-scan (suc n) key r (k ∷ ks) (p ∷ ps) ((j, q) ∷ before) after e (ne, new) (nep, newp) =
    let (same_key, same_ptr, rest) = cons_inv k j p q (pairs n ks ps) _ e in
    let (keys, ptrs, inside) = pairs-scan n key r ks ps before after rest new newp in
    rw (same_key, same_ptr, ne, nep) (ap suc keys, ap suc ptrs, omega arith)
