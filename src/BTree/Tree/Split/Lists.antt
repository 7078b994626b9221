-- ===== src/BTree/Tree/Split/Lists.antt =====
-- The temporary arrays of a split, as lists of entries.
use nu_ksm_pact21_artifact.Base.{
  ℕ, zero, suc, ◌+◌, ◌-◌, ◌≤◌, ◌<◌, ◌≡◌, refl, ap, ◌∙◌, inl, inr, List, [], ◌∷◌, ◌++◌, arith, ltb,
  Bool-cases, length, get_or, set, drop, get_or-set_self, get_or-set_ne,
}
use nu_ksm_pact21_artifact.BTree.Store.{Ptr}
use nu_ksm_pact21_artifact.BTree.Entries.Scan.{scan}
use nu_ksm_pact21_artifact.BTree.Entries.Leaf.{pairs, insert_entry}
use nu_ksm_pact21_artifact.BTree.Entries.Copy.{place, spreaded, length-spreaded, spreaded-inside}

-- The first `n` entries depend on the first `n` elements only.
pub pairs-same :
    (n : ℕ) (ks ks' : List ℕ) (ps ps' : List Ptr)
    → n ≤ length ks
    → n ≤ length ks'
    → n ≤ length ps
    → n ≤ length ps'
    → ((t : ℕ) → t < n → get_or ks t 0 ≡ get_or ks' t 0)
    → ((t : ℕ) → t < n → get_or ps t 0 ≡ get_or ps' t 0)
    → pairs n ks ps ≡ pairs n ks' ps'
unfolding pairs
pairs-same zero ks ks' ps ps' a a' b b' same same' = refl
pairs-same (suc n) [] ks' ps ps' a a' b b' same same' = absurd (omega arith)
pairs-same (suc n) (k ∷ ks) [] ps ps' a a' b b' same same' = absurd (omega arith)
pairs-same (suc n) (k ∷ ks) (k' ∷ ks') [] ps' a a' b b' same same' = absurd (omega arith)
pairs-same (suc n) (k ∷ ks) (k' ∷ ks') (p ∷ ps) [] a a' b b' same same' = absurd (omega arith)
pairs-same (suc n) (k ∷ ks) (k' ∷ ks') (p ∷ ps) (p' ∷ ps') a a' b b' same same' =
    let first : k ≡ k' = same 0 (omega arith) in
    let first' : p ≡ p' = same' 0 (omega arith) in
    let rest =
      pairs-same n ks ks' ps ps' (omega arith) (omega arith) (omega arith) (omega arith)
        (λ t h. same (suc t) (omega arith)) (λ t h. same' (suc t) (omega arith)) in
    rw (first, first', rest) refl

pub pairs-split :
    (a b : ℕ) (ks : List ℕ) (ps : List Ptr)
    → a + b ≤ length ks
    → a + b ≤ length ps
    → pairs (a + b) ks ps ≡ pairs a ks ps ++ pairs b (drop a ks) (drop a ps)
unfolding pairs
pairs-split zero b ks ps hk hp = let e : 0 + b ≡ b = omega arith in rw e refl
pairs-split (suc a) b [] ps hk hp = absurd (omega arith)
pairs-split (suc a) b (k ∷ ks) [] hk hp = absurd (omega arith)
pairs-split (suc a) b (k ∷ ks) (p ∷ ps) hk hp =
    let e : suc a + b ≡ suc (a + b) = omega arith in
    rw e (ap (λ l. (k, p) ∷ l) (pairs-split a b ks ps (omega arith) (omega arith)))

pub get_or-drop : (a t : ℕ) (xs : List ℕ) → get_or (drop a xs) t 0 ≡ get_or xs (a + t) 0
get_or-drop zero t xs = let e : 0 + t ≡ t = omega arith in rw e refl
get_or-drop (suc a) t [] = refl
get_or-drop (suc a) t (x ∷ xs) =
    let e : suc a + t ≡ suc (a + t) = omega arith in rw e (get_or-drop a t xs)

pub length-drop : (a : ℕ) (xs : List ℕ) → length (drop a xs) ≡ length xs - a
length-drop zero xs = omega arith
length-drop (suc a) [] = omega arith
length-drop (suc a) (x ∷ xs) = omega (arith, length-drop a xs)

-- `ys` is the first `n` elements of `xs` with `v` put in at `g`.
pub record Inserted (g v n : ℕ) (xs ys : List ℕ) : Type 0 where
  pub before : (t : ℕ) → t < g → get_or ys t 0 ≡ get_or xs t 0
  pub here : get_or ys g 0 ≡ v
  pub after : (t : ℕ) → g ≤ t → t < n → get_or ys (suc t) 0 ≡ get_or xs t 0

Inserted-tail :
    (g v n x y : ℕ) (xs ys : List ℕ)
    → Inserted (suc g) v (suc n) (x ∷ xs) (y ∷ ys)
    → Inserted g v n xs ys
Inserted-tail g v n x y xs ys i = record {
  before = λ t h. i.before (suc t) (omega arith);
  here = i.here;
  after = λ t le h. i.after (suc t) (omega arith) (omega arith);
}

pub pairs-Inserted :
    (key : ℕ) (r : Ptr) (n : ℕ) (ks ks' : List ℕ) (ps ps' : List Ptr)
    → n ≤ length ks
    → n ≤ length ps
    → n < length ks'
    → n < length ps'
    → let g = scan (λ k. ltb k key) n ks in
      Inserted g key n ks ks'
      → Inserted g r n ps ps'
      → pairs (suc n) ks' ps' ≡ insert_entry key r (pairs n ks ps)
unfolding pairs insert_entry scan
pairs-Inserted key r zero ks [] ps ps' a b a' b' i j = absurd (omega arith)
pairs-Inserted key r zero ks (k' ∷ ks') ps [] a b a' b' i j = absurd (omega arith)
pairs-Inserted key r zero ks (k' ∷ ks') ps (p' ∷ ps') a b a' b' i j =
    let first : k' ≡ key = i.here in let first' : p' ≡ r = j.here in rw (first, first') refl
pairs-Inserted key r (suc n) [] ks' ps ps' a b a' b' i j = absurd (omega arith)
pairs-Inserted key r (suc n) (k ∷ ks) [] ps ps' a b a' b' i j = absurd (omega arith)
pairs-Inserted key r (suc n) (k ∷ ks) (k' ∷ ks') [] ps' a b a' b' i j = absurd (omega arith)
pairs-Inserted key r (suc n) (k ∷ ks) (k' ∷ ks') (p ∷ ps) [] a b a' b' i j = absurd (omega arith)
pairs-Inserted key r (suc n) (k ∷ ks) (k' ∷ ks') (p ∷ ps) (p' ∷ ps') a b a' b' i j =
    elim (Bool-cases (ltb k key)) [
      | inl below ↦
          let i' = rw below at i in
          let j' = rw below at j in
          let first : k' ≡ k = i'.before 0 (omega arith) in
          let first' : p' ≡ p = j'.before 0 (omega arith) in
          let g = scan (λ k. ltb k key) n ks in
          let rest =
            pairs-Inserted key r n ks ks' ps ps' (omega arith) (omega arith) (omega arith)
              (omega arith) (Inserted-tail g key n k k' ks ks' i')
              (Inserted-tail g r n p p' ps ps' j') in
          rw (below, first, first') (ap (λ l. (k, p) ∷ l) rest)
      | inr above ↦
          let i' = rw above at i in
          let j' = rw above at j in
          let first : k' ≡ key = i'.here in
          let first' : p' ≡ r = j'.here in
          let rest =
            pairs-same (suc n) ks' (k ∷ ks) ps' (p ∷ ps) (omega arith) (omega arith) (omega arith)
              (omega arith) (λ t h. i'.after t (omega arith) h)
              (λ t h. j'.after t (omega arith) h) in
          rw (above, first, first') (ap (λ l. (key, r) ∷ l) rest)
    ]

-- The temporary array once the new element stands in the gap.
pub spreaded-Inserted :
    (g v n : ℕ) (xs temp : List ℕ)
    → g ≤ n
    → n < length temp
    → Inserted g v n xs (set (spreaded n xs g 0 temp) g v)
spreaded-Inserted g v n xs temp le room =
    let ys = spreaded n xs g 0 temp in
    let same = length-spreaded n xs g 0 temp in
    record {
      before = λ t h.
          let at_t : 0 + t ≡ t = omega arith in
          let stay : place g t ≡ t = ground arith in
          get_or-set_ne ys g t v 0 (λ e. absurd (omega arith))
          ∙ rw (at_t, stay) at (spreaded-inside n xs g 0 temp t (omega arith) (omega arith));
      here = get_or-set_self ys g v 0 (omega arith);
      after = λ t ge h.
          let at_t : 0 + t ≡ t = omega arith in
          let move : place g t ≡ suc t = ground arith in
          get_or-set_ne ys g (suc t) v 0 (λ e. absurd (omega arith))
          ∙ rw (at_t, move) at (spreaded-inside n xs g 0 temp t (omega arith) (omega arith));
    }
