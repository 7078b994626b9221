-- ===== src/BTree/Tree/Linked/Arrays.antt =====
-- The arrays of an internal node against its first pointer and the rest.
use nu_ksm_pact21_artifact.Base.{
  ℕ, zero, suc, ◌-◌, ◌≤◌, ◌<◌, ◌≡◌, ◌≢◌, refl, sym, ap, ◌∙◌, inl, inr, true, false, List, [], ◌∷◌,
  arith, leb, not, ◌==◌, Bool-cases, length, get_or, take, drop,
}
use nu_ksm_pact21_artifact.BTree.Store.{Ptr}
use nu_ksm_pact21_artifact.BTree.Entries.Scan.{scan}
use nu_ksm_pact21_artifact.BTree.Entries.Leaf.{pairs}
use nu_ksm_pact21_artifact.BTree.Tree.Split.Lists.{Inserted, pairs-same}
use nu_ksm_pact21_artifact.BTree.Tree.Nest.{key_at, pointer_at}
use nu_ksm_pact21_artifact.BTree.Tree.Nest.Focus.{passed, splice, pointers_of}

pub scan-passed :
    (key m : ℕ) (ks : List ℕ) (ps : List Ptr)
    → m ≤ length ks
    → m ≤ length ps
    → scan (λ k. leb k key) m ks ≡ passed key (pairs m ks ps)
unfolding scan passed pairs
scan-passed key zero ks ps hk hp = refl
scan-passed key (suc m) [] ps hk hp = absurd (omega arith)
scan-passed key (suc m) (k ∷ ks) [] hk hp = absurd (omega arith)
scan-passed key (suc m) (k ∷ ks) (p ∷ ps) hk hp = elim (Bool-cases (leb k key)) [
  | inl on ↦ rw on (ap suc (scan-passed key m ks ps (omega arith) (omega arith)))
  | inr off ↦ rw off refl
]

pub pointers-pairs :
    (m : ℕ) (ks : List ℕ) (ps : List Ptr) (t : ℕ)
    → m ≤ length ks
    → m < length ps
    → t ≤ m
    → get_or (get_or ps 0 0 ∷ pointers_of (pairs m ks (drop 1 ps))) t 0 ≡ get_or ps t 0
unfolding pairs
pointers-pairs m ks [] t hk hp h = absurd (omega arith)
pointers-pairs m ks (p ∷ ps) zero hk hp h = refl
pointers-pairs zero ks (p ∷ ps) (suc t) hk hp h = absurd (omega arith)
pointers-pairs (suc m) [] (p ∷ ps) (suc t) hk hp h = absurd (omega arith)
pointers-pairs (suc m) (k ∷ ks) (p ∷ []) (suc t) hk hp h = absurd (omega arith)
pointers-pairs (suc m) (k ∷ ks) (p ∷ q ∷ ps) (suc t) hk hp h =
    pointers-pairs m ks (q ∷ ps) t (omega arith) (omega arith) (omega arith)

-- The search for a pointer stops where it stands first.
pub scan_pointer :
    (n : ℕ) (ps : List Ptr) (g : ℕ) (c : Ptr)
    → n ≤ length ps
    → g < n
    → get_or ps g 0 ≡ c
    → ((t : ℕ) → t < g → get_or ps t 0 ≢ c)
    → scan (λ q. not (q == c)) n ps ≡ g
unfolding scan
scan_pointer zero ps g c b h here before = absurd (omega arith)
scan_pointer (suc n) [] g c b h here before = absurd (omega arith)
scan_pointer (suc n) (p ∷ ps) zero c b h here before =
    let hit : (p == c) ≡ true = ground arith in rw hit refl
scan_pointer (suc n) (p ∷ ps) (suc g) c b h here before =
    let ne = before 0 (omega arith) in
    let miss : (p == c) ≡ false = ground arith in
    rw miss (
      ap suc (
        scan_pointer n ps g c (omega arith) (omega arith) here
          (λ t lt. before (suc t) (omega arith))))

-- A key and a pointer put in at `g` are an element of the rest put in there.
pub pairs-splice :
    (g k : ℕ) (p : Ptr) (n : ℕ) (ks ks' : List ℕ) (ps ps' : List Ptr)
    → g ≤ n
    → n ≤ length ks
    → n ≤ length ps
    → n < length ks'
    → n < length ps'
    → Inserted g k n ks ks'
    → Inserted g p n ps ps'
    → pairs (suc n) ks' ps' ≡ splice g ((k, p) ∷ []) (pairs n ks ps)
unfolding pairs splice
pairs-splice g k p n ks [] ps ps' le a b a' b' i j = absurd (omega arith)
pairs-splice g k p n ks (k' ∷ ks') ps [] le a b a' b' i j = absurd (omega arith)
pairs-splice zero k p n ks (k' ∷ ks') ps (p' ∷ ps') le a b a' b' i j =
    let first : k' ≡ k = i.here in
    let first' : p' ≡ p = j.here in
    rw (first, first')
      (ap (λ l. (k, p) ∷ l)
        (pairs-same n ks' ks ps' ps (omega arith) a (omega arith) b
          (λ t h. i.after t (omega arith) h) (λ t h. j.after t (omega arith) h)))
pairs-splice (suc g) k p zero ks (k' ∷ ks') ps (p' ∷ ps') le a b a' b' i j = absurd (omega arith)
pairs-splice (suc g) k p (suc n) [] (k' ∷ ks') ps (p' ∷ ps') le a b a' b' i j = absurd (omega arith)
pairs-splice (suc g) k p (suc n) (x ∷ ks) (k' ∷ ks') [] (p' ∷ ps') le a b a' b' i j =
    absurd (omega arith)
pairs-splice (suc g) k p (suc n) (x ∷ ks) (k' ∷ ks') (y ∷ ps) (p' ∷ ps') le a b a' b' i j =
    let first : k' ≡ x = i.before 0 (omega arith) in
    let first' : p' ≡ y = j.before 0 (omega arith) in
    rw (first, first')
      (ap (λ l. (x, y) ∷ l)
        (pairs-splice g k p n ks ks' ps ps' (omega arith) (omega arith) (omega arith) (omega arith)
          (omega arith) (tail i) (tail j)))
  where
    tail :
        {v z w : ℕ} {xs ys : List ℕ}
        → Inserted (suc g) v (suc n) (z ∷ xs) (w ∷ ys)
        → Inserted g v n xs ys
    tail i = record {
      before = λ t h. i.before (suc t) (omega arith);
      here = i.here;
      after = λ t le h. i.after (suc t) (omega arith) (omega arith);
    }

pub Inserted-drop :
    (g v n : ℕ) (xs ys : List ℕ)
    → Inserted (suc g) v (suc n) xs ys
    → Inserted g v n (drop 1 xs) (drop 1 ys)
Inserted-drop g v n xs ys i = record {
  before = λ t h. down ys t ∙ i.before (suc t) (omega arith) ∙ sym (down xs t);
  here = down ys g ∙ i.here;
  after = λ t le h. down ys (suc t) ∙ i.after (suc t) (omega arith) (omega arith) ∙ sym (down xs t);
}
  where
    down : (xs : List ℕ) (t : ℕ) → get_or (drop 1 xs) t 0 ≡ get_or xs (suc t) 0
    down [] t = refl
    down (x ∷ xs) t = refl

pub take-pairs :
    (g n : ℕ) (ks : List ℕ) (ps : List Ptr) → g ≤ n → take g (pairs n ks ps) ≡ pairs g ks ps
unfolding pairs
take-pairs zero n ks ps h = refl
take-pairs (suc g) zero ks ps h = absurd (omega arith)
take-pairs (suc g) (suc n) [] ps h = refl
take-pairs (suc g) (suc n) (k ∷ ks) [] h = refl
take-pairs (suc g) (suc n) (k ∷ ks) (p ∷ ps) h =
    ap (λ l. (k, p) ∷ l) (take-pairs g n ks ps (omega arith))

pub drop-pairs :
    (g n : ℕ) (ks : List ℕ) (ps : List Ptr)
    → g ≤ n
    → n ≤ length ks
    → n ≤ length ps
    → drop g (pairs n ks ps) ≡ pairs (n - g) (drop g ks) (drop g ps)
unfolding pairs
drop-pairs zero n ks ps h hk hp = let e : n - 0 ≡ n = omega arith in rw e refl
drop-pairs (suc g) zero ks ps h hk hp = absurd (omega arith)
drop-pairs (suc g) (suc n) [] ps h hk hp = absurd (omega arith)
drop-pairs (suc g) (suc n) (k ∷ ks) [] h hk hp = absurd (omega arith)
drop-pairs (suc g) (suc n) (k ∷ ks) (p ∷ ps) h hk hp =
    let e : suc n - suc g ≡ n - g = omega arith in
    rw e (drop-pairs g n ks ps (omega arith) (omega arith) (omega arith))

pub at-pairs :
    (g n : ℕ) (ks : List ℕ) (ps : List Ptr)
    → g < n
    → n ≤ length ks
    → n ≤ length ps
    → (key_at g (pairs n ks ps) ≡ get_or ks g 0) × (pointer_at g (pairs n ks ps) ≡ get_or ps g 0)
unfolding pairs
at-pairs g zero ks ps h hk hp = absurd (omega arith)
at-pairs g (suc n) [] ps h hk hp = absurd (omega arith)
at-pairs g (suc n) (k ∷ ks) [] h hk hp = absurd (omega arith)
at-pairs zero (suc n) (k ∷ ks) (p ∷ ps) h hk hp = (refl, refl)
at-pairs (suc g) (suc n) (k ∷ ks) (p ∷ ps) h hk hp =
    at-pairs g n ks ps (omega arith) (omega arith) (omega arith)
