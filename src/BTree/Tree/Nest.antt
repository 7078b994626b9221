-- ===== src/BTree/Tree/Nest.antt =====
-- The content of an internal node: its first pointer, and behind it each key with the pointer on its
-- right. `Nest` says what entries the subtrees hold together, and at what addresses.
pub mod Focus
use nu_ksm_pact21_artifact.Base.{
  ℕ, zero, suc, ◌+◌, ◌≤◌, ◌<◌, ◌≡◌, refl, sym, ap, ◌∙◌, ◌⊎◌, inl, inr, List, [], ◌∷◌, ◌++◌, arith,
  length, get_or, take, drop,
}
use nu_ksm_pact21_artifact.BTree.Store.{Ptr}
use nu_ksm_pact21_artifact.BTree.Tree.{AllBelow, AllFrom}
use nu_ksm_pact21_artifact.BTree.Tree.Edit.{Entries}
use nu_ksm_pact21_artifact.BTree.Tree.Owned.{In, In-append_left, In-append_right}

abbrev pub Part : Type 1
Part = Ptr → Entries → List Ptr → Type 0

abbrev pub Nest : Part → Ptr → Entries → Entries → List Ptr → Type 0
Nest P p [] es ns = P p es ns
Nest P p ((k, q) ∷ R) es ns =
    (left : Entries) × (right : Entries) × (ln : List Ptr) × (rn : List Ptr) × (es ≡ left ++ right)
    × (ns ≡ ln ++ rn)
    × P p left ln
    × AllBelow k left
    × AllFrom k right
    × Nest P q R right rn

-- No part is empty.
abbrev pub Filled : Part → Type 0
Filled P = (p : Ptr) (es : Entries) (ns : List Ptr) → P p es ns → 0 < length es

pub length-both : (xs ys : Entries) → length (xs ++ ys) ≡ length xs + length ys
length-both [] ys = omega arith
length-both (x ∷ xs) ys = omega (arith, length-both xs ys)

pub append_assoc_lem {ℓ} : {A : Type ℓ} (xs ys zs : List A) → (xs ++ ys) ++ zs ≡ xs ++ (ys ++ zs)
append_assoc_lem [] ys zs = refl
append_assoc_lem (x ∷ xs) ys zs = ap (λ l. x ∷ l) (append_assoc_lem xs ys zs)

pub append_nil {ℓ} : {A : Type ℓ} (xs : List A) → xs ++ [] ≡ xs
append_nil [] = refl
append_nil (x ∷ xs) = ap (λ l. x ∷ l) (append_nil xs)

pub AllBelow-append :
    (k : ℕ) (xs ys : Entries) → AllBelow k xs → AllBelow k ys → AllBelow k (xs ++ ys)
AllBelow-append k [] ys a b = b
AllBelow-append k ((j, q) ∷ xs) ys (h, a) b = (h, AllBelow-append k xs ys a b)

pub AllFrom-append : (k : ℕ) (xs ys : Entries) → AllFrom k xs → AllFrom k ys → AllFrom k (xs ++ ys)
AllFrom-append k [] ys a b = b
AllFrom-append k ((j, q) ∷ xs) ys (h, a) b = (h, AllFrom-append k xs ys a b)

pub AllBelow-both :
    (k : ℕ) (xs ys : Entries) → AllBelow k (xs ++ ys) → AllBelow k xs × AllBelow k ys
AllBelow-both k [] ys h = (tt, h)
AllBelow-both k ((j, q) ∷ xs) ys (less, h) = let (a, b) = AllBelow-both k xs ys h in ((less, a), b)

pub AllFrom-both : (k : ℕ) (xs ys : Entries) → AllFrom k (xs ++ ys) → AllFrom k xs × AllFrom k ys
AllFrom-both k [] ys h = (tt, h)
AllFrom-both k ((j, q) ∷ xs) ys (le, h) = let (a, b) = AllFrom-both k xs ys h in ((le, a), b)

pub AllBelow-le : (a b : ℕ) (es : Entries) → a ≤ b → AllBelow a es → AllBelow b es
AllBelow-le a b [] h below = tt
AllBelow-le a b ((k, p) ∷ es) h (less, below) = (omega arith, AllBelow-le a b es h below)

pub AllFrom-le : (a b : ℕ) (es : Entries) → b ≤ a → AllFrom a es → AllFrom b es
AllFrom-le a b [] h from = tt
AllFrom-le a b ((k, p) ∷ es) h (le, from) = (omega arith, AllFrom-le a b es h from)

-- Two bounds of entries that are there.
bounds_lt : (a b : ℕ) (es : Entries) → 0 < length es → AllFrom a es → AllBelow b es → a < b
bounds_lt a b [] h from below = absurd (omega arith)
bounds_lt a b ((k, p) ∷ es) h (le, from) (less, below) = omega arith

pub Nest-Filled :
    (P : Part) (p : Ptr) (R es : Entries) (ns : List Ptr)
    → Filled P
    → Nest P p R es ns
    → 0 < length es
Nest-Filled P p [] es ns filled t = filled p es ns t
Nest-Filled P p ((k, q) ∷ R) es ns filled (left, right, ln, rn, ee, en, t, below, from, rest) =
    let some_left = filled p left ln t in
    omega (arith, length-both left right, ap (λ (x : Entries). length x) ee)

-- Two nests on the two sides of a key.
pub Nest-append :
    (P : Part) (p : Ptr) (k : ℕ) (q : Ptr) (a b left right : Entries) (ln rn : List Ptr)
    → Filled P
    → Nest P p a left ln
    → AllBelow k left
    → AllFrom k right
    → Nest P q b right rn
    → Nest P p (a ++ ((k, q) ∷ b)) (left ++ right) (ln ++ rn)
Nest-append P p k q [] b left right ln rn filled t below from u =
    (left, right, ln, rn, refl, refl, t, below, from, u)
Nest-append P p k q ((j, r) ∷ a) b left right ln rn filled
      (l1, l2, n1, n2, ee, en, t, below1, from1, rest) below from u =
    let (small, inner) = AllBelow-both k l1 l2 (rw ee at below) in
    let less = bounds_lt j k l2 (Nest-Filled P r a l2 n2 filled rest) from1 inner in
    (
      l1,
      l2 ++ right,
      n1,
      n2 ++ rn,
      ap (λ x. x ++ right) ee ∙ append_assoc_lem l1 l2 right,
      ap (λ x. x ++ rn) en ∙ append_assoc_lem n1 n2 rn,
      t,
      below1,
      AllFrom-append j l2 right from1 (AllFrom-le k j right (omega arith) from),
      Nest-append P r k q a b l2 right n2 rn filled rest inner from u,
    )

abbrev pub key_at : ℕ → Entries → ℕ
key_at g R = (get_or R g (0, 0)).0

abbrev pub pointer_at : ℕ → Entries → Ptr
pointer_at g R = (get_or R g (0, 0)).1

-- A nest cut at a key.
pub Nest-cut :
    (P : Part) (p : Ptr) (g : ℕ) (R es : Entries) (ns : List Ptr)
    → Filled P
    → g < length R
    → Nest P p R es ns
    → (left : Entries) × (right : Entries) × (ln : List Ptr) × (rn : List Ptr) × (es
        ≡ left ++ right)
      × (ns ≡ ln ++ rn)
      × Nest P p (take g R) left ln
      × AllBelow (key_at g R) left
      × AllFrom (key_at g R) right
      × Nest P (pointer_at g R) (drop (suc g) R) right rn
Nest-cut P p g [] es ns filled h t = absurd (omega arith)
Nest-cut P p zero ((k, q) ∷ R) es ns filled h t = t
Nest-cut P p (suc g) ((k, q) ∷ R) es ns filled h
      (left, right, ln, rn, ee, en, t, below, from, rest) =
    let (l2, r2, n2, m2, ee2, en2, u, below2, from2, rest2) =
      Nest-cut P q g R right rn filled (omega arith) rest in
    let (from_l, from_r) = AllFrom-both k l2 r2 (rw ee2 at from) in
    let less =
      bounds_lt k (key_at g R) l2 (Nest-Filled P q (take g R) l2 n2 filled u) from_l below2 in
    (
      left ++ l2,
      r2,
      ln ++ n2,
      m2,
      ee ∙ ap (λ x. left ++ x) ee2 ∙ sym (append_assoc_lem left l2 r2),
      en ∙ ap (λ x. ln ++ x) en2 ∙ sym (append_assoc_lem ln n2 m2),
      (left, l2, ln, n2, refl, refl, t, below, from_l, u),
      AllBelow-append (key_at g R) left l2 (AllBelow-le k (key_at g R) left (omega arith) below)
          below2,
      from2,
      rest2,
    )

-- The parts change, each by what holds of its addresses.
pub Nest-map :
    (P Q : Part) (all : List Ptr) (p : Ptr) (R es : Entries) (ns : List Ptr)
    → ((q : Ptr) (fs : Entries) (ms : List Ptr)
        → ((x : Ptr) → In x ms → In x all)
        → P q fs ms
        → Q q fs ms)
    → ((x : Ptr) → In x ns → In x all)
    → Nest P p R es ns
    → Nest Q p R es ns
Nest-map P Q all p [] es ns keep sub t = keep p es ns sub t
Nest-map P Q all p ((k, q) ∷ R) es ns keep sub (left, right, ln, rn, ee, en, t, below, from, rest) =
    let both : (x : Ptr) → In x (ln ++ rn) → In x all = rw en at sub in
    (
      left,
      right,
      ln,
      rn,
      ee,
      en,
      keep p left ln (λ x i. both x (In-append_left x ln rn i)) t,
      below,
      from,
      Nest-map P Q all q R right rn keep (λ x i. both x (In-append_right x ln rn i)) rest,
    )
