-- ===== src/BTree/Tree/Addresses.antt =====
-- Lists of addresses: membership, difference, and what a replaced part keeps.
use nu_ksm_pact21_artifact.Base.{◌⊎◌, inl, inr, refl, List, [], ◌∷◌, ◌++◌}
use nu_ksm_pact21_artifact.BTree.Store.{Ptr}
use nu_ksm_pact21_artifact.BTree.Tree.Owned.{
  In, NotIn, Distinct, In-append_left, In-append_right, Distinct-append,
}

abbrev pub Disjoint : List Ptr → List Ptr → Type 0
Disjoint xs ys = (x : Ptr) → In x xs → In x ys → ⊥

abbrev pub Within : List Ptr → List Ptr → Type 0
Within xs ys = (x : Ptr) → In x xs → In x ys

-- The addresses `ms` come from `ns`, or have been taken from `used`.
abbrev pub Grows : List Ptr → List Ptr → List Ptr → Type 0
Grows ns used ms = (x : Ptr) → In x ms → In x ns ⊎ In x used

pub NotIn-not : (x : Ptr) (xs : List Ptr) → NotIn x xs → In x xs → ⊥
NotIn-not x [] n i = i
NotIn-not x (y ∷ xs) (ne, n) (inl e) = ne e
NotIn-not x (y ∷ xs) (ne, n) (inr i) = NotIn-not x xs n i

pub not-NotIn : (x : Ptr) (xs : List Ptr) → (In x xs → ⊥) → NotIn x xs
not-NotIn x [] h = tt
not-NotIn x (y ∷ xs) h = ((λ e. h (inl e)), not-NotIn x xs (λ i. h (inr i)))

pub In-append : (x : Ptr) (xs ys : List Ptr) → In x (xs ++ ys) → In x xs ⊎ In x ys
In-append x [] ys i = inr i
In-append x (z ∷ xs) ys (inl e) = inl (inl e)
In-append x (z ∷ xs) ys (inr i) = elim (In-append x xs ys i) [ inl a ↦ inl (inr a) | inr b ↦ inr b ]

pub Distinct-both :
    (xs ys : List Ptr) → Distinct xs → Distinct ys → Disjoint xs ys → Distinct (xs ++ ys)
Distinct-both [] ys a b d = b
Distinct-both (x ∷ xs) ys (n, a) b d = (
  not-NotIn x (xs ++ ys)
      (λ i. elim (In-append x xs ys i) [ inl l ↦ NotIn-not x xs n l | inr r ↦ d x (inl refl) r ]),
  Distinct-both xs ys a b (λ y i. d y (inr i)),
)

pub Distinct-Disjoint : (xs ys : List Ptr) → Distinct (xs ++ ys) → Disjoint xs ys
Distinct-Disjoint xs ys d x i j = NotIn-not x ys ((Distinct-append xs ys d).not_right x i) j

pub Distinct-left : (xs ys : List Ptr) → Distinct (xs ++ ys) → Distinct xs
Distinct-left xs ys d = (Distinct-append xs ys d).left

pub Distinct-right : (xs ys : List Ptr) → Distinct (xs ++ ys) → Distinct ys
Distinct-right xs ys d = (Distinct-append xs ys d).right

-- The right part of distinct addresses is replaced.
pub replace_right :
    (ln rn rn' used : List Ptr)
    → Distinct (ln ++ rn)
    → Disjoint (ln ++ rn) used
    → Distinct rn'
    → Grows rn used rn'
    → Distinct (ln ++ rn') × Grows (ln ++ rn) used (ln ++ rn')
replace_right ln rn rn' used d apart d' grows = (
  Distinct-both ln rn' (Distinct-left ln rn d) d' (λ x i j. elim (grows x j) [
    | inl old ↦ Distinct-Disjoint ln rn d x i old
    | inr new ↦ apart x (In-append_left x ln rn i) new
  ]),
  λ x i. elim (In-append x ln rn' i) [
    | inl l ↦ inl (In-append_left x ln rn l)
    | inr r ↦ elim (grows x r) [ inl old ↦ inl (In-append_right x ln rn old) | inr new ↦ inr new ]
  ],
)

pub replace_left :
    (ln rn ln' used : List Ptr)
    → Distinct (ln ++ rn)
    → Disjoint (ln ++ rn) used
    → Distinct ln'
    → Grows ln used ln'
    → Distinct (ln' ++ rn) × Grows (ln ++ rn) used (ln' ++ rn)
replace_left ln rn ln' used d apart d' grows = (
  Distinct-both ln' rn d' (Distinct-right ln rn d) (λ x i j. elim (grows x i) [
    | inl old ↦ Distinct-Disjoint ln rn d x old j
    | inr new ↦ apart x (In-append_right x ln rn j) new
  ]),
  λ x i. elim (In-append x ln' rn i) [
    | inl l ↦ elim (grows x l) [ inl old ↦ inl (In-append_left x ln rn old) | inr new ↦ inr new ]
    | inr r ↦ inl (In-append_right x ln rn r)
  ],
)
