-- ===== src/BTree/Tree/Edit.antt =====
-- Edits of a tree's entries that stay on one side of every separator: the insertion of an entry, and
-- the removal of one.
use nu_ksm_pact21_artifact.Base.{
  ℕ, ◌≤◌, ◌<◌, ◌≡◌, refl, ap, true, false, inl, inr, List, [], ◌∷◌, ◌++◌, arith, ltb, ◌==◌,
  if◌then◌else◌, Bool-cases,
}
use nu_ksm_pact21_artifact.BTree.Store.{Ptr}
use nu_ksm_pact21_artifact.BTree.Entries.Leaf.{insert_entry}
use nu_ksm_pact21_artifact.BTree.Tree.{AllBelow, AllFrom}

abbrev pub Entries : Type 0
Entries = List (ℕ × Ptr)

-- What an edit at a key does where the separator `b` stands between two parts of the entries.
pub record Edit (key : ℕ) (f : Entries → Entries) : Type 0 where
  pub left :
      (b : ℕ) (left right : Entries)
      → key < b
      → AllFrom b right
      → f (left ++ right) ≡ f left ++ right
  pub right :
      (b : ℕ) (left right : Entries)
      → b ≤ key
      → AllBelow b left
      → f (left ++ right) ≡ left ++ f right
  pub below : (b : ℕ) (es : Entries) → key < b → AllBelow b es → AllBelow b (f es)
  pub from : (b : ℕ) (es : Entries) → b ≤ key → AllFrom b es → AllFrom b (f es)

insert_entry-AllFrom :
    (key : ℕ) (r : Ptr) (b : ℕ) (right : List (ℕ × Ptr))
    → key < b
    → AllFrom b right
    → insert_entry key r right ≡ (key, r) ∷ right
unfolding insert_entry
insert_entry-AllFrom key r b [] h from = refl
insert_entry-AllFrom key r b ((k, p) ∷ es) h (first, from) = ground arith

insert_entry-left :
    (key : ℕ) (r : Ptr) (b : ℕ) (left right : List (ℕ × Ptr))
    → key < b
    → AllFrom b right
    → insert_entry key r (left ++ right) ≡ insert_entry key r left ++ right
unfolding insert_entry
insert_entry-left key r b [] right h from = insert_entry-AllFrom key r b right h from
insert_entry-left key r b ((k, p) ∷ left) right h from = elim (Bool-cases (ltb k key)) [
  | inl below ↦ rw below (ap (λ l. (k, p) ∷ l) (insert_entry-left key r b left right h from))
  | inr above ↦ rw above refl
]

insert_entry-right :
    (key : ℕ) (r : Ptr) (b : ℕ) (left right : List (ℕ × Ptr))
    → b ≤ key
    → AllBelow b left
    → insert_entry key r (left ++ right) ≡ left ++ insert_entry key r right
unfolding insert_entry
insert_entry-right key r b [] right h below = refl
insert_entry-right key r b ((k, p) ∷ left) right h (less, below) =
    let smaller : ltb k key ≡ true = ground arith in
    rw smaller (ap (λ l. (k, p) ∷ l) (insert_entry-right key r b left right h below))

AllBelow-insert_entry :
    (key : ℕ) (r : Ptr) (b : ℕ) (es : List (ℕ × Ptr))
    → key < b
    → AllBelow b es
    → AllBelow b (insert_entry key r es)
unfolding insert_entry
AllBelow-insert_entry key r b [] h below = (h, tt)
AllBelow-insert_entry key r b ((k, p) ∷ es) h (less, below) = elim (Bool-cases (ltb k key)) [
  | inl smaller ↦ rw smaller (less, AllBelow-insert_entry key r b es h below)
  | inr above ↦ rw above (h, (less, below))
]

AllFrom-insert_entry :
    (key : ℕ) (r : Ptr) (b : ℕ) (es : List (ℕ × Ptr))
    → b ≤ key
    → AllFrom b es
    → AllFrom b (insert_entry key r es)
unfolding insert_entry
AllFrom-insert_entry key r b [] h from = (h, tt)
AllFrom-insert_entry key r b ((k, p) ∷ es) h (first, from) = elim (Bool-cases (ltb k key)) [
  | inl smaller ↦ rw smaller (first, AllFrom-insert_entry key r b es h from)
  | inr above ↦ rw above (h, (first, from))
]

pub insert_entry-Edit : (key : ℕ) (r : Ptr) → Edit key (insert_entry key r)
insert_entry-Edit key r = record {
  left = insert_entry-left key r;
  right = insert_entry-right key r;
  below = AllBelow-insert_entry key r;
  from = AllFrom-insert_entry key r;
}

-- The first entry of the key goes.
unfoldable pub remove_entry : ℕ → Entries → Entries
remove_entry key [] = []
remove_entry key ((k, p) ∷ es) = if k == key then es else (k, p) ∷ remove_entry key es

remove_entry-AllFrom :
    (key b : ℕ) (right : Entries) → key < b → AllFrom b right → remove_entry key right ≡ right
unfolding remove_entry
remove_entry-AllFrom key b [] h from = refl
remove_entry-AllFrom key b ((k, p) ∷ es) h (first, from) =
    let other : (k == key) ≡ false = ground arith in
    rw other (ap (λ l. (k, p) ∷ l) (remove_entry-AllFrom key b es h from))

remove_entry-left :
    (key b : ℕ) (left right : Entries)
    → key < b
    → AllFrom b right
    → remove_entry key (left ++ right) ≡ remove_entry key left ++ right
unfolding remove_entry
remove_entry-left key b [] right h from = remove_entry-AllFrom key b right h from
remove_entry-left key b ((k, p) ∷ left) right h from = elim (Bool-cases (k == key)) [
  | inl hit ↦ rw hit refl
  | inr miss ↦ rw miss (ap (λ l. (k, p) ∷ l) (remove_entry-left key b left right h from))
]

remove_entry-right :
    (key b : ℕ) (left right : Entries)
    → b ≤ key
    → AllBelow b left
    → remove_entry key (left ++ right) ≡ left ++ remove_entry key right
unfolding remove_entry
remove_entry-right key b [] right h below = refl
remove_entry-right key b ((k, p) ∷ left) right h (less, below) =
    let other : (k == key) ≡ false = ground arith in
    rw other (ap (λ l. (k, p) ∷ l) (remove_entry-right key b left right h below))

AllBelow-remove_entry :
    (key b : ℕ) (es : Entries) → key < b → AllBelow b es → AllBelow b (remove_entry key es)
unfolding remove_entry
AllBelow-remove_entry key b [] h below = tt
AllBelow-remove_entry key b ((k, p) ∷ es) h (less, below) = elim (Bool-cases (k == key)) [
  | inl hit ↦ rw hit below
  | inr miss ↦ rw miss (less, AllBelow-remove_entry key b es h below)
]

AllFrom-remove_entry :
    (key b : ℕ) (es : Entries) → b ≤ key → AllFrom b es → AllFrom b (remove_entry key es)
unfolding remove_entry
AllFrom-remove_entry key b [] h from = tt
AllFrom-remove_entry key b ((k, p) ∷ es) h (first, from) = elim (Bool-cases (k == key)) [
  | inl hit ↦ rw hit from
  | inr miss ↦ rw miss (first, AllFrom-remove_entry key b es h from)
]

pub remove_entry-Edit : (key : ℕ) → Edit key (remove_entry key)
remove_entry-Edit key = record {
  left = remove_entry-left key;
  right = remove_entry-right key;
  below = AllBelow-remove_entry key;
  from = AllFrom-remove_entry key;
}
