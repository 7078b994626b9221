-- ===== src/BTree/Map/Records.antt =====
-- The records under an insertion: a new record, and a new value in an old one.
use mathlib.Core.Path.{subst}
use nu_ksm_pact21_artifact.Base.{
  ℕ, ◌≡◌, ◌≢◌, refl, sym, ap, ◌∙◌, inl, inr, true, false, Bool, Option, none, some, List, [], ◌∷◌,
  arith, ltb, ◌==◌, if◌then◌else◌, Bool-cases,
}
use nu_ksm_pact21_artifact.BTree.Store.{Ptr, null, Rec, update}
use nu_ksm_pact21_artifact.BTree.Entries.Leaf.{insert_entry}
use nu_ksm_pact21_artifact.BTree.Tree.{lookup}
use nu_ksm_pact21_artifact.BTree.Tree.Edit.{Entries}
use nu_ksm_pact21_artifact.BTree.Tree.Insertion.{IsNew, lookup-insert_entry}
use nu_ksm_pact21_artifact.BTree.Tree.Owned.{In}
use nu_ksm_pact21_artifact.BTree.Tree.Addresses.{NotIn-not}
use nu_ksm_pact21_artifact.BTree.Map.{Contents, assign, Heap, HasValue, FreeRecs, AllThere, Holding}

update_ne : (heap : Heap) (p q : Ptr) (rec : Rec) → q ≢ p → update heap p rec q ≡ heap q
update_ne heap p q rec ne = let other : (q == p) ≡ false = ground arith in rw other refl

pub update_self : (heap : Heap) (p : Ptr) (rec : Rec) → update heap p rec p ≡ some rec
update_self heap p rec = let same : (p == p) ≡ true = ground arith in rw same refl

HasValue-update :
    (heap : Heap) (p q : Ptr) (rec : Rec) (v : Option ℕ)
    → q ≢ p
    → HasValue heap q v
    → HasValue (update heap p rec) q v
HasValue-update heap p q rec none ne h = h
HasValue-update heap p q rec (some v) ne (there, old, at, word) =
    (there, old, update_ne heap p q rec ne ∙ at, word)

pub FreeRecs-update :
    (heap : Heap) (p f : Ptr) (rec : Rec) (free : List Ptr)
    → (In p free → ⊥)
    → FreeRecs heap f free
    → FreeRecs (update heap p rec) f free
FreeRecs-update heap p f rec [] out t = tt
FreeRecs-update heap p f rec (x ∷ xs) out (e, ne, old, at, rest) = (
  e,
  ne,
  old,
  update_ne heap p x rec (λ eq. out (inl (sym eq))) ∙ at,
  FreeRecs-update heap p old.word rec xs (λ i. out (inr i)) rest,
)

AllThere-insert_entry :
    (key : ℕ) (r : Ptr) (es : Entries) → r ≢ null → AllThere es → AllThere (insert_entry key r es)
unfolding insert_entry
AllThere-insert_entry key r [] ne all = (ne, tt)
AllThere-insert_entry key r ((k, p) ∷ es) ne (here, all) = elim (Bool-cases (ltb k key)) [
  | inl below ↦ rw below (here, AllThere-insert_entry key r es ne all)
  | inr above ↦ rw above (ne, (here, all))
]

pub Holding-same :
    {heap heap' : Heap} {first first' : Ptr} {free : List Ptr} {es : Entries} {m : Contents}
    → heap' ≡ heap
    → first' ≡ first
    → Holding heap first free es m
    → Holding heap' first' free es m
Holding-same {heap} {heap'} {first} {first'} {free} {es} {m} eh ef h =
    subst (λ p. Holding p first' free es m) (sym eh)
      (subst (λ f. Holding heap f free es m) (sym ef) h)

-- A key without a record is not among the entries.
pub lookup-IsNew : (key : ℕ) (es : Entries) → AllThere es → lookup key es ≡ null → IsNew key es
unfolding lookup
lookup-IsNew key [] all e = tt
lookup-IsNew key ((k, p) ∷ es) (ne, all) e = elim (Bool-cases (k == key)) [
  | inl hit ↦ absurd (ne (rw hit at e))
  | inr miss ↦ (miss, lookup-IsNew key es all (rw miss at e))
]

-- A value for a key that has none, in the record at the head of the free list.
pub Holding-new :
    (heap : Heap) (first x : Ptr) (free : List Ptr) (es : Entries) (m : Contents) (key value : ℕ)
    → Holding heap first (x ∷ free) es m
    → (old : Rec) × (heap x ≡ some old)
      × (first ≡ x)
      × (x ≢ null)
      × ((made : Rec)
          → made.word ≡ value
          → Holding (update heap x made) old.word free (insert_entry key x es) (assign key value m))
Holding-new heap first x free es m key value h =
    let (e, x_null, old, at, chain) = h.chain in
    let (x_new, d) = h.free_distinct in
    let found : (j : ℕ) → lookup j (insert_entry key x es) ≡ (if key == j then x else lookup j es) =
      λ j. lookup-insert_entry j key x es in
    let ne : (j : ℕ) → lookup j es ≢ x = λ j eq. h.fresh j (inl eq) in
    (
      old,
      at,
      e,
      x_null,
      λ made word. record {
        there = AllThere-insert_entry key x es x_null h.there;
        values = λ j. rw (found j) (elim (Bool-cases (key == j)) [
          | inl hit ↦ rw hit (x_null, made, update_self heap x made, word)
          | inr miss ↦ rw miss (HasValue-update heap x (lookup j es) made (m j) (ne j) (h.values j))
        ]);
        separate = λ j k. rw (found j, found k) (pair_of j k (key == j) (key == k) refl refl);
        fresh = λ j. rw (found j) (elim (Bool-cases (key == j)) [
          | inl hit ↦ rw hit (λ i. NotIn-not x free x_new i)
          | inr miss ↦ rw miss (λ i. h.fresh j (inr i))
        ]);
        chain = FreeRecs-update heap x old.word made free (λ i. NotIn-not x free x_new i) chain;
        free_distinct = d;
      },
    )
  where
    pair_of :
        (j k : ℕ) (a b : Bool)
        → (key == j) ≡ a
        → (key == k) ≡ b
        → (if a then x else lookup j es) ≡ (if b then x else lookup k es)
        → (if a then x else lookup j es) ≢ null
        → j ≡ k
    pair_of j k true true ea eb e ne = ground arith
    pair_of j k true false ea eb e ne = absurd (h.fresh k (inl (sym e)))
    pair_of j k false true ea eb e ne = absurd (h.fresh j (inl e))
    pair_of j k false false ea eb e ne = h.separate j k e ne

-- A new value in the record of a key that has one.
pub Holding-old :
    (heap : Heap) (first : Ptr) (free : List Ptr) (es : Entries) (m : Contents) (key value : ℕ)
    → Holding heap first free es m
    → lookup key es ≢ null
    → (old : Rec) × (heap (lookup key es) ≡ some old)
      × Holding
          (update heap (lookup key es) (record old { word = value }))
          first
          free
          es
          (assign key value m)
Holding-old heap first free es m key value h ne =
    let (old, at) = there (m key) (h.values key) in
    let p = lookup key es in
    let made = record old { word = value } in
    (
      old,
      at,
      record {
        there = h.there;
        values = λ j. elim (Bool-cases (key == j)) [
          | inl hit ↦
              let same : key ≡ j = ground arith in
              rw hit
                (rw (ap (λ i. lookup i es) (sym same)) (ne, made, update_self heap p made, refl))
          | inr miss ↦ rw miss (keeps j (m j) miss made (h.values j))
        ];
        separate = h.separate;
        fresh = h.fresh;
        chain = FreeRecs-update heap p first made free (h.fresh key) h.chain;
        free_distinct = h.free_distinct;
      },
    )
  where
    there :
        (v : Option ℕ)
        → HasValue heap (lookup key es) v
        → (old : Rec) × (heap (lookup key es) ≡ some old)
    there none e = absurd (ne e)
    there (some v) (ne', old, at, word) = (old, at)

    keeps :
        (j : ℕ) (v : Option ℕ)
        → (key == j) ≡ false
        → (made : Rec) → HasValue heap (lookup j es) v
        → HasValue (update heap (lookup key es) made) (lookup j es) v
    keeps j none miss made e = e
    keeps j (some v) miss made (ne', old, at, word) = (
      ne',
      old,
      update_ne heap (lookup key es) (lookup j es) made
            (λ eq. let same = h.separate j key eq ne' in absurd (ground (arith, same, miss)))
          ∙ at,
      word,
    )
