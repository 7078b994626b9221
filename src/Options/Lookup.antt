-- ===== src/Options/Lookup.antt =====
-- The table of options as a finite map from names, up to the spelling of dashes.
use mathlib.Core.Option
use nu_ksm_pact21_artifact.Base.{
  ◌≡◌, refl, sym, ◌∙◌, true, false, Bool, inl, inr, Option, none, some, List, [], ◌∷◌, ◌++◌, arith,
  if◌then◌else◌, Bool-cases, Option-cases,
}
use nu_ksm_pact21_artifact.Options.{
  Text, Opt, convert_dashes, same_name, find_option, new_option, add_option, modify_option,
}
use nu_ksm_pact21_artifact.Options.Names.{IsText, same_name_iff}

convert_dashes-IsText : (s : Text) → IsText s → IsText (convert_dashes s)
unfolding convert_dashes
convert_dashes-IsText [] h = tt
convert_dashes-IsText (c ∷ s) h = (let ne = h.0 in ground arith, convert_dashes-IsText s h.1)

convert_dashes-convert_dashes : (s : Text) → convert_dashes (convert_dashes s) ≡ convert_dashes s
unfolding convert_dashes
convert_dashes-convert_dashes [] = refl
convert_dashes-convert_dashes (c ∷ s) = ground (arith, convert_dashes-convert_dashes s)

-- The names in the table are the ones that `add_option` stores.
abbrev pub IsTable : List Opt → Type 0
IsTable [] = Unit
IsTable (o ∷ os) = IsText o.name × IsTable os

bool_eq : (a b : Bool) → (a ≡ true → b ≡ true) → (b ≡ true → a ≡ true) → a ≡ b
bool_eq true true f g = refl
bool_eq true false f g = sym (f refl)
bool_eq false true f g = g refl
bool_eq false false f g = refl

-- A stored name answers for every spelling of it, and for no other name.
same_name-convert_dashes :
    (n m : Text) → IsText n → IsText m → same_name (convert_dashes n) m ≡ same_name n m
same_name-convert_dashes n m hn hm =
    let (there, back) = same_name_iff (convert_dashes n) m (convert_dashes-IsText n hn) hm in
    let (to, from) = same_name_iff n m hn hm in
    let e = convert_dashes-convert_dashes n in
    bool_eq _ _ (λ p. from (sym e ∙ there p)) (λ p. back (e ∙ to p))

same_name_trans :
    (a b c : Text)
    → IsText a
    → IsText b
    → IsText c
    → same_name a b ≡ true
    → same_name b c ≡ true
    → same_name a c ≡ true
same_name_trans a b c ha hb hc p q =
    (same_name_iff a c ha hc).1 ((same_name_iff a b ha hb).0 p ∙ (same_name_iff b c hb hc).0 q)

same_name_sym : (a b : Text) → IsText a → IsText b → same_name a b ≡ true → same_name b a ≡ true
same_name_sym a b ha hb p = (same_name_iff b a hb ha).1 (sym ((same_name_iff a b ha hb).0 p))

-- In a table whose names are C strings, two C strings that `opt_name_cmp` takes for the same name
-- find the same option.
pub find_option-same_name :
    (n m : Text) (os : List Opt)
    → IsText n
    → IsText m
    → IsTable os
    → same_name n m ≡ true
    → find_option n os ≡ find_option m os
unfolding find_option
find_option-same_name n m [] hn hm h e = refl
find_option-same_name n m (o ∷ os) hn hm h e =
    let same : same_name o.name n ≡ same_name o.name m =
      bool_eq _ _ (λ p. same_name_trans o.name n m h.0 hn hm p e)
        (λ p. same_name_trans o.name m n h.0 hm hn p (same_name_sym n m hn hm e)) in
    rw (same, find_option-same_name n m os hn hm h.1 e)

abbrev pub or_else : Option Opt → Option Opt → Option Opt
or_else none r = r
or_else (some o) r = some o

find_option-append :
    (m : Text) (os ps : List Opt)
    → find_option m (os ++ ps) ≡ or_else (find_option m os) (find_option m ps)
unfolding find_option
find_option-append m [] ps = refl
find_option-append m (o ∷ os) ps = ground (arith, find_option-append m os ps)

pub find_option-modify_option :
    (name : Text) (f : Opt → Opt) (os : List Opt)
    → ((o : Opt) → (f o).name ≡ o.name)
    → find_option name (modify_option name f os) ≡ Option.map f (find_option name os)
unfolding find_option modify_option
find_option-modify_option name f [] h = refl
find_option-modify_option name f (o ∷ os) h = elim (Bool-cases (same_name o.name name)) [
  | inl hit ↦ rw (hit, h o, hit)
  | inr miss ↦ rw (miss, miss) (find_option-modify_option name f os h)
]

find_option-new_option :
    (n m : Text)
    → IsText n
    → IsText m
    → find_option m (new_option n ∷ []) ≡ (if same_name n m then some (new_option n) else none)
unfolding find_option new_option
find_option-new_option n m hn hm = rw (same_name-convert_dashes n m hn hm)

Option-eta : (r : Option Opt) → r ≡ or_else r none
Option-eta none = refl
Option-eta (some o) = refl

-- For C strings `n` and `m` and a table of such names: after `add_option` of `n`, the search for `m`
-- finds what it found before; where it found nothing, it finds the new, empty option `n` if `m` is
-- the same name up to dashes, and still nothing if it is not.
pub find_option-add_option :
    (n m : Text) (os : List Opt)
    → IsText n
    → IsText m
    → IsTable os
    → find_option m (add_option n os)
      ≡ or_else (find_option m os) (if same_name n m then some (new_option n) else none)
unfolding add_option
find_option-add_option n m os hn hm h = elim (Option-cases (find_option n os)) [
  | inl absent ↦ rw (
    absent,
    add_option,
    find_option-append m os (new_option n ∷ []),
    find_option-new_option n m hn hm,
  )
  | inr (o, found) ↦ elim (Bool-cases (same_name n m)) [
    | inl same ↦
        let there : find_option m os ≡ some o =
          sym (find_option-same_name n m os hn hm h same) ∙ found in
        rw (found, add_option, there)
    | inr other ↦ rw (found, add_option, other) (Option-eta (find_option m os))
  ]
]

-- A change that keeps the names makes no option appear.
pub find_option-modify_none :
    (n m : Text) (f : Opt → Opt) (os : List Opt)
    → ((o : Opt) → (f o).name ≡ o.name)
    → find_option m os ≡ none
    → find_option m (modify_option n f os) ≡ none
unfolding find_option modify_option
find_option-modify_none n m f [] h e = refl
find_option-modify_none n m f (o ∷ os) h e = ground (arith, h o, find_option-modify_none n m f os h)
