-- ===== src/Options/Table/Register.antt =====
-- What `set_option` and `sb_register_arg_set` leave in the table.
use mathlib.Core.Option
use nu_ksm_pact21_artifact.Base.{
  ℕ, ◌≡◌, refl, sym, ap, ◌∙◌, inl, inr, Option, none, some, List, [], ◌∷◌, ◌++◌, arith, Bool-cases,
}
use nu_ksm_pact21_artifact.Options.{Text, Validator, Opt, find_option, modify_option}
use nu_ksm_pact21_artifact.Options.Lookup.{find_option-modify_option}
use nu_ksm_pact21_artifact.Options.Table.{Arg, set_option, register_from, register_arg_set}

abbrev pub set_validate : Option Validator → Opt → Opt
set_validate v o = record o { validate = v }

one_ne : {xs ys : List Opt} → ¬ (◌≡◌ {A = List Opt × ℕ} (xs, 1) (ys, 0))
one_ne e = ground arith

map-set_validate :
    (v : Option Validator) (r : Option Opt) (o : Opt)
    → Option.map (set_validate v) r ≡ some o
    → o.validate ≡ v
map-set_validate v none o e = cc
map-set_validate v (some p) o e = ground arith

module _ (files : Text → Option Text) where
  -- The last element of a set that is registered without an error: what `find_option` finds for it
  -- has the validator `first`.
  register_from-last :
      (first : Option Validator) (args : List Arg) (b : Arg) (os os' : List Opt) (o : Opt)
      → register_from files first (args ++ (b ∷ [])) os ≡ (os', 0)
      → find_option b.name os' ≡ some o
      → o.validate ≡ first
  unfolding register_from
  register_from-last first [] b os os' o e f =
      let r = set_option files b.name b.value b.type os in
      elim (Bool-cases r.1) [
        | inl done ↦
            let same : (modify_option b.name (set_validate first) r.0, 0) ≡ (os', 0) =
              rw done at e in
            let found = find_option-modify_option b.name (set_validate first) r.0 (λ p. refl) in
            map-set_validate first (find_option b.name r.0) o
              (sym found ∙ ap (λ (q : List Opt × ℕ). find_option b.name q.0) same ∙ f)
        | inr failed ↦ absurd (one_ne (rw failed at e))
      ]
  register_from-last first (a ∷ args) b os os' o e f =
      let r = set_option files a.name a.value a.type os in
      elim (Bool-cases r.1) [
        | inl done ↦
            register_from-last first args b (modify_option a.name (set_validate first) r.0) os' o
              (rw done at e) f
        | inr failed ↦ absurd (one_ne (rw failed at e))
      ]

  -- After a set of at least two elements is registered without an error, what `find_option` finds for
  -- the name of its last element has the validator of the set's first element.
  pub register_arg_set-last :
      (a : Arg) (args : List Arg) (b : Arg) (os os' : List Opt) (o : Opt)
      → register_arg_set files (a ∷ (args ++ (b ∷ []))) os ≡ (os', 0)
      → find_option b.name os' ≡ some o
      → o.validate ≡ a.validate
  unfolding register_arg_set
  register_arg_set-last a args b os os' o e f =
      register_from-last a.validate (a ∷ args) b os os' o e f
