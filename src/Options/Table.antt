-- ===== src/Options/Table.antt =====
-- `set_option`, `sb_register_arg_set` and `sb_opt_copy` of benchmarks/sysbench/src/sb_options.c.
pub mod Register
use nu_ksm_pact21_artifact.Base.{
  ℕ, zero, suc, Bool, true, false, not, Option, none, some, List, [], ◌∷◌, ◌++◌, ◌||◌, ◌&&◌, ◌==◌,
  if◌then◌else◌,
}
use nu_ksm_pact21_artifact.Options.{
  Text, ArgType, Validator, Opt, find_option, modify_option, add_option, add_value, free_values,
}
use nu_ksm_pact21_artifact.Options.Config.{break, drop_one, separator, read_config}

-- `!strcmp(s, t)`
abbrev pub text_eq : Text → Text → Bool
text_eq [] [] = true
text_eq [] (b ∷ t) = false
text_eq (a ∷ s) [] = false
text_eq (a ∷ s) (b ∷ t) = a == b && text_eq s t

abbrev pub is_on : Text → Bool
is_on v =
    text_eq v (b'o' ∷ b'n' ∷ [])
    || text_eq v (b't' ∷ b'r' ∷ b'u' ∷ b'e' ∷ [])
    || text_eq v (b'1' ∷ [])

abbrev pub is_off : Text → Bool
is_off v =
    text_eq v (b'o' ∷ b'f' ∷ b'f' ∷ [])
    || text_eq v (b'f' ∷ b'a' ∷ b'l' ∷ b's' ∷ b'e' ∷ [])
    || text_eq v (b'0' ∷ [])

abbrev pub on : Text
on = b'o' ∷ b'n' ∷ []

abbrev pub push_word : Text → List Text → List Text
push_word [] rest = rest
push_word (c ∷ w) rest = (c ∷ w) ∷ rest

-- `strtok(…, ",")` until NULL: the non-empty pieces between commas. `word` is the piece so far.
unfoldable pub tokens : Text → Text → List Text
tokens word [] = push_word word []
tokens word (c ∷ t) =
    let longer = tokens (word ++ (c ∷ [])) t in
    let rest = tokens [] t in if c == separator then push_word word rest else longer

-- A validator that is there and refuses.
abbrev pub refuses : Option Validator → Text → Option Text → Bool
refuses none name value = false
refuses (some v) name value = not (v name value)

abbrev pub is_empty : Option Text → Bool
is_empty none = true
is_empty (some []) = true
is_empty (some (c ∷ v)) = false

abbrev pub is_bool : ArgType → Bool
is_bool ArgType.bool = true
is_bool _ = false

-- `opt->validate` of the option that `add_option` returned.
abbrev pub validator : Text → List Opt → Option Validator
validator name os = elim (find_option name os) [ none ↦ none | some o ↦ o.validate ]

abbrev pub opt_to_string : Opt → Option Text
opt_to_string o = elim o.values [ [] ↦ none | v ∷ vs ↦ some v ]

-- `sb_arg_t`
pub record Arg : Type 0 where
  pub name : Text
  pub value : Option Text
  pub type : ArgType
  pub validate : Option Validator

-- The text of the files that `fopen` can read, by name.
module _ (files : Text → Option Text) where
  -- The `switch` of `set_option`; `false` is its return of NULL.
  unfoldable pub store_value : Text → Option Text → ArgType → List Opt → List Opt × Bool
  store_value name none ArgType.bool os = (modify_option name (add_value on) os, true)
  store_value name (some v) ArgType.bool os =
      if is_on v then (modify_option name (add_value on) os, true) else (os, is_off v)
  store_value name none type os = (os, true)
  store_value name (some v) ArgType.list os =
      (modify_option name (λ o. record o { values = o.values ++ tokens [] v }) os, true)
  store_value name (some v) ArgType.file os = elim (files v) [
    | none ↦ (os, true)
    | some text ↦ ((read_config text os).0, true)
  ]
  store_value name (some v) ArgType.null os = (os, false)
  store_value name (some v) ArgType.max os = (os, false)
  store_value name (some v) type os = (modify_option name (add_value v) os, true)

  -- `set_option`; `false` is the return of NULL.
  unfoldable pub set_option : Text → Option Text → ArgType → List Opt → List Opt × Bool
  unfolding store_value find_option
  set_option name value type os =
      let clear = λ (o : Opt). record o { values = []; type = type } in
      let os1 = modify_option name clear (add_option name os) in
      if refuses (validator name os1) name value
      then (os1, false)
      else if not (is_bool type) && is_empty value
      then (os1, true)
      else store_value name value type os1

  -- `sb_register_arg_set` from one element on; `first` is `set->validate`, and 1 the error return.
  unfoldable pub register_from : Option Validator → List Arg → List Opt → List Opt × ℕ
  unfolding set_option
  register_from first [] os = (os, 0)
  register_from first (a ∷ args) os =
      let (os1, done) = set_option a.name a.value a.type os in
      let rest =
        register_from first args (modify_option a.name (λ o. record o { validate = first }) os1) in
      if done then rest else (os1, 1)

  unfoldable pub register_arg_set : List Arg → List Opt → List Opt × ℕ
  unfolding register_from
  register_arg_set [] os = (os, 0)
  register_arg_set (a ∷ args) os = register_from a.validate (a ∷ args) os

  -- `sb_opt_to_string` and `sb_opt_copy`.
  unfoldable pub opt_copy : Text → Text → List Opt → List Opt × Bool
  unfolding set_option find_option
  opt_copy to from os = elim (find_option from os) [
    | none ↦ (os, false)
    | some o ↦ ((set_option to (opt_to_string o) o.type os).0, true)
  ]
