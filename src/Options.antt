-- ===== src/Options.antt =====
-- The option table of benchmarks/sysbench/src/sb_options.c. A C string is the list of its bytes
-- before the terminator; the table and an option's values are the lists that the intrusive
-- `sb_list_t`s stand for. Memory allocation is taken to succeed.
pub mod Names
pub mod Lookup
pub mod Table
pub mod Size
pub mod Config
pub mod Tests
use nu_ksm_pact21_artifact.Base.{
  ℕ, Bool, true, false, Option, none, some, List, [], ◌∷◌, ◌++◌, ◌||◌, ◌&&◌, ◌==◌, if◌then◌else◌,
}

abbrev pub Text : Type 0
Text = List ℕ

-- `sb_arg_type_t`
pub data ArgType : Type 0 where
  null bool int size double string list file max : ArgType

abbrev pub Validator : Type 0
Validator = Text → Option Text → Bool

-- `option_t`; `validate` is `none` for a NULL function pointer.
pub record Opt : Type 0 where
  pub name : Text
  pub type : ArgType
  pub validate : Option Validator
  pub values : List Text
  pub ignore : Bool

abbrev pub is_dash : ℕ → Bool
is_dash c = c == b'-' || c == b'_'

-- `convert_dashes`
unfoldable pub convert_dashes : Text → Text
convert_dashes [] = []
convert_dashes (c ∷ s) = (if c == b'-' then b'_' else c) ∷ convert_dashes s

-- `opt_name_cmp`: the two bytes whose difference it returns.
unfoldable pub opt_name_cmp : Text → Text → ℕ × ℕ
opt_name_cmp [] [] = (0, 0)
opt_name_cmp [] (b ∷ s2) = (0, b)
opt_name_cmp (a ∷ s1) [] = (a, 0)
opt_name_cmp (a ∷ s1) (b ∷ s2) =
    if a == b || is_dash a && is_dash b then opt_name_cmp s1 s2 else (a, b)

-- `!opt_name_cmp(s1, s2)`
unfoldable pub same_name : Text → Text → Bool
unfolding opt_name_cmp
same_name s1 s2 = let (a, b) = opt_name_cmp s1 s2 in a == b

unfoldable pub find_option : Text → List Opt → Option Opt
find_option name [] = none
find_option name (o ∷ os) = if same_name o.name name then some o else find_option name os

-- A change of the option that `find_option` returns a pointer to.
unfoldable pub modify_option : Text → (Opt → Opt) → List Opt → List Opt
modify_option name f [] = []
modify_option name f (o ∷ os) =
    if same_name o.name name then f o ∷ os else o ∷ modify_option name f os

-- `new_option`, named: `memset` leaves type 0, no validator and `ignore` false.
unfoldable pub new_option : Text → Opt
new_option name = record {
  name = convert_dashes name;
  type = null;
  validate = none;
  values = [];
  ignore = false;
}

unfoldable pub add_option : Text → List Opt → List Opt
unfolding find_option new_option
add_option name os = elim (find_option name os) [
  | some o ↦ os
  | none ↦ os ++ (new_option name ∷ [])
]

-- `SB_LIST_DELETE` of the option found; 1 is the error return.
unfoldable pub remove_option : Text → List Opt → ℕ × List Opt
remove_option name [] = (1, [])
remove_option name (o ∷ os) =
    let (rc, rest) = remove_option name os in
    if same_name o.name name then (0, os) else (rc, o ∷ rest)

abbrev pub add_value : Text → Opt → Opt
add_value v o = record o { values = o.values ++ (v ∷ []) }

abbrev pub free_values : Opt → Opt
free_values o = record o { values = [] }
