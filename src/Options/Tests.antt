-- ===== src/Options/Tests.antt =====
-- Two small options, and the theorems on the table at them.
use nu_ksm_pact21_artifact.Base.{
  ◌*◌, ◌^◌, ◌%◌, ◌≤◌, ◌≡◌, ◌↔◌, length, refl, true, false, Option, none, some, List, [], ◌∷◌, ◌++◌,
  arith, ◌==◌, if◌then◌else◌,
}
use nu_ksm_pact21_artifact.Options.{
  Text, ArgType, Validator, Opt, convert_dashes, same_name, find_option, modify_option, new_option,
  add_option,
}
use nu_ksm_pact21_artifact.Options.Names.{IsText, same_name_iff}
use nu_ksm_pact21_artifact.Options.Lookup.{
  IsTable, or_else, find_option-same_name, find_option-add_option,
}
use nu_ksm_pact21_artifact.Options.Config.{
  delimiter, max_line, read_config, join_values, write_option,
}
use nu_ksm_pact21_artifact.Options.Config.RoundTrip.{
  NoStop, AllBare, is_newline, read_config-write_option, read_config-lost,
}
use nu_ksm_pact21_artifact.Options.Size.{value_size}
use nu_ksm_pact21_artifact.Options.Size.Digits.{
  PowerOf, digits_text, number, value_size-number, value_size-modifier,
}
use nu_ksm_pact21_artifact.Options.Table.{Arg, register_arg_set}
use nu_ksm_pact21_artifact.Options.Table.Register.{register_arg_set-last}

-- The names "a-b" and "a_b".
abbrev dashed : Text
dashed = b'a' ∷ b'-' ∷ b'b' ∷ []

abbrev underscored : Text
underscored = b'a' ∷ b'_' ∷ b'b' ∷ []

dashed-IsText : IsText dashed
dashed-IsText = (ground arith, (ground arith, (ground arith, tt)))

underscored-IsText : IsText underscored
underscored-IsText = (ground arith, (ground arith, (ground arith, tt)))

same_name_iff_example :
    (same_name dashed underscored ≡ true) ↔ (convert_dashes dashed ≡ convert_dashes underscored)
same_name_iff_example = same_name_iff dashed underscored dashed-IsText underscored-IsText

-- The option `a_b` with the values "x" and "yz".
abbrev an_option : Opt
an_option = record {
  name = underscored;
  type = ArgType.list;
  validate = none;
  values = (b'x' ∷ []) ∷ (b'y' ∷ b'z' ∷ []) ∷ [];
  ignore = false;
}

abbrev table : List Opt
table = an_option ∷ []

table-IsTable : IsTable table
table-IsTable = (underscored-IsText, tt)

find_option-same_name_example : find_option dashed table ≡ find_option underscored table
unfolding same_name
find_option-same_name_example =
    find_option-same_name dashed underscored table dashed-IsText underscored-IsText table-IsTable
      refl

find_option-add_option_example :
    find_option dashed (add_option underscored [])
    ≡ or_else
        (find_option dashed [])
        (if same_name underscored dashed then some (new_option underscored) else none)
find_option-add_option_example =
    find_option-add_option underscored dashed [] underscored-IsText dashed-IsText tt

name-NoStop : NoStop (λ c. c == delimiter) underscored
name-NoStop = (refl, (refl, (refl, tt)))

values-AllBare : AllBare an_option.values
values-AllBare = ((refl, ground arith, (refl, tt)), ((refl, ground arith, (refl, (refl, tt))), tt))

name-newline : NoStop is_newline underscored
name-newline = (refl, (refl, (refl, tt)))

short_line : length (write_option an_option) ≤ max_line
unfolding write_option join_values
short_line = omega arith

read_config-write_option_example :
    read_config (write_option an_option ++ (10 ∷ [])) []
    ≡ read_config (10 ∷ []) (
        modify_option
          (underscored ++ (32 ∷ []))
          (λ p. record p { values = an_option.values })
          (add_option (underscored ++ (32 ∷ [])) []))
read_config-write_option_example =
    read_config-write_option an_option (10 ∷ []) [] name-NoStop name-newline values-AllBare
      short_line

read_config-lost_example :
    find_option underscored (read_config (write_option an_option) []).0 ≡ none
unfolding find_option
read_config-lost_example =
    read_config-lost an_option [] underscored-IsText name-NoStop name-newline values-AllBare
      short_line tt refl

value_size-number_example : value_size (digits_text (1 ∷ 2 ∷ [])) ≡ number 0 (1 ∷ 2 ∷ []) % 2 ^ 64
value_size-number_example = value_size-number 1 (2 ∷ []) (omega arith, (omega arith, tt))

value_size-modifier_example :
    value_size (digits_text (1 ∷ 2 ∷ []) ++ (b'm' ∷ [])) ≡ number 0 (1 ∷ 2 ∷ []) * 1024 ^ 2 % 2 ^ 64
value_size-modifier_example =
    value_size-modifier 1 (2 ∷ []) b'm' 2 [] (omega arith, (omega arith, tt)) PowerOf.lower_m

-- A validator that takes everything.
abbrev lenient : Validator
lenient name value = true

abbrev no_files : Text → Option Text
no_files name = none

abbrev first_arg : Arg
first_arg = record {
  name = b'p' ∷ [];
  value = some (b'1' ∷ []);
  type = ArgType.int;
  validate = some lenient;
}

abbrev last_arg : Arg
last_arg = record {
  name = b'q' ∷ [];
  value = some (b'2' ∷ []);
  type = ArgType.int;
  validate = none;
}

abbrev registered : Text → Text → Opt
registered name value = record {
  name = name;
  type = ArgType.int;
  validate = some lenient;
  values = value ∷ [];
  ignore = false;
}

abbrev both : List Opt
both = registered (b'p' ∷ []) (b'1' ∷ []) ∷ registered (b'q' ∷ []) (b'2' ∷ []) ∷ []

register_arg_set-last_example : (registered (b'q' ∷ []) (b'2' ∷ [])).validate ≡ first_arg.validate
unfolding register_arg_set find_option modify_option add_option same_name convert_dashes
register_arg_set-last_example =
    register_arg_set-last no_files first_arg [] last_arg [] both
      (registered (b'q' ∷ []) (b'2' ∷ [])) refl refl
