-- ===== src/Options/Size.antt =====
-- `sb_opt_to_size` of benchmarks/sysbench/src/sb_options.c: decimal digits, then one modifier.
pub mod Digits
use nu_ksm_pact21_artifact.Base.{
  ℕ, zero, suc, ◌+◌, ◌-◌, ◌*◌, ◌%◌, ◌^◌, Bool, true, false, Option, none, some, List, [], ◌∷◌, ◌&&◌,
  ◌==◌, leb, if◌then◌else◌,
}
use nu_ksm_pact21_artifact.Options.{Text, Opt}

abbrev pub is_digit : ℕ → Bool
is_digit c = leb b'0' c && leb c b'9'

-- `toupper` in the "C" locale.
abbrev pub to_upper : ℕ → ℕ
to_upper c = if leb b'a' c && leb c b'z' then c - 32 else c

-- The position of the modifier in "KMGT", and the power of 1024 that goes with it.
unfoldable pub modifier_power : ℕ → Option ℕ
modifier_power mult =
    let c = to_upper mult in
    if c == b'K'
    then some 1
    else if c == b'M'
    then some 2
    else if c == b'G'
    then some 3
    else if c == b'T'
    then some 4
    else none

-- `for (i = 0; i <= n; i++) res *= 1024;`
unfoldable pub scale : ℕ → ℕ → ℕ
scale zero res = res
scale (suc n) res = scale n (res * 1024 % 2 ^ 64)

-- The loop over the digits: `seen` is `rc == 1`. The result has the byte that ends the number, if
-- digits stand before it.
unfoldable pub scan_digits : Text → Bool → ℕ → ℕ × Option ℕ
scan_digits [] seen res = (res, none)
scan_digits (c ∷ t) seen res =
    if is_digit c
    then scan_digits t true ((res * 10 + (c - b'0')) % 2 ^ 64)
    else (res, if seen then some c else none)

-- What is done with `res` and `mult` behind the loop.
unfoldable pub apply_modifier : ℕ × Option ℕ → ℕ
unfolding modifier_power scale
apply_modifier (res, none) = res
apply_modifier (res, some mult) = elim (modifier_power mult) [ none ↦ 0 | some n ↦ scale n res ]

unfoldable pub value_size : Text → ℕ
unfolding scan_digits apply_modifier
value_size t = apply_modifier (scan_digits t false 0)

-- `SB_LIST_ONCE`: the first value, or 0.
unfoldable pub opt_to_size : Opt → ℕ
unfolding value_size
opt_to_size o = elim o.values [ [] ↦ 0 | v ∷ vs ↦ value_size v ]
