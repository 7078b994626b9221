-- ===== src/Options/Size/Digits.antt =====
-- `sb_opt_to_size` against the number that the digits write.
use mathlib.Core.List.{append-nil}
use nu_ksm_pact21_artifact.Base.{
  ℕ, zero, suc, ◌+◌, ◌-◌, ◌*◌, ◌%◌, ◌^◌, ◌<◌, ◌≡◌, ◌∙◌, refl, sym, ap, true, false, Option, none,
  some, List, [], ◌∷◌, ◌++◌, arith,
}
use nu_ksm_pact21_artifact.Options.{Text}
use nu_ksm_pact21_artifact.Options.Size.{
  is_digit, modifier_power, scale, scan_digits, apply_modifier, value_size,
}

abbrev pub IsDigits : List ℕ → Type 0
IsDigits [] = Unit
IsDigits (d ∷ ds) = (d < 10) × IsDigits ds

-- The text of the digits, and the number that they write after `acc`.
unfoldable pub digits_text : List ℕ → Text
digits_text [] = []
digits_text (d ∷ ds) = (b'0' + d) ∷ digits_text ds

unfoldable pub number : ℕ → List ℕ → ℕ
number acc [] = acc
number acc (d ∷ ds) = number (acc * 10 + d) ds

number-mod :
    (ds : List ℕ) (a b : ℕ) → a % 2 ^ 64 ≡ b % 2 ^ 64 → number a ds % 2 ^ 64 ≡ number b ds % 2 ^ 64
unfolding number
number-mod [] a b e = e
number-mod (d ∷ ds) a b e = number-mod ds (a * 10 + d) (b * 10 + d) (omega arith)

abbrev pub NoDigit : Text → Type 0
NoDigit [] = Unit
NoDigit (c ∷ t) = is_digit c ≡ false

abbrev pub ending : Text → Option ℕ
ending [] = none
ending (c ∷ t) = some c

scan_digits-number :
    (ds : List ℕ) (acc : ℕ) (rest : Text)
    → IsDigits ds
    → NoDigit rest
    → acc < 2 ^ 64
    → scan_digits (digits_text ds ++ rest) true acc ≡ (number acc ds % 2 ^ 64, ending rest)
unfolding scan_digits digits_text number
scan_digits-number [] acc [] h n b = ap (λ k. (k, none)) (omega arith)
scan_digits-number [] acc (c ∷ t) h n b = rw n (ap (λ k. (k, some c)) (omega arith))
scan_digits-number (d ∷ ds) acc rest h n b =
    let digit : is_digit (b'0' + d) ≡ true = let small = h.0 in ground arith in
    let val : b'0' + d - b'0' ≡ d = omega arith in
    rw (digit, val)
      (scan_digits-number ds ((acc * 10 + d) % 2 ^ 64) rest h.1 n (omega arith)
        ∙ ap (λ k. (k, ending rest)) (number-mod ds _ _ (omega arith)))

-- The bytes that stand for the `n`-th power of 1024, in upper and in lower case.
pub data PowerOf : ℕ → ℕ → Type 0 where
  upper_k : PowerOf b'K' 1
  lower_k : PowerOf b'k' 1
  upper_m : PowerOf b'M' 2
  lower_m : PowerOf b'm' 2
  upper_g : PowerOf b'G' 3
  lower_g : PowerOf b'g' 3
  upper_t : PowerOf b'T' 4
  lower_t : PowerOf b't' 4

modifier_power-PowerOf : (c n : ℕ) → PowerOf c n → modifier_power c ≡ some n
unfolding modifier_power
modifier_power-PowerOf _ _ upper_k = refl
modifier_power-PowerOf _ _ lower_k = refl
modifier_power-PowerOf _ _ upper_m = refl
modifier_power-PowerOf _ _ lower_m = refl
modifier_power-PowerOf _ _ upper_g = refl
modifier_power-PowerOf _ _ lower_g = refl
modifier_power-PowerOf _ _ upper_t = refl
modifier_power-PowerOf _ _ lower_t = refl

-- The loop from 0 to `n - 1` multiplies by the `n`-th power of 1024.
scale-power : (n r : ℕ) → n < 5 → scale n (r % 2 ^ 64) ≡ r * 1024 ^ n % 2 ^ 64
unfolding scale
scale-power zero r h = omega arith
scale-power (suc zero) r h = omega arith
scale-power (suc (suc zero)) r h = omega arith
scale-power (suc (suc (suc zero))) r h = omega arith
scale-power (suc (suc (suc (suc zero)))) r h = omega arith
scale-power (suc (suc (suc (suc (suc n))))) r h = absurd (omega arith)

modifier_power-lt : (c n : ℕ) → modifier_power c ≡ some n → (n < 5) × (is_digit c ≡ false)
unfolding modifier_power
modifier_power-lt c n e = ground arith

start :
    (d : ℕ) (ds : List ℕ) (rest : Text)
    → IsDigits (d ∷ ds)
    → NoDigit rest
    → scan_digits (digits_text (d ∷ ds) ++ rest) false 0 ≡ (number 0 (d ∷ ds) % 2 ^ 64, ending rest)
unfolding scan_digits digits_text number
start d ds rest h n =
    let digit : is_digit (b'0' + d) ≡ true = let small = h.0 in ground arith in
    let val : (0 + (b'0' + d - b'0')) % 2 ^ 64 ≡ d = let small = h.0 in omega arith in
    let first : 0 + d ≡ d = omega arith in
    rw (digit, val, first) (scan_digits-number ds d rest h.1 n (let small = h.0 in omega arith))

-- A value of one or more decimal digits alone gives their number, modulo 2 ^ 64.
pub value_size-number :
    (d : ℕ) (ds : List ℕ)
    → IsDigits (d ∷ ds)
    → value_size (digits_text (d ∷ ds)) ≡ number 0 (d ∷ ds) % 2 ^ 64
unfolding value_size
value_size-number d ds h =
    ap apply_modifier (
      ap (λ t. scan_digits t false 0) (sym (append-nil (digits_text (d ∷ ds))))
      ∙ start d ds [] h tt)

-- Behind one or more decimal digits, K, M, G or T (`n` is 1, 2, 3 or 4), in upper or lower case and
-- whatever follows it, multiplies their number by 1024 ^ n, modulo 2 ^ 64.
pub value_size-modifier :
    (d : ℕ) (ds : List ℕ) (c n : ℕ) (rest : Text)
    → IsDigits (d ∷ ds)
    → PowerOf c n
    → value_size (digits_text (d ∷ ds) ++ (c ∷ rest)) ≡ number 0 (d ∷ ds) * 1024 ^ n % 2 ^ 64
unfolding value_size
value_size-modifier d ds c n rest h p =
    let e = modifier_power-PowerOf c n p in
    let (small, stops) = modifier_power-lt c n e in
    ap apply_modifier (start d ds (c ∷ rest) h stops)
    ∙ rw (e, apply_modifier) (scale-power n (number 0 (d ∷ ds)) small)
