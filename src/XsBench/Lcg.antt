-- ===== src/XsBench/Lcg.antt =====
-- The generator of benchmarks/XSBench/src/Simulation.c: one step of `LCG_random_double`, and
-- `fast_forward_LCG`, which makes `n` steps in as many rounds as `n` has bits. All products and
-- sums are those of `uint64_t`.
pub mod FastForward
use nu_ksm_pact21_artifact.Base.{
  ℕ, zero, suc, ◌+◌, ◌*◌, ◌/◌, ◌%◌, ◌^◌, Option, none, some, ◌==◌, if◌then◌else◌,
}
use mathlib.Core.Option

abbrev pub m : ℕ
m = 9223372036854775808

abbrev pub a : ℕ
a = 2806196910506780709

abbrev pub c : ℕ
c = 1

abbrev pub add64 : ℕ → ℕ → ℕ
add64 x y = (x + y) % 2 ^ 64

abbrev pub mul64 : ℕ → ℕ → ℕ
mul64 x y = (x * y) % 2 ^ 64

-- The new `*seed` of `LCG_random_double`.
unfoldable pub next_seed : ℕ → ℕ
next_seed seed = add64 (mul64 a seed) c % m

-- The variables of the loop of `fast_forward_LCG`.
pub record Jump : Type 0 where
  pub n : ℕ
  pub a : ℕ
  pub c : ℕ
  pub a_new : ℕ
  pub c_new : ℕ

-- One round of the loop.
unfoldable pub jump_round : Jump → Jump
jump_round j = record {
  n = j.n / 2;
  a = mul64 j.a j.a;
  c = mul64 j.c (add64 j.a 1);
  a_new = if j.n % 2 == 1 then mul64 j.a_new j.a else j.a_new;
  c_new = if j.n % 2 == 1 then add64 (mul64 j.c_new j.a) j.c else j.c_new;
}

-- `while (n > 0)`; `none` means that the rounds are used up.
unfoldable pub jump_loop : ℕ → Jump → Option Jump
unfolding jump_round
jump_loop zero j = none
jump_loop (suc fuel) j =
    let rest = jump_loop fuel (jump_round j) in if j.n == 0 then some j else rest

abbrev pub jump_start : ℕ → Jump
jump_start n = record { n = n % m; a = a; c = c; a_new = 1; c_new = 0 }

-- `fast_forward_LCG`: 64 rounds, since `n % m` has at most 63 bits.
unfoldable pub fast_forward_lcg : ℕ → ℕ → Option ℕ
fast_forward_lcg seed n =
    Option.map (λ (j : Jump). add64 (mul64 j.a_new seed) j.c_new % m) (jump_loop 64 (jump_start n))
