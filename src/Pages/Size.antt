-- ===== src/Pages/Size.antt =====
-- The sizes that the program computes in 64 bits.
use native.Mathlib.Decide.{dec_le}
use nu_ksm_pact21_artifact.Base.{ℕ, ◌+◌, ◌-◌, ◌*◌, ◌^◌, ◌≤◌, ◌<◌, ◌≡◌, ◌⊎◌, inl, inr, arith}
use nu_ksm_pact21_artifact.Pages.{size, cells}

size-small : (n : ℕ) → n < 2 ^ 31 → size n ≡ 4096 * n
unfolding size
size-small n h = ground arith

size-negative : (n : ℕ) → 2 ^ 31 ≤ n → n < 2 ^ 32 → size n + 4096 * (2 ^ 32 - n) ≡ 2 ^ 64
unfolding size
size-negative n h small = ground arith

-- For an `int` that is not negative the size is 4096 bytes for each page, without wrap-around. For
-- the negative `int` of the pattern `n`, which is `n - 2 ^ 32`, the size is `2 ^ 64` less 4096 bytes
-- for each page below zero, so that at least `2 ^ 64 - 2 ^ 43` bytes are asked for.
pub size_bounds :
    (n : ℕ)
    → n < 2 ^ 32
    → ((n < 2 ^ 31) × (size n ≡ 4096 * n))
      ⊎ ((2 ^ 31 ≤ n) × (size n + 4096 * (2 ^ 32 - n) ≡ 2 ^ 64) × (2 ^ 64 ≤ size n + 2 ^ 43))
size_bounds n h = elim (dec_le (2 ^ 31) n) [
  | yes negative ↦ let wrapped = size-negative n negative h in inr (negative, wrapped, omega arith)
  | no small ↦ inl (omega arith, size-small n (omega arith))
]

pub size-lt : (n : ℕ) → size n < 2 ^ 64
unfolding size
size-lt n = omega arith

-- A size is whole pages of 4096 bytes: 1024 cells to a page.
pub cells-size : (n : ℕ) → 4 * cells (size n) ≡ size n
unfolding size cells
cells-size n = omega arith

pub cells-size_lt : (n : ℕ) → cells (size n) < 2 ^ 62
unfolding size cells
cells-size_lt n = omega arith
