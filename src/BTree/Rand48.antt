-- ===== src/BTree/Rand48.antt =====
-- The generator at the end of benchmarks/btree/btree.c, whose output picks the keys to look up: 48
-- bits of state in three 16-bit words, multiplied and added word by word. `a` and `c` are constants
-- here: SEED, the only code that assigns them, gives them back these values.
pub mod Lcg
use nu_ksm_pact21_artifact.Base.{ℕ, ◌+◌, ◌*◌, ◌/◌, ◌%◌, ◌^◌, if◌then◌else◌, ltb}

-- `x[0]`, `x[1]` and `x[2]`.
pub record State : Type 0 where
  pub x0 : ℕ
  pub x1 : ℕ
  pub x2 : ℕ

abbrev pub a0 : ℕ
a0 = 0xE66D

abbrev pub a1 : ℕ
a1 = 0xDEEC

abbrev pub a2 : ℕ
a2 = 0x5

abbrev pub c : ℕ
c = 0xB

-- `LOW(x)`: the low word of `(unsigned) x`.
unfoldable pub low : ℕ → ℕ
low x = x % 2 ^ 32 % 2 ^ 16

-- `MUL` first stores the product in an `int32_t`, and `HIGH` shifts that signed number: the high
-- word of the shifted number is the one of the 32-bit pattern.
unfoldable pub high : ℕ → ℕ
high x = x % 2 ^ 32 / 2 ^ 16 % 2 ^ 16

-- `CARRY(x, y)` of two words, and of a word and a carry.
unfoldable pub carry : ℕ → ℕ → ℕ
carry x y = if ltb 0xFFFF (x + y) then 1 else 0

-- `next`. The sum for `x[2]` is of type `uint64_t`.
unfoldable pub next : State → State
next s =
    let p0 = low (a0 * s.x0) in
    let p1 = high (a0 * s.x0) in
    let carry0 = carry p0 c in
    let p0' = low (p0 + c) in
    let carry1 = carry p1 carry0 in
    let p1' = low (p1 + carry0) in
    let q0 = low (a0 * s.x1) in
    let q1 = high (a0 * s.x1) in
    let carry0' = carry p1' q0 in
    let p1'' = low (p1' + q0) in
    let r0 = low (a1 * s.x0) in
    let r1 = high (a1 * s.x0) in
    record {
      x0 = low p0';
      x1 = low (p1'' + r0);
      x2 = low (
          (carry0' + carry1 + carry p1'' r0 + q1 + r1 + a0 * s.x2 + a1 * s.x1 + a2 * s.x0)
          % 2 ^ 64);
    }

-- `redisLrand48`
unfoldable pub redis_lrand48 : State → ℕ × State
redis_lrand48 s = let s' = next s in ((s'.x2 * 2 ^ 15 + s'.x1 / 2) % 2 ^ 64, s')

-- `redisSrand48`, given the 32-bit pattern of its argument.
unfoldable pub redis_srand48 : ℕ → State
redis_srand48 seedval = record { x0 = 0x330E; x1 = low seedval; x2 = high seedval }
