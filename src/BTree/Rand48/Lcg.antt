-- ===== src/BTree/Rand48/Lcg.antt =====
-- The word arithmetic of `next` is the 48-bit linear congruential generator of `lrand48`.
use nu_ksm_pact21_artifact.Base.{
  ℕ, ◌+◌, ◌*◌, ◌/◌, ◌%◌, ◌^◌, ◌≤◌, ◌<◌, ◌≡◌, zero, suc, List, [], ◌∷◌, refl, ap, arith,
}
use nu_ksm_pact21_artifact.BTree.Rand48.{
  State, a0, a1, a2, c, low, high, carry, next, redis_lrand48, redis_srand48,
}

-- Every word has 16 bits.
pub record IsState (s : State) : Type 0 where
  pub x0 : s.x0 < 2 ^ 16
  pub x1 : s.x1 < 2 ^ 16
  pub x2 : s.x2 < 2 ^ 16

-- The 48-bit number that the words spell.
abbrev pub value : State → ℕ
value s = s.x0 + 2 ^ 16 * s.x1 + 2 ^ 32 * s.x2

abbrev pub multiplier : ℕ
multiplier = 0x5DEECE66D

low-lt : (x : ℕ) → low x < 2 ^ 16
unfolding low
low-lt x = omega arith

-- `MUL`: two words whose product fits 32 bits.
low-high : (x : ℕ) → x < 2 ^ 32 → low x + 2 ^ 16 * high x ≡ x
unfolding low high
low-high x h = omega arith

-- `ADDEQU`: the word and the carry of a sum of two words.
low-carry : (x y : ℕ) → x < 2 ^ 16 → y < 2 ^ 16 → low (x + y) + 2 ^ 16 * carry x y ≡ x + y
unfolding low carry
low-carry x y hx hy = ground arith

carry-le : (x y : ℕ) → carry x y ≤ 1
unfolding carry
carry-le x y = ground arith

low-div : (x : ℕ) → low x + 2 ^ 16 * (x / 2 ^ 16) ≡ x
unfolding low
low-div x = omega arith

low-mod : (x : ℕ) → low (x % 2 ^ 64) ≡ low x
unfolding low
low-mod x = omega arith

high-lt : (x : ℕ) → high x < 2 ^ 16
unfolding high
high-lt x = omega arith

low-low : (x : ℕ) → low (low x) ≡ low x
unfolding low
low-low x = omega arith

mul_word : (a x : ℕ) → a < 2 ^ 16 → x < 2 ^ 16 → a * x < 2 ^ 32
mul_word a x ha hx = grind arith

module _ (s : State) (v : IsState s) where
  open s use {x0, x1, x2}

  -- What `next` drops is a multiple of 2 ^ 48.
  next_exact : (k : ℕ) × (multiplier * value s + c ≡ value (next s) + 2 ^ 48 * k)
  unfolding next
  next_exact =
      let p0 = low (a0 * x0) in
      let p1 = high (a0 * x0) in
      let carry0 = carry p0 c in
      let p1' = low (p1 + carry0) in
      let q0 = low (a0 * x1) in
      let p1'' = low (p1' + q0) in
      let r0 = low (a1 * x0) in
      let top =
        carry p1' q0
        + carry p1 carry0
        + carry p1'' r0
        + high (a0 * x1)
        + high (a1 * x0)
        + a0 * x2
        + a1 * x1
        + a2 * x0 in
      (
        top / 2 ^ 16 + a1 * x2 + a2 * x1 + 2 ^ 16 * (a2 * x2),
        omega (
          arith,
          low-low (p0 + c),
          low-high (a0 * x0),
          low-high (a0 * x1),
          low-high (a1 * x0),
          low-carry p0 c,
          low-carry p1 carry0,
          low-carry p1' q0,
          low-carry p1'' r0,
          low-lt (a0 * x0),
          high-lt (a0 * x0),
          carry-le p0 c,
          low-lt (p1 + carry0),
          low-lt (a0 * x1),
          low-lt (p1' + q0),
          low-lt (a1 * x0),
          low-div top,
          low-mod top,
          carry-le p1' q0,
          carry-le p1 carry0,
          carry-le p1'' r0,
          high-lt (a0 * x1),
          high-lt (a1 * x0),
        ),
      )

-- The words of a state have 16 bits after every step.
pub next-IsState : (s : State) → IsState (next s)
unfolding next low
next-IsState s = omega arith

-- One step is `x ↦ 0x5DEECE66D * x + 0xB` modulo 2 ^ 48, on the number that the words spell.
pub value-next : (s : State) → IsState s → value (next s) ≡ (multiplier * value s + c) % 2 ^ 48
value-next s v = let (k, e) = next_exact s v in omega (arith, next-IsState s)

-- `lrand48`, as POSIX defines it over a 48-bit number: the new number, and its 31 high bits.
abbrev lcg : ℕ → ℕ
lcg x = (multiplier * x + c) % 2 ^ 48

-- The first `n` results of `lrand48` from the number `x`.
unfoldable pub lrand48_run : ℕ → ℕ → List ℕ
lrand48_run zero x = []
lrand48_run (suc n) x = lcg x / 2 ^ 17 ∷ lrand48_run n (lcg x)

-- The first `n` results of `redisLrand48`.
unfoldable pub redis_run : ℕ → State → List ℕ
redis_run zero s = []
redis_run (suc n) s = let (r, s') = redis_lrand48 s in r ∷ redis_run n s'

output_lem : (s : State) → IsState s → (s.x2 * 2 ^ 15 + s.x1 / 2) % 2 ^ 64 ≡ value s / 2 ^ 17
output_lem s v = omega arith

-- From three 16-bit words, the first `n` results of `redisLrand48` are the 31 high bits of the first
-- `n` numbers of the 48-bit congruential generator of `lrand48`, started at the number that the
-- words spell.
pub redis_run-lrand48_run :
    (n : ℕ) (s : State) → IsState s → redis_run n s ≡ lrand48_run n (value s)
unfolding redis_run lrand48_run redis_lrand48
redis_run-lrand48_run zero s v = refl
redis_run-lrand48_run (suc n) s v = rw (
  output_lem (next s) (next-IsState s),
  redis_run-lrand48_run n (next s) (next-IsState s),
  value-next s v,
)

-- The state that `redisSrand48` makes of a 32-bit seed is three 16-bit words, which spell the seed
-- shifted by 16 bits, plus 0x330E.
pub redis_srand48-value :
    (seedval : ℕ)
    → seedval < 2 ^ 32
    → IsState (redis_srand48 seedval) × (value (redis_srand48 seedval) ≡ 2 ^ 16 * seedval + 0x330E)
unfolding redis_srand48 low high
redis_srand48-value seedval h = (omega arith, omega arith)

-- `next` takes different states of 16-bit words to different states.
pub next-injective : (s t : State) → IsState s → IsState t → next s ≡ next t → s ≡ t
next-injective s t v w e =
    let same : value (next s) ≡ value (next t) = ap value e in
    let eq : value s ≡ value t = omega (arith, value-next s v, value-next t w) in ground arith
