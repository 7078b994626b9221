-- ===== src/Pages/Content.antt =====
-- Which pages that basic-inputpages-pin.c fills have the same content.
use native.Mathlib.Nat.{pow-suc}
use native.Mathlib.Decide.{dec_le}
use nu_ksm_pact21_artifact.Base.{
  ℕ, zero, suc, ◌+◌, ◌-◌, ◌*◌, ◌/◌, ◌%◌, ◌^◌, ◌≤◌, ◌<◌, ◌≡◌, ◌↔◌, sym, ap, ◌∙◌, inl, inr, arith,
  ltb, Bool-cases,
}
use nu_ksm_pact21_artifact.Pages.{product}

-- Page `p` of one process and page `q` of another have the same 1024 cells, whatever the addresses.
abbrev pub SamePage : ℕ → ℕ → ℕ → ℕ → Type 0
SamePage factor p factor' q =
    (j : ℕ) → j < 1024 → product (1024 * p + j) factor ≡ product (1024 * q + j) factor'

-- Only the low 32 bits of the factor count.
product-mod : (i factor : ℕ) → factor < 2 ^ 32 → product i factor ≡ i * factor % 2 ^ 32
unfolding product
product-mod i factor h = elim (Bool-cases (ltb factor (2 ^ 31))) [
  | inl small ↦ rw small (omega arith)
  | inr large ↦ rw large (omega arith)
]

SamePage-head :
    (factor p factor' q : ℕ)
    → factor < 2 ^ 32
    → factor' < 2 ^ 32
    → SamePage factor p factor' q
    → (factor ≡ factor') × (1024 * p * factor % 2 ^ 32 ≡ 1024 * q * factor % 2 ^ 32)
SamePage-head factor p factor' q h h' same =
    let first =
      rw (product-mod (1024 * p + 0) factor h, product-mod (1024 * q + 0) factor' h') at
        (same 0 (omega arith)) in
    let second =
      rw (product-mod (1024 * p + 1) factor h, product-mod (1024 * q + 1) factor' h') at
        (same 1 (omega arith)) in
    let equal : factor ≡ factor' = omega arith in
    (equal, omega (arith, ap (λ (f : ℕ). 1024 * q * f) equal))

-- Two pages, of one process or of two, are the same exactly when the factors are the same number and
-- the first cells are equal.
pub SamePage-iff :
    (factor p factor' q : ℕ)
    → factor < 2 ^ 32
    → factor' < 2 ^ 32
    → SamePage factor p factor' q
      ↔ ((factor ≡ factor') × (1024 * p * factor % 2 ^ 32 ≡ 1024 * q * factor % 2 ^ 32))
SamePage-iff factor p factor' q h h' =
    (SamePage-head factor p factor' q h h', λ (e, first) j lt. back e first j)
  where
    back :
        factor ≡ factor'
        → 1024 * p * factor % 2 ^ 32 ≡ 1024 * q * factor % 2 ^ 32
        → (j : ℕ) → product (1024 * p + j) factor ≡ product (1024 * q + j) factor'
    back e first j =
        rw (← e, product-mod (1024 * p + j) factor h, product-mod (1024 * q + j) factor h)
          (omega arith)

-- An odd factor can be cancelled.
odd_half : (a f r : ℕ) → f % 2 ≡ 1 → a * f ≡ 2 * r → (a ≡ 2 * (a / 2)) × (a / 2 * f ≡ r)
odd_half a f r odd e =
    let g = f / 2 in
    let half : f ≡ 2 * g + 1 = omega arith in
    let e' : a * (2 * g + 1) ≡ 2 * r = ap (λ (x : ℕ). a * x) (sym half) ∙ e in
    let even : a ≡ 2 * (a / 2) = omega arith in
    let doubled : 2 * (a / 2 * f) ≡ 2 * r = omega (arith, ap (λ (x : ℕ). x * f) even) in
    (even, omega arith)

double : (k a s : ℕ) → a ≡ 2 * (a / 2) → a / 2 ≡ 2 ^ k * s → a ≡ 2 ^ suc k * s
double k a s even half =
    let power = pow-suc 2 k in even ∙ ap (λ (x : ℕ). 2 * x) half ∙ rw power (omega arith)

odd_cancel : (k a f t : ℕ) → f % 2 ≡ 1 → a * f ≡ 2 ^ k * t → (s : ℕ) × (a ≡ 2 ^ k * s)
odd_cancel zero a f t odd e = (a, omega arith)
odd_cancel (suc k) a f t odd e =
    let e' : a * f ≡ 2 * (2 ^ k * t) = e ∙ rw pow-suc (omega arith) in
    let (even, rest) = odd_half a f (2 ^ k * t) odd e' in
    let (s, ih) = odd_cancel k (a / 2) f t odd rest in (s, double k a s even ih)

apart :
    (f p q : ℕ)
    → f % 2 ≡ 1
    → p < 2 ^ 22
    → q ≤ p
    → 1024 * p * f % 2 ^ 32 ≡ 1024 * q * f % 2 ^ 32
    → p ≡ q
apart f p q odd hp le e =
    let d = p - q in
    let split : p ≡ q + d = omega arith in
    let product_split : p * f ≡ q * f + d * f = omega (arith, ap (λ (x : ℕ). x * f) split) in
    let multiple : d * f % 2 ^ 22 ≡ 0 = omega arith in
    let (s, whole) = odd_cancel 22 d f (d * f / 2 ^ 22) odd (omega arith) in omega arith

-- With an odd factor, such as the default of 1, and as long as it has at most 2 ^ 22 pages, no two
-- pages of one process have the same content.
pub SamePage-eq :
    (factor p q : ℕ)
    → factor < 2 ^ 32
    → factor % 2 ≡ 1
    → p < 2 ^ 22
    → q < 2 ^ 22
    → SamePage factor p factor q
    → p ≡ q
SamePage-eq factor p q h odd hp hq same =
    let (e, first) = SamePage-head factor p factor q h h same in
    elim (dec_le q p) [
      | yes above ↦ apart factor p q odd hp above first
      | no below ↦ sym (apart factor q p odd hq (omega arith) (sym first))
    ]
