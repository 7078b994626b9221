-- ===== src/XsBench/Lcg/FastForward.antt =====
-- `fast_forward_LCG` is the iteration of one step.
use native.Mathlib.Nat.{pow-suc}
use nu_ksm_pact21_artifact.Base.{
  ℕ, zero, suc, ◌+◌, ◌*◌, ◌/◌, ◌%◌, ◌^◌, ◌<◌, ◌≡◌, ◌∙◌, refl, sym, ap, fun_ext, false, inl, inr,
  some, arith, ◌==◌, Bool-cases,
}
use nu_ksm_pact21_artifact.XsBench.Lcg.{
  m, a, c, add64, mul64, next_seed, Jump, jump_loop, fast_forward_lcg,
}

-- `x` and `y` leave the same remainder modulo `m`.
record Cong (x y : ℕ) : Type 0 where
  k : ℕ
  l : ℕ
  eq : x + m * k ≡ y + m * l

Cong-refl : (x : ℕ) → Cong x x
Cong-refl x = record { k = 0; l = 0; eq = refl }

Cong-of_eq : (x y : ℕ) → x ≡ y → Cong x y
Cong-of_eq x y e = record { k = 0; l = 0; eq = omega arith }

Cong-sym : {x y : ℕ} → Cong x y → Cong y x
Cong-sym e = record { k = e.l; l = e.k; eq = sym e.eq }

Cong-trans : {x y z : ℕ} → Cong x y → Cong y z → Cong x z
Cong-trans e f = record {
  k = e.k + f.k;
  l = e.l + f.l;
  eq = let p = e.eq in let q = f.eq in omega arith;
}

Cong-add : {x y z w : ℕ} → Cong x y → Cong z w → Cong (x + z) (y + w)
Cong-add e f = record {
  k = e.k + f.k;
  l = e.l + f.l;
  eq = let p = e.eq in let q = f.eq in omega arith;
}

Cong-mul_right : {x y : ℕ} (z : ℕ) → Cong x y → Cong (x * z) (y * z)
Cong-mul_right z e = record {
  k = e.k * z;
  l = e.l * z;
  eq = omega (arith, ap (λ (t : ℕ). t * z) e.eq);
}

Cong-mul_left : {x y : ℕ} (z : ℕ) → Cong x y → Cong (z * x) (z * y)
Cong-mul_left z e = record {
  k = e.k * z;
  l = e.l * z;
  eq = omega (arith, ap (λ (t : ℕ). t * z) e.eq);
}

Cong-mod64 : (x : ℕ) → Cong (x % 2 ^ 64) x
Cong-mod64 x = record { k = 2 * (x / 2 ^ 64); l = 0; eq = omega arith }

Cong-mod : (x : ℕ) → Cong (x % m) x
Cong-mod x = record { k = x / m; l = 0; eq = omega arith }

mod_of_Cong : {x y : ℕ} → Cong x y → x % m ≡ y % m
mod_of_Cong e = let p = e.eq in omega arith

-- The affine map with factor `f` and offset `g`, modulo `m`.
abbrev affine : ℕ → ℕ → ℕ → ℕ
affine f g x = (f * x + g) % m

unfoldable pub iterate : ℕ → (ℕ → ℕ) → ℕ → ℕ
iterate zero h x = x
iterate (suc n) h x = iterate n h (h x)

iterate-double :
    (n k : ℕ) (h : ℕ → ℕ) (x : ℕ) → k ≡ n + n → iterate n (λ y. h (h y)) x ≡ iterate k h x
unfolding iterate
iterate-double zero zero h x e = refl
iterate-double zero (suc k) h x e = absurd (omega arith)
iterate-double (suc n) zero h x e = absurd (omega arith)
iterate-double (suc n) (suc zero) h x e = absurd (omega arith)
iterate-double (suc n) (suc (suc k)) h x e = iterate-double n k h (h (h x)) (omega arith)

-- The loop's new step is two old ones.
affine-affine : (f g x : ℕ) → affine (mul64 f f) (mul64 g (add64 f 1)) x ≡ affine f g (affine f g x)
affine-affine f g x =
    let once = Cong-add (Cong-mul_left f (Cong-mod (f * x + g))) (Cong-refl g) in
    let factor = Cong-mul_right x (Cong-mod64 (f * f)) in
    let offset = Cong-trans (Cong-mod64 (g * add64 f 1)) (Cong-mul_left g (Cong-mod64 (f + 1))) in
    let same = Cong-of_eq (f * f * x + g * (f + 1)) (f * (f * x + g) + g) (omega arith) in
    mod_of_Cong (Cong-trans (Cong-add factor offset) (Cong-trans same (Cong-sym once)))

-- The loop's new accumulated map is one more step behind the old one.
affine-step :
    (f g f' g' x : ℕ) → affine (mul64 f' f) (add64 (mul64 g' f) g) x ≡ affine f g (affine f' g' x)
affine-step f g f' g' x =
    let once = Cong-add (Cong-mul_left f (Cong-mod (f' * x + g'))) (Cong-refl g) in
    let factor = Cong-mul_right x (Cong-mod64 (f' * f)) in
    let offset =
      Cong-trans (Cong-mod64 (mul64 g' f + g)) (Cong-add (Cong-mod64 (g' * f)) (Cong-refl g)) in
    let same = Cong-of_eq (f' * f * x + (g' * f + g)) (f * (f' * x + g') + g) (omega arith) in
    mod_of_Cong (Cong-trans (Cong-add factor offset) (Cong-trans same (Cong-sym once)))

abbrev jump : (n a c a_new c_new : ℕ) → Jump
jump n f g f' g' = record { n = n; a = f; c = g; a_new = f'; c_new = g' }

jump_loop-iterate :
    (k n f g f' g' x : ℕ)
    → n < 2 ^ k
    → (r : Jump) × (jump_loop (suc k) (jump n f g f' g') ≡ some r)
      × (affine r.a_new r.c_new x ≡ iterate n (affine f g) (affine f' g' x))
unfolding jump_loop iterate
jump_loop-iterate zero zero f g f' g' x h = (jump 0 f g f' g', refl, refl)
jump_loop-iterate zero (suc n) f g f' g' x h = absurd (omega arith)
jump_loop-iterate (suc k) zero f g f' g' x h = (jump 0 f g f' g', refl, refl)
jump_loop-iterate (suc k) (suc n) f g f' g' x h =
    let half : suc n / 2 < 2 ^ k = omega (arith, pow-suc 2 k) in
    let f2 = mul64 f f in
    let g2 = mul64 g (add64 f 1) in
    let nonzero : (suc n == 0) ≡ false = ground arith in
    let twice = fun_ext (affine-affine f g) in
    elim (Bool-cases (suc n % 2 == 1)) [
      | inl odd ↦
          let (r, run, e) =
            jump_loop-iterate k (suc n / 2) f2 g2 (mul64 f' f) (add64 (mul64 g' f) g) x half in
          (
            r,
            rw (nonzero, odd) run,
            e
                ∙ rw (twice, affine-step f g f' g' x)
                    (iterate-double (suc n / 2) n (affine f g) _ (ground arith)),
          )
      | inr even ↦
          let (r, run, e) = jump_loop-iterate k (suc n / 2) f2 g2 f' g' x half in
          (
            r,
            rw (nonzero, even) run,
            e ∙ rw twice (iterate-double (suc n / 2) (suc n) (affine f g) _ (ground arith)),
          )
    ]

-- `next_seed` is the affine map of the parameters.
next_seed-affine : (x : ℕ) → next_seed x ≡ affine a c x
unfolding next_seed
next_seed-affine x =
    mod_of_Cong (Cong-trans (Cong-mod64 _) (Cong-add (Cong-mod64 (a * x)) (Cong-refl c)))

-- For a seed below 2 ^ 63, the loop of `fast_forward_LCG` ends within its 64 rounds, and the result is
-- the seed after `n % 2 ^ 63` calls of `LCG_random_double`.
pub fast_forward_lcg-iterate :
    (seed n : ℕ) → seed < m → fast_forward_lcg seed n ≡ some (iterate (n % m) next_seed seed)
unfolding fast_forward_lcg
fast_forward_lcg-iterate seed n h =
    let (r, run, e) = jump_loop-iterate 63 (n % m) a c 1 0 seed (omega arith) in
    let value =
      mod_of_Cong
        (Cong-trans (Cong-mod64 _) (Cong-add (Cong-mod64 (r.a_new * seed)) (Cong-refl r.c_new))) in
    let start : affine 1 0 seed ≡ seed = omega arith in
    rw run (ap some (value ∙ e ∙ rw (start, fun_ext next_seed-affine)))
