-- ===== src/Pages/Run.antt =====
-- Whole runs of basic-inputpages-pin.c.
use nu_ksm_pact21_artifact.Base.{
  ℕ, zero, suc, ◌+◌, ◌*◌, ◌^◌, ◌≤◌, ◌<◌, ◌≡◌, ◌⊎◌, refl, ap, ◌∙◌, inl, inr, Option, none, some,
  List, [], ◌∷◌, arith, Option-cases,
}
use nu_ksm_pact21_artifact.Pages.{
  Text, size, cells, product, Memory, Line, mapped_at, populated, starting, Process, map_zero,
  multiplier, step, run,
}
use nu_ksm_pact21_artifact.Pages.Size.{cells-size, cells-size_lt}
use nu_ksm_pact21_artifact.Pages.Populate.{
  fill, fill-before, fill-after, fill-cell, at_loop, asleep, run-some, run-fill,
}

-- The first `n` cells from `addr` on hold the products of their numbers; the other addresses are as
-- they were.
pub record IsFilled (addr n factor : ℕ) (before after : Memory) : Type 0 where
  pub inside : (k : ℕ) → k < n → after (addr + 4 * k) ≡ some (product k factor)
  pub outside : (a : ℕ) → (a < addr) ⊎ (addr + 4 * n ≤ a) → after a ≡ before a

pub map_zero-inside :
    (addr bytes n k : ℕ) (memory : Memory)
    → 4 * n ≡ bytes
    → k < n
    → map_zero addr bytes memory (addr + 4 * k) ≡ some 0
map_zero-inside addr bytes n k memory e h = ground arith

pub map_zero-outside :
    (addr bytes a : ℕ) (memory : Memory)
    → (a < addr) ⊎ (addr + bytes ≤ a)
    → map_zero addr bytes memory a ≡ memory a
map_zero-outside addr bytes a memory h = ground arith

filled_cell :
    (addr n factor k : ℕ) (memory : Memory)
    → addr + 4 * n ≤ 2 ^ 64
    → k < n
    → fill addr factor n 0 memory (addr + 4 * k) ≡ some (product k factor)
filled_cell addr n factor k memory fits h =
    let e : 0 + k ≡ k = omega arith in rw e at (fill-cell n addr factor 0 k memory (omega arith) h)

unfilled :
    (addr n factor a : ℕ) (memory : Memory)
    → addr + 4 * n ≤ 2 ^ 64
    → (a < addr) ⊎ (addr + 4 * n ≤ a)
    → fill addr factor n 0 memory a ≡ memory a
unfilled addr n factor a memory fits (inl low) =
    fill-before n addr factor 0 a memory (omega arith) (omega arith)
unfilled addr n factor a memory fits (inr high) =
    fill-after n addr factor 0 a memory (omega arith) (omega arith)

pub fill-IsFilled :
    (addr bytes n factor : ℕ) (memory : Memory)
    → 4 * n ≡ bytes
    → addr + bytes ≤ 2 ^ 64
    → IsFilled addr n factor memory (fill addr factor n 0 (map_zero addr bytes memory))
fill-IsFilled addr bytes n factor memory e fits = record {
  inside = λ k h. filled_cell addr n factor k (map_zero addr bytes memory) (omega arith) h;
  outside = λ a h.
      unfilled addr n factor a (map_zero addr bytes memory) (omega arith) h
      ∙ map_zero-outside addr bytes a memory (rw (← e) h);
}

-- The process as the system starts it.
abbrev pub begin : Text → List Text → Memory → Process
begin name args memory = record { control = starting name args; memory = memory; output = [] }

module _ (atoi : Text → ℕ) (mmap : ℕ → Option ℕ) where
  pub run-asleep :
      (n : ℕ) (memory : Memory) (output : List Line)
      → run atoi mmap n (asleep memory output) ≡ asleep memory output
  unfolding run step
  run-asleep zero memory output = refl
  run-asleep (suc n) memory output = run-asleep n memory output

  pub run-ended : (n : ℕ) (p : Process) → step atoi mmap p ≡ none → run atoi mmap n p ≡ p
  unfolding run
  run-ended zero p e = refl
  run-ended (suc n) p e = rw e refl

  pub run-add :
      (m n : ℕ) (p : Process) → run atoi mmap (m + n) p ≡ run atoi mmap n (run atoi mmap m p)
  unfolding run
  run-add zero n p = let e : 0 + n ≡ n = omega arith in rw e refl
  run-add (suc m) n p =
      let e : suc m + n ≡ suc (m + n) = omega arith in
      elim (Option-cases (step atoi mmap p)) [
        | inl ended ↦ rw (run-ended (suc m + n) p ended, ended, run-ended n p ended) refl
        | inr (q, e') ↦ rw (e, e') (run-add m n q)
      ]

  -- The first step of a run with arguments.
  pub step-begin :
      (name pages : Text) (rest : List Text) (memory : Memory) (addr : ℕ)
      → let bytes = size (atoi pages) in
        mmap bytes ≡ some addr
        → step atoi mmap (begin name (pages ∷ rest) memory)
          ≡ some (
              at_loop addr bytes
                (multiplier atoi mmap (pages ∷ rest))
                0
                (map_zero addr bytes memory)
                (mapped_at addr ∷ []))
  unfolding step
  step-begin name pages rest memory addr e = rw e refl

  -- Where `mmap` returns a mapping that does not go past the end of the address space, `main` fills
  -- every cell of it within as many rounds as there are cells, leaves the rest of the memory as it
  -- was, prints its two lines in order, and then stays in the endless loop for any number of steps
  -- more.
  pub run-IsFilled :
      (name pages : Text) (rest : List Text) (memory : Memory) (addr extra : ℕ)
      → mmap (size (atoi pages)) ≡ some addr
      → addr + size (atoi pages) ≤ 2 ^ 64
      → let n = cells (size (atoi pages)) in
        (after : Memory) × (run atoi mmap (n + 2 + extra) (begin name (pages ∷ rest) memory)
          ≡ asleep after (populated ∷ mapped_at addr ∷ []))
        × IsFilled addr n (multiplier atoi mmap (pages ∷ rest)) memory after
  run-IsFilled name pages rest memory addr extra mapped fits =
      let bytes = size (atoi pages) in
      let n = cells bytes in
      let factor = multiplier atoi mmap (pages ∷ rest) in
      let whole = cells-size (atoi pages) in
      let zeros = map_zero addr bytes memory in
      let after = fill addr factor n 0 zeros in
      let lines = mapped_at addr ∷ [] in
      let count : n + 2 ≡ suc (suc n) = omega arith in
      let first = step-begin name pages rest memory addr mapped in
      let fill_all =
        run-fill atoi mmap n addr bytes factor 0 zeros lines (omega arith)
          (cells-size_lt (atoi pages)) (omega arith)
          (λ k h. (0, map_zero-inside addr bytes n k memory whole h)) in
      let main = run-some atoi mmap (suc n) (begin name (pages ∷ rest) memory) _ first ∙ fill_all in
      (
        after,
        run-add (n + 2) extra (begin name (pages ∷ rest) memory)
            ∙ ap (run atoi mmap extra) (rw count main)
            ∙ run-asleep extra after (populated ∷ lines),
        fill-IsFilled addr bytes n factor memory whole fits,
      )
