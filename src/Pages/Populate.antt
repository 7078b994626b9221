-- ===== src/Pages/Populate.antt =====
-- The loop of basic-inputpages-pin.c that fills the pages.
use nu_ksm_pact21_artifact.Base.{
  ℕ, zero, suc, ◌+◌, ◌*◌, ◌%◌, ◌^◌, ◌≤◌, ◌<◌, ◌≡◌, refl, ap, ◌∙◌, false, inl, inr, some, List, ◌∷◌,
  arith, ◌==◌, ltb, lt→ltb, Bool-cases, Option,
}
use nu_ksm_pact21_artifact.Pages.{
  Text, cells, product, cell_at, Memory, write, Line, populated, populating, sleeping, Process, go,
  print, populate, step, run,
}

-- The cells from `i` on, `rounds` of them, hold their products.
unfoldable pub fill : ℕ → ℕ → ℕ → ℕ → Memory → Memory
fill addr factor zero i memory = memory
fill addr factor (suc rounds) i memory =
    fill addr factor rounds (i + 1) (write memory (cell_at addr i) (product i factor))

pub cell_at-inside : (addr i n : ℕ) → addr + 4 * n ≤ 2 ^ 64 → i < n → cell_at addr i ≡ addr + 4 * i
unfolding cell_at
cell_at-inside addr i n fits h = omega arith

abbrev pub IsMapped : Memory → ℕ → Type 0
IsMapped memory a = (v : ℕ) × (memory a ≡ some v)

IsMapped-write : (memory : Memory) (q v a : ℕ) → IsMapped memory a → IsMapped (write memory q v) a
IsMapped-write memory q v a (w, e) = elim (Bool-cases (a == q)) [
  | inl same ↦ rw same (v, refl)
  | inr other ↦ rw other (w, e)
]

-- The first `n` cells from `addr` on can be written.
abbrev pub AllMapped : Memory → ℕ → ℕ → Type 0
AllMapped memory addr n = (k : ℕ) → k < n → IsMapped memory (addr + 4 * k)

pub AllMapped-write :
    (memory : Memory) (addr n q v : ℕ)
    → AllMapped memory addr n
    → AllMapped (write memory q v) addr n
AllMapped-write memory addr n q v all k h = IsMapped-write memory q v (addr + 4 * k) (all k h)

pub fill-before :
    (rounds addr factor i a : ℕ) (memory : Memory)
    → addr + 4 * (i + rounds) ≤ 2 ^ 64
    → a < addr + 4 * i
    → fill addr factor rounds i memory a ≡ memory a
unfolding fill
fill-before zero addr factor i a memory fits h = refl
fill-before (suc r) addr factor i a memory fits h =
    let at = cell_at-inside addr i (suc i) (omega arith) (omega arith) in
    fill-before r addr factor (i + 1) a (write memory (cell_at addr i) (product i factor))
      (omega arith) (omega arith)
    ∙ ground arith

pub fill-after :
    (rounds addr factor i a : ℕ) (memory : Memory)
    → addr + 4 * (i + rounds) ≤ 2 ^ 64
    → addr + 4 * (i + rounds) ≤ a
    → fill addr factor rounds i memory a ≡ memory a
unfolding fill
fill-after zero addr factor i a memory fits h = refl
fill-after (suc r) addr factor i a memory fits h =
    let at = cell_at-inside addr i (suc i) (omega arith) (omega arith) in
    fill-after r addr factor (i + 1) a (write memory (cell_at addr i) (product i factor))
      (omega arith) (omega arith)
    ∙ ground arith

-- The cell `i + k` of the cells from `i` on.
pub fill-cell :
    (rounds addr factor i k : ℕ) (memory : Memory)
    → addr + 4 * (i + rounds) ≤ 2 ^ 64
    → k < rounds
    → fill addr factor rounds i memory (addr + 4 * (i + k)) ≡ some (product (i + k) factor)
unfolding fill
fill-cell zero addr factor i k memory fits h = absurd (omega arith)
fill-cell (suc r) addr factor i zero memory fits h =
    let at = cell_at-inside addr i (suc i) (omega arith) (omega arith) in
    let none : i + 0 ≡ i = omega arith in
    rw none (
      fill-before r addr factor (i + 1) (addr + 4 * i)
        (write memory (cell_at addr i) (product i factor)) (omega arith) (omega arith)
      ∙ ground arith)
fill-cell (suc r) addr factor i (suc k) memory fits h =
    let next : i + suc k ≡ i + 1 + k = omega arith in
    rw next (
      fill-cell r addr factor (i + 1) k (write memory (cell_at addr i) (product i factor))
        (omega arith) (omega arith))

-- One round.
pub populate-round :
    (addr bytes factor i : ℕ) (p : Process)
    → i < cells bytes
    → cells bytes < 2 ^ 62
    → IsMapped p.memory (cell_at addr i)
    → populate addr bytes factor i p ≡ record p {
      control = populating addr bytes factor (i + 1);
      memory = write p.memory (cell_at addr i) (product i factor);
    }
unfolding populate
populate-round addr bytes factor i p h small (v, e) =
    let next : (i + 1) % 2 ^ 64 ≡ i + 1 = omega arith in rw (lt→ltb i (cells bytes) h, e, next) refl

pub populate-end :
    (addr bytes factor i : ℕ) (p : Process)
    → cells bytes ≤ i
    → populate addr bytes factor i p ≡ go sleeping (print populated p)
unfolding populate
populate-end addr bytes factor i p h =
    let stop : ltb i (cells bytes) ≡ false = ground arith in rw stop refl

-- A process at the test of the `while`, and one in the endless loop.
abbrev pub at_loop : ℕ → ℕ → ℕ → ℕ → Memory → List Line → Process
at_loop addr bytes factor i memory output = record {
  control = populating addr bytes factor i;
  memory = memory;
  output = output;
}

abbrev pub asleep : Memory → List Line → Process
asleep memory output = record { control = sleeping; memory = memory; output = output }

module _ (atoi : Text → ℕ) (mmap : ℕ → Option ℕ) where
  pub run_zero : (p : Process) → run atoi mmap 0 p ≡ p
  unfolding run
  run_zero p = refl

  pub run-some :
      (n : ℕ) (p q : Process)
      → step atoi mmap p ≡ some q
      → run atoi mmap (suc n) p ≡ run atoi mmap n q
  unfolding run
  run-some n p q e = rw e refl

  pub step-populating :
      (addr bytes factor i : ℕ) (memory : Memory) (output : List Line)
      → let p = at_loop addr bytes factor i memory output in
        step atoi mmap p ≡ some (populate addr bytes factor i p)
  unfolding step
  step-populating addr bytes factor i memory output = refl

  -- From the test of the `while` on, with `rounds` cells left.
  pub run-fill :
      (rounds addr bytes factor i : ℕ) (memory : Memory) (output : List Line)
      → i + rounds ≡ cells bytes
      → cells bytes < 2 ^ 62
      → addr + 4 * cells bytes ≤ 2 ^ 64
      → AllMapped memory addr (cells bytes)
      → run atoi mmap (suc rounds) (at_loop addr bytes factor i memory output)
        ≡ asleep (fill addr factor rounds i memory) (populated ∷ output)
  unfolding fill
  run-fill zero addr bytes factor i memory output e small fits all =
      let p = at_loop addr bytes factor i memory output in
      run-some 0 p (populate addr bytes factor i p)
        (step-populating addr bytes factor i memory output)
      ∙ run_zero (populate addr bytes factor i p)
      ∙ populate-end addr bytes factor i p (omega arith)
  run-fill (suc r) addr bytes factor i memory output e small fits all =
      let p = at_loop addr bytes factor i memory output in
      let m = write memory (cell_at addr i) (product i factor) in
      let inside = cell_at-inside addr i (cells bytes) fits (omega arith) in
      run-some (suc r) p (populate addr bytes factor i p)
        (step-populating addr bytes factor i memory output)
      ∙ ap (run atoi mmap (suc r)) (
          populate-round addr bytes factor i p (omega arith) small
            (rw inside (all i (omega arith))))
      ∙ run-fill r addr bytes factor (i + 1) m output (omega arith) small fits
          (AllMapped-write memory addr (cells bytes) (cell_at addr i) (product i factor) all)
