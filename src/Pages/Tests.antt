-- ===== src/Pages/Tests.antt =====
-- Tests and examples for basic-inputpages-pin.c.
use nu_ksm_pact21_artifact.Base.{
  ℕ, ◌+◌, ◌-◌, ◌*◌, ◌%◌, ◌^◌, ◌≤◌, ◌<◌, ◌≡◌, ◌↔◌, ◌⊎◌, refl, inl, Option, none, some, [], ◌∷◌,
  arith, ◌==◌, if◌then◌else◌,
}
use nu_ksm_pact21_artifact.Pages.{
  Text, size, cells, Memory, map_failed, mapped_at, populated, populating, segfault, map_zero,
  Process, multiplier, step, run,
}
use nu_ksm_pact21_artifact.Pages.Size.{size_bounds}
use nu_ksm_pact21_artifact.Pages.Populate.{asleep, fill}
use nu_ksm_pact21_artifact.Pages.Run.{IsFilled, begin, fill-IsFilled, run-IsFilled}
use nu_ksm_pact21_artifact.Pages.Failure.{run-map_failed}
use nu_ksm_pact21_artifact.Pages.Reach.{Reach, here, next, Reach-step, Reach-outside}
use nu_ksm_pact21_artifact.Pages.Merge.{PageEq, IsFilled-PageEq_iff, IsFilled-PageEq}

-- Reads one digit.
abbrev digit : Text → ℕ
digit [] = 0
digit (c ∷ cs) = c - 48

abbrev map_low : ℕ → Option ℕ
map_low bytes = some 4096

abbrev map_never : ℕ → Option ℕ
map_never bytes = none

abbrev no_memory : Memory
no_memory a = none

abbrev program : Text
program = 112 ∷ []

-- "2" and "3"
abbrev two : Text
two = 50 ∷ []

abbrev three : Text
three = 51 ∷ []

size_bounds_example :
    ((4294967295 < 2 ^ 31) × (size 4294967295 ≡ 4096 * 4294967295))
    ⊎ ((2 ^ 31 ≤ 4294967295)
        × (size 4294967295 + 4096 * (2 ^ 32 - 4294967295) ≡ 2 ^ 64)
        × (2 ^ 64 ≤ size 4294967295 + 2 ^ 43))
size_bounds_example = size_bounds 4294967295 (omega arith)

run-IsFilled_example :
    (after : Memory) × (run digit map_low
        (cells (size (digit two)) + 2 + 7)
        (begin program (two ∷ three ∷ []) no_memory)
      ≡ asleep after (populated ∷ mapped_at 4096 ∷ []))
    × IsFilled 4096
        (cells (size (digit two)))
        (multiplier digit map_low (two ∷ three ∷ []))
        no_memory
        after
unfolding size
run-IsFilled_example =
    run-IsFilled digit map_low program two (three ∷ []) no_memory 4096 7 refl (omega arith)

run-map_failed_example : run digit map_never (2 + 5) (begin program (two ∷ []) no_memory) ≡ (
    if cells (size (digit two)) == 0
    then asleep no_memory (populated ∷ mapped_at map_failed ∷ [])
    else record { control = segfault; memory = no_memory; output = mapped_at map_failed ∷ [] })
run-map_failed_example = run-map_failed digit map_never program two [] no_memory 5 refl refl

-- The process after its first step.
abbrev started : Process
started = record {
  control = populating 4096 8192 1 0;
  memory = map_zero 4096 8192 no_memory;
  output = mapped_at 4096 ∷ [];
}

start_reached : Reach digit map_low (begin program (two ∷ []) no_memory) started
unfolding step size
start_reached = next here refl

Reach-step_example : (u : Process) × (step digit map_low started ≡ some u)
unfolding size
Reach-step_example =
    Reach-step digit map_low program two [] no_memory 4096 refl (omega arith) started start_reached

Reach-outside_example : started.memory 4000 ≡ no_memory 4000
unfolding size
Reach-outside_example =
    Reach-outside digit map_low program two [] no_memory 4096 refl (omega arith) started 4000
      start_reached (inl (omega arith))

-- One mapping of two pages at 4096, and one of two pages at 16384, both filled with the factor 3.
abbrev filled : ℕ → Memory
filled addr = fill addr 3 2048 0 (map_zero addr 8192 no_memory)

low_filled : IsFilled 4096 2048 3 no_memory (filled 4096)
low_filled = fill-IsFilled 4096 8192 2048 3 no_memory refl (omega arith)

high_filled : IsFilled 16384 2048 3 no_memory (filled 16384)
high_filled = fill-IsFilled 16384 8192 2048 3 no_memory refl (omega arith)

IsFilled-PageEq_iff_example :
    PageEq (filled 4096) (4096 + 4096 * 1) (filled 16384) (16384 + 4096 * 0)
    ↔ (◌≡◌ {A = ℕ} 3 3 × (1024 * 1 * 3 % 2 ^ 32 ≡ 1024 * 0 * 3 % 2 ^ 32))
IsFilled-PageEq_iff_example =
    IsFilled-PageEq_iff 4096 2048 3 1 16384 2048 3 0 no_memory (filled 4096) no_memory
      (filled 16384) low_filled high_filled (omega arith) (omega arith) (omega arith) (omega arith)

IsFilled-PageEq_example : ◌≡◌ {A = ℕ} 1 1
IsFilled-PageEq_example =
    IsFilled-PageEq 4096 2048 3 1 1 no_memory (filled 4096) low_filled (omega arith) (omega arith)
      (omega arith) (omega arith) refl (λ j h. refl)
