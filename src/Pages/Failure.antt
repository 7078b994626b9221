-- ===== src/Pages/Failure.antt =====
-- Runs of basic-inputpages-pin.c in which `mmap` gives no mapping.
use nu_ksm_pact21_artifact.Base.{
  ℕ, suc, ◌+◌, ◌<◌, ◌≡◌, refl, ap, ◌∙◌, true, inl, inr, Option, none, some, List, [], ◌∷◌, arith,
  ◌==◌, ltb, if◌then◌else◌, Bool-cases,
}
use nu_ksm_pact21_artifact.Pages.{
  Text, size, cells, cell_at, Memory, map_failed, Line, mapped_at, populated, segfault, Process, go,
  populate, multiplier, step, run,
}
use nu_ksm_pact21_artifact.Pages.Populate.{
  at_loop, asleep, run_zero, run-some, step-populating, populate-end,
}
use nu_ksm_pact21_artifact.Pages.Run.{begin, run-ended, run-add, run-asleep}

populate-segfault :
    (addr bytes factor : ℕ) (p : Process)
    → 0 < cells bytes
    → p.memory (cell_at addr 0) ≡ none
    → populate addr bytes factor 0 p ≡ go segfault p
unfolding populate
populate-segfault addr bytes factor p some_cell e =
    let enter : ltb 0 (cells bytes) ≡ true = ground arith in rw (enter, e) refl

cell_at-failed : cell_at map_failed 0 ≡ map_failed
unfolding cell_at
cell_at-failed = refl

module _ (atoi : Text → ℕ) (mmap : ℕ → Option ℕ) where
  step-map_failed :
      (name pages : Text) (rest : List Text) (memory : Memory)
      → let bytes = size (atoi pages) in
        mmap bytes ≡ none
        → step atoi mmap (begin name (pages ∷ rest) memory)
          ≡ some (
              at_loop map_failed bytes
                (multiplier atoi mmap (pages ∷ rest))
                0
                memory
                (mapped_at map_failed ∷ []))
  unfolding step
  step-map_failed name pages rest memory e = rw e refl

  step-dead :
      (memory : Memory) (output : List Line)
      → step atoi mmap (record { control = segfault; memory = memory; output = output }) ≡ none
  unfolding step
  step-dead memory output = refl

  -- Where `mmap` fails and the address that stands for its error cannot be written, the failure is
  -- not noticed: the process prints that address as the mapping's. For a size of no cell it also
  -- reports the data as populated and sleeps; otherwise its first write ends it by a signal. No
  -- memory is written. This is so after two steps and any number of steps more.
  pub run-map_failed :
      (name pages : Text) (rest : List Text) (memory : Memory) (extra : ℕ)
      → mmap (size (atoi pages)) ≡ none
      → memory map_failed ≡ none
      → run atoi mmap (2 + extra) (begin name (pages ∷ rest) memory) ≡ (
          if cells (size (atoi pages)) == 0
          then asleep memory (populated ∷ mapped_at map_failed ∷ [])
          else record { control = segfault; memory = memory; output = mapped_at map_failed ∷ [] })
  run-map_failed name pages rest memory extra failed unmapped =
      let bytes = size (atoi pages) in
      let factor = multiplier atoi mmap (pages ∷ rest) in
      let lines = mapped_at map_failed ∷ [] in
      let p = begin name (pages ∷ rest) memory in
      let q = at_loop map_failed bytes factor 0 memory lines in
      let dead : Process = record { control = segfault; memory = memory; output = lines } in
      let two : 2 ≡ suc (suc 0) = omega arith in
      let begun =
        run-add atoi mmap 2 extra p
        ∙ ap (run atoi mmap extra) (
            rw two (run-some atoi mmap 1 p q (step-map_failed name pages rest memory failed))
            ∙ run-some atoi mmap 0 q (populate map_failed bytes factor 0 q)
                (step-populating atoi mmap map_failed bytes factor 0 memory lines)
            ∙ run_zero atoi mmap (populate map_failed bytes factor 0 q)) in
      elim (Bool-cases (cells bytes == 0)) [
        | inl empty ↦ rw empty (
            begun
            ∙ ap (run atoi mmap extra) (populate-end map_failed bytes factor 0 q (ground arith))
            ∙ run-asleep atoi mmap extra memory (populated ∷ lines))
        | inr more ↦ rw more (
            begun
            ∙ ap (run atoi mmap extra) (
                populate-segfault map_failed bytes factor q (ground arith)
                  (rw cell_at-failed unmapped))
            ∙ run-ended atoi mmap extra dead (step-dead memory lines))
      ]
