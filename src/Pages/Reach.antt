-- ===== src/Pages/Reach.antt =====
-- The states that basic-inputpages-pin.c can reach, by any number of steps.
use nu_ksm_pact21_artifact.Base.{
  ℕ, ◌+◌, ◌*◌, ◌^◌, ◌≤◌, ◌<◌, ◌≡◌, ◌⊎◌, refl, sym, ap, ◌∙◌, inl, inr, Option, some, List, ◌∷◌,
  arith, ltb, Bool-cases,
}
use nu_ksm_pact21_artifact.Pages.{
  Text, size, cells, cell_at, product, populated, Memory, write, Line, Control, starting,
  populating, sleeping, exited, segfault, Process, step,
}
use nu_ksm_pact21_artifact.Pages.Size.{cells-size, cells-size_lt}
use nu_ksm_pact21_artifact.Pages.Populate.{
  AllMapped, AllMapped-write, cell_at-inside, populate-round, populate-end, step-populating,
  at_loop, asleep,
}
use nu_ksm_pact21_artifact.Pages.Run.{begin, map_zero-inside, map_zero-outside, step-begin}

-- What holds in every state of a run with a mapping of `n` cells: the process stands at the start,
-- in the loop or in the endless loop, its mapping stays there, and the memory outside the mapping is
-- as it was at first.
abbrev pub Unchanged : ℕ → ℕ → Memory → Memory → Type 0
Unchanged addr n before after = (a : ℕ) → (a < addr) ⊎ (addr + 4 * n ≤ a) → after a ≡ before a

module _ (atoi : Text → ℕ) (mmap : ℕ → Option ℕ) where
  pub data Reach (s : Process) : Process → Type 0 where
    here : Reach s s
    next : {t u : Process} → Reach s t → step atoi mmap t ≡ some u → Reach s u

module _ (name : Text) (args : List Text) (memory : Memory) (addr bytes : ℕ) where
  abbrev pub StandsAt : Control → Process → Type 0
  StandsAt (starting name' args') p = (p ≡ begin name args memory)
  StandsAt (populating addr' bytes' factor i) p =
      (addr' ≡ addr)
      × (bytes' ≡ bytes)
      × (i ≤ cells bytes)
      × AllMapped p.memory addr (cells bytes)
      × Unchanged addr (cells bytes) memory p.memory
  StandsAt sleeping p = Unchanged addr (cells bytes) memory p.memory
  StandsAt (exited code) p = ⊥
  StandsAt segfault p = ⊥

  abbrev pub Stands : Process → Type 0
  Stands p = StandsAt p.control p

some_inj : {p q : Process} → ◌≡◌ {A = Option Process} (some p) (some q) → p ≡ q
some_inj e = cc

write-Unchanged :
    (addr n i v : ℕ) (before after : Memory)
    → addr + 4 * n ≤ 2 ^ 64
    → i < n
    → Unchanged addr n before after
    → Unchanged addr n before (write after (cell_at addr i) v)
write-Unchanged addr n i v before after fits h same a out =
    let at = cell_at-inside addr i n fits h in let kept = same a out in ground arith

module _ (atoi : Text → ℕ) (mmap : ℕ → Option ℕ) (name pages : Text) (rest : List Text)
    (memory : Memory) (addr : ℕ) (mapped : mmap (size (atoi pages)) ≡ some addr)
    (fits : addr + size (atoi pages) ≤ 2 ^ 64) where
  abbrev Here : Process → Type 0
  Here = Stands name (pages ∷ rest) memory addr (size (atoi pages))

  step-HereLoop :
      (factor i : ℕ) (m : Memory) (output : List Line)
      → let n = cells (size (atoi pages)) in
        let p = at_loop addr (size (atoi pages)) factor i m output in
        i ≤ n
        → AllMapped m addr n
        → Unchanged addr n memory m
        → (q : Process) × (step atoi mmap p ≡ some q) × Here q
  step-HereLoop factor i m output le all same =
      let bytes = size (atoi pages) in
      let n = cells bytes in
      let p = at_loop addr bytes factor i m output in
      let whole = cells-size (atoi pages) in
      let one = step-populating atoi mmap addr bytes factor i m output in
      elim (Bool-cases (ltb i n)) [
        | inl more ↦
            let inside = cell_at-inside addr i n (omega arith) (ground arith) in
            let v = product i factor in
            (
              at_loop addr bytes factor (i + 1) (write m (cell_at addr i) v) output,
              one
                  ∙ ap some (
                      populate-round addr bytes factor i p (ground arith)
                        (cells-size_lt (atoi pages)) (rw inside (all i (ground arith)))),
              (
                refl,
                refl,
                ground arith,
                AllMapped-write m addr n (cell_at addr i) v all,
                write-Unchanged addr n i v memory m (omega arith) (ground arith) same,
              ),
            )
        | inr full ↦ (
          asleep m (populated ∷ output),
          one ∙ ap some (populate-end addr bytes factor i p (ground arith)),
          same,
        )
      ]

  step-HereAt :
      (c : Control) (m : Memory) (output : List Line)
      → let p : Process = record { control = c; memory = m; output = output } in
        Here p → (q : Process) × (step atoi mmap p ≡ some q) × Here q
  step-HereAt (starting name' args') m output h =
      let bytes = size (atoi pages) in
      let whole = cells-size (atoi pages) in
      rw h (
        _,
        step-begin atoi mmap name pages rest memory addr mapped,
        (
          refl,
          refl,
          omega arith,
          λ k lt. (0, map_zero-inside addr bytes (cells bytes) k memory whole lt),
          λ a out. map_zero-outside addr bytes a memory (rw (← whole) out),
        ),
      )
  step-HereAt (populating addr' bytes' factor i) m output (ea, eb, le, all, same) =
      rw (ea, eb) (step-HereLoop factor i m output le all same)
  step-HereAt sleeping m output h = (asleep m output, unfold step in refl, h)
  step-HereAt (exited code) m output h = absurd h
  step-HereAt segfault m output h = absurd h

  -- Every state of such a run has a next one of the kind.
  step-Here : (p : Process) → Here p → (q : Process) × (step atoi mmap p ≡ some q) × Here q
  step-Here p h = step-HereAt p.control p.memory p.output h

  outside_at :
      (c : Control) (t : Process) (a : ℕ)
      → StandsAt name (pages ∷ rest) memory addr (size (atoi pages)) c t
      → (a < addr) ⊎ (addr + size (atoi pages) ≤ a)
      → t.memory a ≡ memory a
  outside_at (starting name' args') t a h out = ap (λ (p : Process). p.memory a) h
  outside_at (populating addr' bytes' factor i) t a (ea, eb, le, all, same) out =
      same a (rw (cells-size (atoi pages)) out)
  outside_at sleeping t a same out = same a (rw (cells-size (atoi pages)) out)
  outside_at (exited code) t a h out = absurd h
  outside_at segfault t a h out = absurd h

  Reach-Here : {t : Process} → Reach atoi mmap (begin name (pages ∷ rest) memory) t → Here t
  Reach-Here here = refl
  Reach-Here (next {t} {u} r e) =
      let (q, e', h) = step-Here t (Reach-Here r) in
      let same : q ≡ u = some_inj (sym e' ∙ e) in rw (← same) h

  -- Where `mmap` returns a mapping inside the address space, a process that was given an argument
  -- never ends: each state that it can reach has a next step, so that it is neither stopped by a
  -- signal nor ever returns.
  pub Reach-step :
      (t : Process)
      → Reach atoi mmap (begin name (pages ∷ rest) memory) t
      → (u : Process) × (step atoi mmap t ≡ some u)
  Reach-step t r = let (q, e, h) = step-Here t (Reach-Here r) in (q, e)

  -- In the same runs, in every state that can be reached, the memory outside the mapping is as it was
  -- when the process began.
  pub Reach-outside :
      (t : Process) (a : ℕ)
      → Reach atoi mmap (begin name (pages ∷ rest) memory) t
      → (a < addr) ⊎ (addr + size (atoi pages) ≤ a)
      → t.memory a ≡ memory a
  Reach-outside t a r out = outside_at t.control t a (Reach-Here r) out
