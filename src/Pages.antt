-- ===== src/Pages.antt =====
-- evaluation_script/helpers/codes/basic-inputpages-pin.c: the program that fills a number of pages,
-- so that the kernel's same-page merging has pages to work on, and then sleeps. It is a machine
-- whose state is where the process stands in `main`, its memory and what it has printed.
pub mod Size
pub mod Populate
pub mod Run
pub mod Failure
pub mod Reach
pub mod Content
pub mod Merge
pub mod Tests
use nu_ksm_pact21_artifact.Base.{
  ℕ, zero, suc, ◌+◌, ◌-◌, ◌*◌, ◌/◌, ◌%◌, ◌^◌, Option, none, some, List, [], ◌∷◌, ◌==◌, ltb, leb,
  ◌&&◌, if◌then◌else◌,
}

-- The bytes of a C string before its terminator.
abbrev pub Text : Type 0
Text = List ℕ

-- An `int` is its 32-bit pattern. This is its conversion to a 64-bit unsigned type.
unfoldable pub extend : ℕ → ℕ
extend n = if ltb n (2 ^ 31) then n else n + (2 ^ 64 - 2 ^ 32)

-- `1024 * sizeof(int) * num_of_pages`
unfoldable pub size : ℕ → ℕ
unfolding extend
size num_of_pages = 1024 * 4 * extend num_of_pages % 2 ^ 64

-- `size/sizeof(int)`
unfoldable pub cells : ℕ → ℕ
cells bytes = bytes / 4

-- `i * multiplier`, a product of type `uint64_t`, as the `int` that is stored.
unfoldable pub product : ℕ → ℕ → ℕ
unfolding extend
product i multiplier = i * extend multiplier % 2 ^ 64 % 2 ^ 32

-- The address `addr+i`.
unfoldable pub cell_at : ℕ → ℕ → ℕ
cell_at addr i = (addr + 4 * i) % 2 ^ 64

-- The `int` at each address, `none` where the process may not write one.
abbrev pub Memory : Type 0
Memory = ℕ → Option ℕ

abbrev pub write : Memory → ℕ → ℕ → Memory
write memory q v a = if a == q then some v else memory a

-- The error value of `mmap`, `(void *) -1`.
abbrev pub map_failed : ℕ
map_failed = 2 ^ 64 - 1

-- The lines that the program prints.
pub data Line : Type 0 where
  usage : Text → Line
  mapped_at : ℕ → Line
  populated : Line

-- Where the process stands: at the start of `main` with `argv[0]` and the arguments behind it, at
-- the test of the `while` that fills the pages, in the endless loop, or ended, by `exit` or by the
-- signal for a write to memory that is not there.
pub data Control : Type 0 where
  starting : Text → List Text → Control
  populating : (addr bytes multiplier i : ℕ) → Control
  sleeping : Control
  exited : ℕ → Control
  segfault : Control

-- `output` has the lines given to `printf`, the last one first.
pub record Process : Type 0 where
  pub control : Control
  pub memory : Memory
  pub output : List Line

abbrev pub go : Control → Process → Process
go c p = record p { control = c }

abbrev pub print : Line → Process → Process
print line p = record p { output = line ∷ p.output }

-- The `int`s of a new mapping are zero.
abbrev pub map_zero : ℕ → ℕ → Memory → Memory
map_zero addr bytes memory a =
    if leb addr a && (ltb a (addr + bytes) && (a - addr) % 4 == 0) then some 0 else memory a

-- One round of the `while` that fills the pages, or its end.
unfoldable pub populate : ℕ → ℕ → ℕ → ℕ → Process → Process
unfolding cells product cell_at
populate addr bytes multiplier i p =
    if ltb i (cells bytes)
    then (elim (p.memory (cell_at addr i)) [
      | none ↦ go segfault p
      | some old ↦ record p {
        control = populating addr bytes multiplier ((i + 1) % 2 ^ 64);
        memory = write p.memory (cell_at addr i) (product i multiplier);
      }
    ])
    else go sleeping (print populated p)

-- Goes on after a step; a process that has ended stays as it is.
abbrev pub resume : Option Process → Process → (Process → Process) → Process
resume none p k = p
resume (some q) p k = k q

-- The result of `mmap` is printed and used whatever it is.
abbrev pub use_mapping : Option ℕ → ℕ → ℕ → Process → Process
use_mapping none bytes factor p =
    go (populating map_failed bytes factor 0) (print (mapped_at map_failed) p)
use_mapping (some addr) bytes factor p =
    go (populating addr bytes factor 0)
      (print (mapped_at addr) (record p { memory = map_zero addr bytes p.memory }))

-- `atoi`, as a 32-bit pattern, and the address that `mmap` returns for a size, `none` for its error.
module _ (atoi : Text → ℕ) (mmap : ℕ → Option ℕ) where
  -- `argc == 3` counts the program's name.
  unfoldable pub multiplier : List Text → ℕ
  multiplier (pages ∷ factor ∷ []) = atoi factor
  multiplier _ = 1

  unfoldable pub map_pages : ℕ → ℕ → Process → Process
  map_pages bytes factor p = use_mapping (mmap bytes) bytes factor p

  -- `main` up to the `while`. `mlockall` and `srand` change nothing that the rest reads.
  unfoldable pub start : Text → List Text → Process → Process
  unfolding multiplier map_pages
  start name [] p = go (exited 1) (print (usage name) p)
  start name (pages ∷ rest) p = map_pages (size (atoi pages)) (multiplier (pages ∷ rest)) p

  abbrev pub step_at : Control → Process → Option Process
  step_at (starting name args) p = some (start name args p)
  step_at (populating addr bytes factor i) p = some (populate addr bytes factor i p)
  step_at sleeping p = some p
  step_at (exited code) p = none
  step_at segfault p = none

  -- One step of a process, `none` if it has ended.
  unfoldable pub step : Process → Option Process
  unfolding start populate
  step p = step_at p.control p

  -- The process after `n` steps, or where it has ended before.
  unfoldable pub run : ℕ → Process → Process
  run zero p = p
  run (suc n) p = resume (step p) p (run n)
