-- ===== src/Sysbench/Histogram.antt =====
-- The latency histogram of benchmarks/sysbench/src/sb_histogram.c. The arrays are lists of 64-bit
-- counts, and an update is one atomic increment. The lock keeps reports apart, but not updates from
-- reports: a report fetches cell by cell, and takes the updates that happen before each fetch as an
-- argument. What is computed in floating point is a parameter: the cell of a value, the number of
-- events that a percentile asks for, and the value of a cell.
pub mod Cells
pub mod Events
pub mod Merge
pub mod Percentile
use nu_ksm_pact21_artifact.Base.{
  ℕ, zero, suc, ◌+◌, ◌-◌, ◌%◌, ◌^◌, List, [], ◌∷◌, leb, if◌then◌else◌, length, replicate,
}

abbrev pub nslots : ℕ
nslots = 128

-- `sb_histogram_t`, less its ranges and its lock. `temp_array` holds no value between two calls.
pub record Histogram : Type 0 where
  pub interm_slots : List (List ℕ)
  pub cumulative_array : List ℕ
  pub cumulative_nevents : ℕ
  pub array_size : ℕ

-- `sb_histogram_init`, where the allocation succeeds: the arrays are zero. The number of events stays
-- what the memory of the struct holds.
unfoldable pub init : ℕ → ℕ → Histogram
init nevents size = record {
  interm_slots = replicate nslots (replicate size 0);
  cumulative_array = replicate size 0;
  cumulative_nevents = nevents;
  array_size = size;
}

-- The signed number that `floor` gives in `sb_histogram_update`.
pub data Position : Type 0 where
  below_zero : Position
  at : ℕ → Position

unfoldable pub clamp : ℕ → Position → ℕ
clamp size below_zero = 0
clamp size (at i) = if leb size i then size - 1 else i

-- `ck_pr_inc_64` of one cell.
unfoldable pub increment_at : ℕ → List ℕ → List ℕ
increment_at i [] = []
increment_at zero (n ∷ array) = (n + 1) % 2 ^ 64 ∷ array
increment_at (suc i) (n ∷ array) = n ∷ increment_at i array

unfoldable pub increment_slot : ℕ → ℕ → List (List ℕ) → List (List ℕ)
unfolding increment_at
increment_slot slot i [] = []
increment_slot zero i (array ∷ slots) = increment_at i array ∷ slots
increment_slot (suc slot) i (array ∷ slots) = array ∷ increment_slot slot i slots

-- `sb_histogram_update`, given the random number and the position of the value.
unfoldable pub update : ℕ → Position → Histogram → Histogram
unfolding clamp increment_slot
update random p h = record h {
  interm_slots = increment_slot (random % nslots) (clamp h.array_size p) h.interm_slots;
}

-- An update that runs beside a report: its random number and the position of its value.
abbrev pub Update : Type 0
Update = ℕ × Position

unfoldable pub update_slots : ℕ → List Update → List (List ℕ) → List (List ℕ)
unfolding clamp increment_slot
update_slots size [] slots = slots
update_slots size ((random, p) ∷ updates) slots =
    update_slots size updates (increment_slot (random % nslots) (clamp size p) slots)

-- `ck_pr_fas_64` of one cell: its count, and 0 in its place.
unfoldable pub fetch_cell : ℕ → List ℕ → ℕ × List ℕ
fetch_cell i [] = (0, [])
fetch_cell zero (n ∷ array) = (n, 0 ∷ array)
fetch_cell (suc i) (n ∷ array) = let (t, rest) = fetch_cell i array in (t, n ∷ rest)

unfoldable pub fetch : ℕ → ℕ → List (List ℕ) → ℕ × List (List ℕ)
unfolding fetch_cell
fetch slot i [] = (0, [])
fetch zero i (array ∷ slots) = let (t, rest) = fetch_cell i array in (t, rest ∷ slots)
fetch (suc slot) i (array ∷ slots) = let (t, rest) = fetch slot i slots in (t, array ∷ rest)

-- `array[i] += t`
unfoldable pub add_at : ℕ → ℕ → List ℕ → List ℕ
add_at i t [] = []
add_at zero t (n ∷ array) = (n + t) % 2 ^ 64 ∷ array
add_at (suc i) t (n ∷ array) = n ∷ add_at i t array

-- What the loops of a report work on: the slots that all threads see, and its own array and count.
pub record Merging : Type 0 where
  pub slots : List (List ℕ)
  pub array : List ℕ
  pub nevents : ℕ

-- One round of the inner loop, after the updates that happen before its fetch.
unfoldable pub merge_cell : ℕ → List Update → ℕ → ℕ → Merging → Merging
unfolding update_slots fetch add_at
merge_cell size updates slot i m =
    let (t, slots) = fetch slot i (update_slots size updates m.slots) in
    record { slots = slots; array = add_at i t m.array; nevents = (m.nevents + t) % 2 ^ 64 }

-- The inner loop from the cell `i` on, for `n` cells.
unfoldable pub merge_slot : ℕ → (ℕ → List Update) → ℕ → ℕ → ℕ → Merging → Merging
unfolding merge_cell
merge_slot size during slot zero i m = m
merge_slot size during slot (suc n) i m =
    merge_slot size during slot n (suc i) (merge_cell size (during i) slot i m)

-- The outer loop from the slot `slot` on, for `n` slots.
unfoldable pub merge_slots : ℕ → (ℕ → ℕ → List Update) → ℕ → ℕ → Merging → Merging
unfolding merge_slot
merge_slots size during zero slot m = m
merge_slots size during (suc n) slot m =
    merge_slots size during n (suc slot) (merge_slot size (during slot) slot size 0 m)

-- `merge_intermediate_into_cumulative`
unfoldable pub merge_intermediate_into_cumulative : (ℕ → ℕ → List Update) → Histogram → Histogram
unfolding merge_slots
merge_intermediate_into_cumulative during h =
    let m = merge_slots h.array_size during nslots 0 (record {
      slots = h.interm_slots;
      array = h.cumulative_array;
      nevents = h.cumulative_nevents;
    }) in
    record h { interm_slots = m.slots; cumulative_array = m.array; cumulative_nevents = m.nevents }

-- `h->cumulative_array[i] += array[i]`
unfoldable pub add_array : List ℕ → List ℕ → List ℕ
add_array [] array = array
add_array (t ∷ temp) [] = []
add_array (t ∷ temp) (n ∷ array) = (n + t) % 2 ^ 64 ∷ add_array temp array

-- `memset` to 0.
unfoldable pub clear : List ℕ → List ℕ
clear [] = []
clear (n ∷ array) = 0 ∷ clear array

-- The index at which the loop over the cells stops: the end if the events do not suffice.
unfoldable pub percentile_index : List ℕ → ℕ → ℕ → ℕ → ℕ
percentile_index [] ncur nmax i = i
percentile_index (n ∷ array) ncur nmax i =
    let ncur = (ncur + n) % 2 ^ 64 in
    let rest = percentile_index array ncur nmax (i + 1) in if leb nmax ncur then i else rest

module _ (D : Type 0) (nmax : ℕ → D → ℕ) (value_at : ℕ → D) where
  -- `get_pct_cumulative`
  unfoldable pub pct_cumulative : D → Histogram → D
  unfolding percentile_index
  pct_cumulative percentile h =
      value_at (percentile_index h.cumulative_array 0 (nmax h.cumulative_nevents percentile) 0)

  -- `sb_histogram_get_pct_cumulative`
  unfoldable pub get_pct_cumulative : (ℕ → ℕ → List Update) → D → Histogram → D × Histogram
  unfolding merge_intermediate_into_cumulative pct_cumulative
  get_pct_cumulative during percentile h =
      let h = merge_intermediate_into_cumulative during h in (pct_cumulative percentile h, h)

  -- `sb_histogram_get_pct_checkpoint`
  unfoldable pub get_pct_checkpoint : (ℕ → ℕ → List Update) → D → Histogram → D × Histogram
  unfolding merge_intermediate_into_cumulative pct_cumulative clear
  get_pct_checkpoint during percentile h =
      let h = merge_intermediate_into_cumulative during h in
      (
        pct_cumulative percentile h,
        record h { cumulative_array = clear h.cumulative_array; cumulative_nevents = 0 },
      )

  -- `sb_histogram_get_pct_intermediate`: the slots go into `temp_array`, whose first values are the
  -- ones of slot 0, and this array into the cumulative one.
  unfoldable pub get_pct_intermediate : (ℕ → ℕ → List Update) → D → Histogram → D × Histogram
  unfolding merge_slots percentile_index add_array
  get_pct_intermediate during percentile h =
      let m =
        merge_slots h.array_size during nslots 0
          (record { slots = h.interm_slots; array = replicate h.array_size 0; nevents = 0 }) in
      let i = percentile_index m.array 0 (nmax m.nevents percentile) 0 in
      (
        value_at i,
        record h {
          interm_slots = m.slots;
          cumulative_array = add_array m.array h.cumulative_array;
          cumulative_nevents = (h.cumulative_nevents + m.nevents) % 2 ^ 64;
        },
      )
