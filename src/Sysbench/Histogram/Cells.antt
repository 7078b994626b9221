-- ===== src/Sysbench/Histogram/Cells.antt =====
-- What the loops of benchmarks/sysbench/src/sb_histogram.c do to the number of events in the arrays.
use nu_ksm_pact21_artifact.Base.{
  ℕ, zero, suc, ◌+◌, ◌%◌, ◌^◌, ◌<◌, ◌≡◌, ◌∙◌, refl, ap, List, [], ◌∷◌, arith, length,
}
use nu_ksm_pact21_artifact.Sysbench.Histogram.{
  nslots, Histogram, Position, Update, clamp, increment_at, increment_slot, update_slots,
  fetch_cell, fetch, add_at, add_array, clear,
}
use nu_ksm_pact21_artifact.Sysbench.Histogram.Percentile.{total}

unfoldable pub slots_total : List (List ℕ) → ℕ
unfolding total
slots_total [] = 0
slots_total (slot ∷ slots) = total slot + slots_total slots

abbrev pub HaveLength : ℕ → List (List ℕ) → Type 0
HaveLength size [] = Unit
HaveLength size (slot ∷ slots) = (length slot ≡ size) × HaveLength size slots

-- The arrays have the sizes that `sb_histogram_init` gives them, and `cumulative_nevents` counts the
-- events of `cumulative_array`, modulo 2 ^ 64.
pub record IsHistogram (h : Histogram) : Type 0 where
  pub size : 0 < h.array_size
  pub slots : length h.interm_slots ≡ nslots
  pub slot_size : HaveLength h.array_size h.interm_slots
  pub cumulative_size : length h.cumulative_array ≡ h.array_size
  pub counted : h.cumulative_nevents % 2 ^ 64 ≡ total h.cumulative_array % 2 ^ 64

-- All the events that the arrays hold.
abbrev pub held : Histogram → ℕ
held h = total h.cumulative_array + slots_total h.interm_slots

length-increment_at : (i : ℕ) (array : List ℕ) → length (increment_at i array) ≡ length array
unfolding increment_at
length-increment_at i [] = refl
length-increment_at zero (n ∷ array) = refl
length-increment_at (suc i) (n ∷ array) = ap suc (length-increment_at i array)

increment_at-total :
    (i : ℕ) (array : List ℕ)
    → i < length array
    → total (increment_at i array) % 2 ^ 64 ≡ (total array + 1) % 2 ^ 64
unfolding increment_at total
increment_at-total i [] h = absurd (omega arith)
increment_at-total zero (n ∷ array) h = omega arith
increment_at-total (suc i) (n ∷ array) h =
    let rest = increment_at-total i array (omega arith) in omega arith

pub increment_slot-total :
    (slot i size : ℕ) (slots : List (List ℕ))
    → slot < length slots
    → HaveLength size slots
    → i < size
    → slots_total (increment_slot slot i slots) % 2 ^ 64 ≡ (slots_total slots + 1) % 2 ^ 64
unfolding increment_slot slots_total
increment_slot-total slot i size [] h l lt = absurd (omega arith)
increment_slot-total zero i size (array ∷ slots) h (e, l) lt =
    let first = increment_at-total i array (omega arith) in omega arith
increment_slot-total (suc slot) i size (array ∷ slots) h (e, l) lt =
    let rest = increment_slot-total slot i size slots (omega arith) l lt in omega arith

pub increment_slot-HaveLength :
    (slot i size : ℕ) (slots : List (List ℕ))
    → HaveLength size slots
    → (length (increment_slot slot i slots) ≡ length slots)
      × HaveLength size (increment_slot slot i slots)
unfolding increment_slot
increment_slot-HaveLength slot i size [] l = (refl, tt)
increment_slot-HaveLength zero i size (array ∷ slots) (e, l) =
    let same = length-increment_at i array in (refl, (omega arith, l))
increment_slot-HaveLength (suc slot) i size (array ∷ slots) (e, l) =
    let (same, rest) = increment_slot-HaveLength slot i size slots l in (ap suc same, (e, rest))

pub clear-total :
    (array : List ℕ) → (total (clear array) ≡ 0) × (length (clear array) ≡ length array)
unfolding clear total
clear-total [] = (refl, refl)
clear-total (n ∷ array) = let (sum, same) = clear-total array in (omega arith, ap suc same)

fetch_cell-total :
    (i : ℕ) (array : List ℕ)
    → let r = fetch_cell i array in (r.0 + total r.1 ≡ total array) × (length r.1 ≡ length array)
unfolding fetch_cell total
fetch_cell-total i [] = (refl, refl)
fetch_cell-total zero (n ∷ array) = (omega arith, refl)
fetch_cell-total (suc i) (n ∷ array) =
    let (sum, same) = fetch_cell-total i array in (omega arith, ap suc same)

pub fetch-total :
    (slot i size : ℕ) (slots : List (List ℕ))
    → HaveLength size slots
    → let r = fetch slot i slots in
      (r.0 + slots_total r.1 ≡ slots_total slots)
      × (length r.1 ≡ length slots)
      × HaveLength size r.1
unfolding fetch slots_total
fetch-total slot i size [] l = (refl, refl, tt)
fetch-total zero i size (array ∷ slots) (e, l) =
    let (sum, same) = fetch_cell-total i array in (omega arith, refl, (omega arith, l))
fetch-total (suc slot) i size (array ∷ slots) (e, l) =
    let (sum, same, all) = fetch-total slot i size slots l in (omega arith, ap suc same, (e, all))

pub add_at-total :
    (i t : ℕ) (array : List ℕ)
    → i < length array
    → (total (add_at i t array) % 2 ^ 64 ≡ (total array + t) % 2 ^ 64)
      × (length (add_at i t array) ≡ length array)
unfolding add_at total
add_at-total i t [] h = absurd (omega arith)
add_at-total zero t (n ∷ array) h = (omega arith, refl)
add_at-total (suc i) t (n ∷ array) h =
    let (sum, same) = add_at-total i t array (omega arith) in (omega arith, ap suc same)

pub add_array-total :
    (temp array : List ℕ)
    → length temp ≡ length array
    → (total (add_array temp array) % 2 ^ 64 ≡ (total array + total temp) % 2 ^ 64)
      × (length (add_array temp array) ≡ length array)
unfolding add_array total
add_array-total [] array e = (omega arith, refl)
add_array-total (t ∷ temp) [] e = absurd (omega arith)
add_array-total (t ∷ temp) (n ∷ array) e =
    let (sum, same) = add_array-total temp array (omega arith) in (omega arith, ap suc same)

pub clamp-lt : (size : ℕ) (p : Position) → 0 < size → clamp size p < size
unfolding clamp
clamp-lt size Position.below_zero h = h
clamp-lt size (Position.at i) h = ground arith

pub update_slots-total :
    (size : ℕ) (updates : List Update) (slots : List (List ℕ))
    → 0 < size
    → length slots ≡ nslots
    → HaveLength size slots
    → let after = update_slots size updates slots in
      (slots_total after % 2 ^ 64 ≡ (slots_total slots + length updates) % 2 ^ 64)
      × (length after ≡ nslots)
      × HaveLength size after
unfolding update_slots
update_slots-total size [] slots some_cell n l = (omega arith, n, l)
update_slots-total size ((random, p) ∷ updates) slots some_cell n l =
    let slot = random % nslots in
    let i = clamp size p in
    let first =
      increment_slot-total slot i size slots (omega arith) l (clamp-lt size p some_cell) in
    let (same, all) = increment_slot-HaveLength slot i size slots l in
    let (sum, n', l') =
      update_slots-total size updates (increment_slot slot i slots) some_cell (same ∙ n) all in
    (omega arith, n', l')
