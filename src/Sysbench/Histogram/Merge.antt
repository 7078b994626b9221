-- ===== src/Sysbench/Histogram/Merge.antt =====
-- The loops of the reports of benchmarks/sysbench/src/sb_histogram.c, with updates between the fetches.
use nu_ksm_pact21_artifact.Base.{
  ℕ, zero, suc, ◌+◌, ◌%◌, ◌^◌, ◌<◌, ◌≤◌, ◌≡◌, ◌∙◌, List, arith, length,
}
use nu_ksm_pact21_artifact.Sysbench.Histogram.{
  nslots, Update, update_slots, fetch, Merging, merge_cell, merge_slot, merge_slots,
}
use nu_ksm_pact21_artifact.Sysbench.Histogram.Percentile.{total}
use nu_ksm_pact21_artifact.Sysbench.Histogram.Cells.{
  slots_total, HaveLength, update_slots-total, fetch-total, add_at-total,
}

-- The arrays have their sizes, and `nevents` counts the events of `array`, modulo 2 ^ 64.
pub record IsMerging (size : ℕ) (m : Merging) : Type 0 where
  pub some_cell : 0 < size
  pub slots : length m.slots ≡ nslots
  pub slot_size : HaveLength size m.slots
  pub array_size : length m.array ≡ size
  pub counted : m.nevents % 2 ^ 64 ≡ total m.array % 2 ^ 64

-- The events of the slots and of the array.
abbrev pub merging_total : Merging → ℕ
merging_total m = total m.array + slots_total m.slots

-- How many updates happen while `n` cells, or `n` slots, are fetched.
unfoldable pub cell_updates : (ℕ → List Update) → ℕ → ℕ → ℕ
cell_updates during zero i = 0
cell_updates during (suc n) i = length (during i) + cell_updates during n (suc i)

unfoldable pub slot_updates : ℕ → (ℕ → ℕ → List Update) → ℕ → ℕ → ℕ
unfolding cell_updates
slot_updates size during zero slot = 0
slot_updates size during (suc n) slot =
    cell_updates (during slot) size 0 + slot_updates size during n (suc slot)

merge_cell-IsMerging :
    (size : ℕ) (updates : List Update) (slot i : ℕ) (m : Merging)
    → IsMerging size m
    → i < size
    → (merging_total (merge_cell size updates slot i m) % 2 ^ 64
        ≡ (merging_total m + length updates) % 2 ^ 64)
      × IsMerging size (merge_cell size updates slot i m)
unfolding merge_cell
merge_cell-IsMerging size updates slot i m v lt =
    let wide = v.array_size in
    let old = v.counted in
    let slots = update_slots size updates m.slots in
    let (grown, n, all) = update_slots-total size updates m.slots v.some_cell v.slots v.slot_size in
    let (moved, same, all') = fetch-total slot i size slots all in
    let t = (fetch slot i slots).0 in
    let (added, len) = add_at-total i t m.array (omega arith) in
    (
      omega arith,
      record {
        some_cell = v.some_cell;
        slots = same ∙ n;
        slot_size = all';
        array_size = len ∙ wide;
        counted = omega arith;
      },
    )

merge_slot-IsMerging :
    (size : ℕ) (during : ℕ → List Update) (slot n i : ℕ) (m : Merging)
    → IsMerging size m
    → i + n ≤ size
    → (merging_total (merge_slot size during slot n i m) % 2 ^ 64
        ≡ (merging_total m + cell_updates during n i) % 2 ^ 64)
      × IsMerging size (merge_slot size during slot n i m)
unfolding merge_slot cell_updates
merge_slot-IsMerging size during slot zero i m v le = (omega arith, v)
merge_slot-IsMerging size during slot (suc n) i m v le =
    let (first, w) = merge_cell-IsMerging size (during i) slot i m v (omega arith) in
    let (rest, u) =
      merge_slot-IsMerging size during slot n (suc i) (merge_cell size (during i) slot i m) w
        (omega arith) in
    (omega arith, u)

pub merge_slots-IsMerging :
    (size : ℕ) (during : ℕ → ℕ → List Update) (n slot : ℕ) (m : Merging)
    → IsMerging size m
    → (merging_total (merge_slots size during n slot m) % 2 ^ 64
        ≡ (merging_total m + slot_updates size during n slot) % 2 ^ 64)
      × IsMerging size (merge_slots size during n slot m)
unfolding merge_slots slot_updates
merge_slots-IsMerging size during zero slot m v = (omega arith, v)
merge_slots-IsMerging size during (suc n) slot m v =
    let (first, w) = merge_slot-IsMerging size (during slot) slot size 0 m v (omega arith) in
    let (rest, u) =
      merge_slots-IsMerging size during n (suc slot) (merge_slot size (during slot) slot size 0 m)
        w in
    (omega arith, u)
