-- ===== src/Sysbench/Histogram/Events.antt =====
-- Runs of the histogram of benchmarks/sysbench/src/sb_histogram.c: updates, and the three kinds of
-- reports that move the events between its arrays, with updates between their fetches.
use nu_ksm_pact21_artifact.Base.{
  ℕ, zero, suc, ◌+◌, ◌%◌, ◌^◌, ◌<◌, ◌≡◌, ◌∙◌, refl, sym, ap, List, [], ◌∷◌, arith, length,
  replicate, length-replicate,
}
use nu_ksm_pact21_artifact.Sysbench.Histogram.{
  nslots, init, Histogram, Position, Update, Merging, clamp, update, merge_slots,
  get_pct_cumulative, merge_intermediate_into_cumulative, get_pct_checkpoint, get_pct_intermediate,
}
use nu_ksm_pact21_artifact.Sysbench.Histogram.Percentile.{total}
use nu_ksm_pact21_artifact.Sysbench.Histogram.Cells.{
  slots_total, HaveLength, IsHistogram, held, increment_slot-total, increment_slot-HaveLength,
  clear-total, clamp-lt, add_array-total,
}
use nu_ksm_pact21_artifact.Sysbench.Histogram.Merge.{slot_updates, merge_slots-IsMerging}

replicate-total : (n : ℕ) → total (replicate n 0) ≡ 0
unfolding total
replicate-total zero = refl
replicate-total (suc n) = let rest = replicate-total n in omega arith

replicate-HaveLength :
    (n size : ℕ)
    → HaveLength size (replicate n (replicate size 0))
      × (slots_total (replicate n (replicate size 0)) ≡ 0)
unfolding slots_total
replicate-HaveLength zero size = (tt, refl)
replicate-HaveLength (suc n) size =
    let (rest, sum) = replicate-HaveLength n size in
    let none = replicate-total size in ((length-replicate size 0, rest), omega arith)

-- The histogram that `sb_histogram_init` makes of a struct that holds zeros.
pub init-IsHistogram : (size : ℕ) → 0 < size → IsHistogram (init 0 size) × (held (init 0 size) ≡ 0)
unfolding init
init-IsHistogram size h =
    let (all, sum) = replicate-HaveLength nslots size in
    let none = replicate-total size in
    (
      record {
        size = h;
        slots = length-replicate {A = List ℕ} nslots (replicate size 0);
        slot_size = all;
        cumulative_size = length-replicate size 0;
        counted = omega arith;
      },
      omega arith,
    )

update-IsHistogram :
    (random : ℕ) (p : Position) (h : Histogram)
    → IsHistogram h
    → (held (update random p h) % 2 ^ 64 ≡ (held h + 1) % 2 ^ 64) × IsHistogram (update random p h)
unfolding update
update-IsHistogram random p h v =
    let i = clamp h.array_size p in
    let size = v.slots in
    let lt : random % nslots < length h.interm_slots = omega arith in
    let sum =
      increment_slot-total (random % nslots) i h.array_size h.interm_slots lt v.slot_size
        (clamp-lt h.array_size p v.size) in
    let (same, all) =
      increment_slot-HaveLength (random % nslots) i h.array_size h.interm_slots v.slot_size in
    (
      omega arith,
      record {
        size = v.size;
        slots = same ∙ size;
        slot_size = all;
        cumulative_size = v.cumulative_size;
        counted = v.counted;
      },
    )

-- The updates while a report fetches all the cells.
abbrev pub concurrent : ℕ → (ℕ → ℕ → List Update) → ℕ
concurrent size during = slot_updates size during nslots 0

merge-IsHistogram :
    (during : ℕ → ℕ → List Update) (h : Histogram)
    → IsHistogram h
    → let m = merge_intermediate_into_cumulative during h in
      (held m % 2 ^ 64 ≡ (held h + concurrent h.array_size during) % 2 ^ 64) × IsHistogram m
unfolding merge_intermediate_into_cumulative
merge-IsHistogram during h v =
    let (sum, w) =
      merge_slots-IsMerging h.array_size during nslots 0
        (record {
          slots = h.interm_slots;
          array = h.cumulative_array;
          nevents = h.cumulative_nevents;
        })
        (record {
          some_cell = v.size;
          slots = v.slots;
          slot_size = v.slot_size;
          array_size = v.cumulative_size;
          counted = v.counted;
        }) in
    (
      sum,
      record {
        size = v.size;
        slots = w.slots;
        slot_size = w.slot_size;
        cumulative_size = w.array_size;
        counted = w.counted;
      },
    )

module _ (D : Type 0) (nmax : ℕ → D → ℕ) (value_at : ℕ → D) where
  intermediate-IsHistogram :
      (during : ℕ → ℕ → List Update) (p : D) (h : Histogram)
      → IsHistogram h
      → let m = (get_pct_intermediate D nmax value_at during p h).1 in
        (held m % 2 ^ 64 ≡ (held h + concurrent h.array_size during) % 2 ^ 64) × IsHistogram m
  unfolding get_pct_intermediate
  intermediate-IsHistogram during p h v =
      let none = replicate-total h.array_size in
      let start : Merging = record {
        slots = h.interm_slots;
        array = replicate h.array_size 0;
        nevents = 0;
      } in
      let (sum, w) = merge_slots-IsMerging h.array_size during nslots 0 start (record {
        some_cell = v.size;
        slots = v.slots;
        slot_size = v.slot_size;
        array_size = length-replicate h.array_size 0;
        counted = omega arith;
      }) in
      let m = merge_slots h.array_size during nslots 0 start in
      let cumulative = v.cumulative_size in
      let old = v.counted in
      let count = w.counted in
      let (added, len) =
        add_array-total m.array h.cumulative_array (w.array_size ∙ sym cumulative) in
      (
        omega arith,
        record {
          size = v.size;
          slots = w.slots;
          slot_size = w.slot_size;
          cumulative_size = len ∙ cumulative;
          counted = omega arith;
        },
      )

  checkpoint-IsHistogram :
      (during : ℕ → ℕ → List Update) (p : D) (h : Histogram)
      → IsHistogram h
      → let all = total (merge_intermediate_into_cumulative during h).cumulative_array in
        let m = (get_pct_checkpoint D nmax value_at during p h).1 in
        ((all + held m) % 2 ^ 64 ≡ (held h + concurrent h.array_size during) % 2 ^ 64)
        × IsHistogram m
  unfolding get_pct_checkpoint
  checkpoint-IsHistogram during p h v =
      let m = merge_intermediate_into_cumulative during h in
      let (sum, w) = merge-IsHistogram during h v in
      let (none, len) = clear-total m.cumulative_array in
      (
        omega arith,
        record {
          size = w.size;
          slots = w.slots;
          slot_size = w.slot_size;
          cumulative_size = len ∙ w.cumulative_size;
          counted = omega arith;
        },
      )

  -- A report comes with the updates that happen before each of its fetches, by slot and cell.
  pub data Op : Type 0 where
    record_value : ℕ → Position → Op
    intermediate cumulative checkpoint : (ℕ → ℕ → List Update) → D → Op

  abbrev pub apply : Op → Histogram → Histogram
  apply (record_value random p) h = update random p h
  apply (intermediate during p) h = (get_pct_intermediate D nmax value_at during p h).1
  apply (cumulative during p) h = (get_pct_cumulative D nmax value_at during p h).1
  apply (checkpoint during p) h = (get_pct_checkpoint D nmax value_at during p h).1

  unfoldable pub run : List Op → Histogram → Histogram
  run [] h = h
  run (op ∷ ops) h = run ops (apply op h)

  -- The updates of one operation.
  abbrev pub event_count : ℕ → Op → ℕ
  event_count size (record_value random p) = 1
  event_count size (intermediate during p) = concurrent size during
  event_count size (cumulative during p) = concurrent size during
  event_count size (checkpoint during p) = concurrent size during

  unfoldable pub events : ℕ → List Op → ℕ
  events size [] = 0
  events size (op ∷ ops) = event_count size op + events size ops

  -- The events that a checkpoint report is about, and then forgets.
  abbrev pub released : Op → Histogram → ℕ
  released (checkpoint during p) h =
      total (merge_intermediate_into_cumulative during h).cumulative_array
  released _ h = 0

  unfoldable pub released_sum : List Op → Histogram → ℕ
  released_sum [] h = 0
  released_sum (op ∷ ops) h = released op h + released_sum ops (apply op h)

  apply-size : (op : Op) (h : Histogram) → (apply op h).array_size ≡ h.array_size
  unfolding update get_pct_intermediate get_pct_cumulative get_pct_checkpoint
      merge_intermediate_into_cumulative
  apply-size (record_value random p) h = refl
  apply-size (intermediate during p) h = refl
  apply-size (cumulative during p) h = refl
  apply-size (checkpoint during p) h = refl

  apply-conserves :
      (op : Op) (h : Histogram)
      → IsHistogram h
      → ((released op h + held (apply op h)) % 2 ^ 64
          ≡ (held h + event_count h.array_size op) % 2 ^ 64)
        × IsHistogram (apply op h)
  unfolding get_pct_cumulative
  apply-conserves (record_value random p) h v =
      let (sum, w) = update-IsHistogram random p h v in (omega arith, w)
  apply-conserves (intermediate during p) h v =
      let (sum, w) = intermediate-IsHistogram during p h v in (omega arith, w)
  apply-conserves (cumulative during p) h v =
      let (sum, w) = merge-IsHistogram during h v in (omega arith, w)
  apply-conserves (checkpoint during p) h v = checkpoint-IsHistogram during p h v

  -- For any computation of the floating-point parts, from a histogram whose arrays have their sizes
  -- and whose counts agree, any sequence of updates and of the three kinds of reports, with any
  -- updates between the fetches of each report, keeps it so, and conserves the events modulo 2 ^ 64:
  -- those that checkpoint reports were about and those that the arrays still hold are those held at
  -- the start and one for each update, the concurrent ones included.
  pub released_sum-events :
      (ops : List Op) (h : Histogram)
      → IsHistogram h
      → ((released_sum ops h + held (run ops h)) % 2 ^ 64
          ≡ (held h + events h.array_size ops) % 2 ^ 64)
        × IsHistogram (run ops h)
  unfolding run released_sum events
  released_sum-events [] h v = (omega arith, v)
  released_sum-events (op ∷ ops) h v =
      let (first, w) = apply-conserves op h v in
      let (rest, u) = released_sum-events ops (apply op h) w in
      let same : events (apply op h).array_size ops ≡ events h.array_size ops =
        ap (λ size. events size ops) (apply-size op h) in
      (omega arith, u)
