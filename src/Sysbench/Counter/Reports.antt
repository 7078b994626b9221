-- ===== src/Sysbench/Counter/Reports.antt =====
-- Runs of the counters of benchmarks/sysbench/src/sb_counter.c: accesses by worker and background
-- threads, and the two kinds of aggregated reports, with accesses between their loads.
use nu_ksm_pact21_artifact.Base.{
  ℕ, ◌+◌, ◌%◌, ◌^◌, ◌<◌, ◌≤◌, ◌≡◌, ◌∙◌, sym, ap, List, [], ◌∷◌, arith,
}
use nu_ksm_pact21_artifact.Sysbench.Counter.{
  CounterType, Counters, Stats, Access, access, accesses, merge_types, all_types, since,
  agg_intermediate, agg_cumulative,
}
use nu_ksm_pact21_artifact.Sysbench.Counter.Accesses.{IsStats}
use nu_ksm_pact21_artifact.Sysbench.Counter.Merge.{
  accesses-kept, events_from, sum_from, during_types, merge_types-accesses,
}
use nu_ksm_pact21_artifact.Sysbench.Counter.Late.{
  merge_types-lt, merge_types-late, all_types-Listed,
}

-- The two kinds of reports, each with a checkpoint of its own.
pub data Report : Type 0 where
  intermediate cumulative : Report

-- A report comes with the accesses that happen before each of its loads, by type and thread.
pub data Op : Type 0 where
  step : Access → Op
  report : Report → (CounterType → ℕ → List Access) → Op

abbrev pub aggregate : Report → (CounterType → ℕ → List Access) → Stats → Counters × Stats
aggregate intermediate during s = agg_intermediate during s
aggregate cumulative during s = agg_cumulative during s

abbrev pub checkpoint : Report → Stats → Counters
checkpoint intermediate s = s.last_intermediate
checkpoint cumulative s = s.last_cumulative

abbrev pub apply : Op → Stats → Stats
apply (step a) s = access a s
apply (report k during) s = (aggregate k during s).1

unfoldable pub run : List Op → Stats → Stats
run [] s = s
run (op ∷ ops) s = run ops (apply op s)

-- What one operation gives out for the type `t` in a report of the kind `k`.
abbrev pub reported : Report → CounterType → Op → Stats → ℕ
reported intermediate t (report intermediate during) s = (agg_intermediate during s).0 t
reported cumulative t (report cumulative during) s = (agg_cumulative during s).0 t
reported k t _ s = 0

unfoldable pub reported_sum : Report → CounterType → List Op → Stats → ℕ
reported_sum k t [] s = 0
reported_sum k t (op ∷ ops) s = reported k t op s + reported_sum k t ops (apply op s)

-- The events of all workers so far, modulo 2 ^ 64.
unfoldable pub totals : Stats → Counters
totals s t = sum_from s.threads 0 t s.slots % 2 ^ 64

-- What a report of the kind `k` gives out if nothing happens beside it.
abbrev pub pending : Report → CounterType → Stats → ℕ
pending k t s = since (totals s) (checkpoint k s) t

-- All the accesses while a report runs.
abbrev pub beside : (CounterType → ℕ → List Access) → Stats → List Access
beside during s = during_types during s.threads all_types

-- The increments of one type that the workers complete in an operation.
abbrev pub event_count : CounterType → Op → Stats → ℕ
event_count t (step a) s = events_from s.threads 0 t (a ∷ []) s
event_count t (report k during) s = events_from s.threads 0 t (beside during s) s

unfoldable pub events : CounterType → List Op → Stats → ℕ
events t [] s = 0
events t (op ∷ ops) s = event_count t op s + events t ops (apply op s)

abbrev merged : (CounterType → ℕ → List Access) → Stats → Counters
merged during s = (merge_types during all_types s).0

abbrev checked : Report → Counters → Stats → Stats
checked intermediate total s = record s { last_intermediate = total }
checked cumulative total s = record s { last_cumulative = total }

-- A report is the accesses beside it, and a new checkpoint.
aggregate-checked :
    (k : Report) (during : CounterType → ℕ → List Access) (s : Stats)
    → aggregate k during s ≡ (
      since (merged during s) (checkpoint k s),
      checked k (merged during s) (accesses (beside during s) s),
    )
unfolding agg_intermediate agg_cumulative
aggregate-checked intermediate during s =
    let total = merged during s in
    let after = accesses (beside during s) s in
    ap (λ w. (since total w.last_intermediate, checked intermediate total w))
      (merge_types-accesses during all_types s)
    ∙ ap (λ cp. (since total cp, checked intermediate total after))
        (accesses-kept (beside during s) s).1
aggregate-checked cumulative during s =
    let total = merged during s in
    let after = accesses (beside during s) s in
    ap (λ w. (since total w.last_cumulative, checked cumulative total w))
      (merge_types-accesses during all_types s)
    ∙ ap (λ cp. (since total cp, checked cumulative total after))
        (accesses-kept (beside during s) s).2

-- What a report of the kind `k'` gives out, as a report of the kind `k`.
abbrev given : Report → Report → ℕ → ℕ
given intermediate intermediate n = n
given cumulative cumulative n = n
given _ _ n = 0

checked-pending :
    (k : Report) (t : CounterType) (total : Counters) (after : Stats) (d : ℕ)
    → total t < 2 ^ 64
    → (total t + d) % 2 ^ 64 ≡ totals after t
    → pending k t (checked k total after) ≡ d % 2 ^ 64
unfolding totals
checked-pending intermediate t total after d lt e = omega arith
checked-pending cumulative t total after d lt e = omega arith

-- A report of either kind leaves for the next one, modulo 2^64, at most the increments of the type that
-- worker threads complete while its loops run, so nothing if there are none. There is a slot more than
-- there are workers, and what a worker has loaded is still in its slot.
pub aggregate-pending :
    (k : Report) (t : CounterType) (during : CounterType → ℕ → List Access) (s : Stats)
    → IsStats s
    → (d : ℕ) × (d ≤ events_from s.threads 0 t (beside during s) s)
      × (pending k t (aggregate k during s).1 ≡ d % 2 ^ 64)
aggregate-pending k t during s v =
    let after = accesses (beside during s) s in
    let (d, few, sum) = merge_types-late during all_types s t v (all_types-Listed t) in
    let whole : totals after t ≡ sum_from s.threads 0 t after.slots % 2 ^ 64 =
      unfold totals in
      ap (λ n. sum_from n 0 t after.slots % 2 ^ 64) (accesses-kept (beside during s) s).0 in
    (
      d,
      few,
      ap (λ r. pending k t r.1) (aggregate-checked k during s)
          ∙ checked-pending k t (merged during s) after d (merge_types-lt during all_types s t)
              (sum ∙ sym whole),
    )
