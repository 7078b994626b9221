-- ===== src/Sysbench/Tests.antt =====
-- Runs of the counters and of the histogram with reports in between.
use nu_ksm_pact21_artifact.Base.{
  ℕ, zero, suc, ◌+◌, ◌/◌, ◌%◌, ◌^◌, ◌≤◌, ◌<◌, ◌≡◌, ◌⊎◌, refl, none, length, take, List, [], ◌∷◌,
  arith,
}
use nu_ksm_pact21_artifact.Sysbench.Counter.{CounterType, Stats, cleared, Access}
use nu_ksm_pact21_artifact.Sysbench.Counter.Accesses.{IsStats}
use nu_ksm_pact21_artifact.Sysbench.Counter.Merge.{events_from}
use nu_ksm_pact21_artifact.Sysbench.Counter.Reports.{
  Report, Op, run, pending, events, beside, aggregate, aggregate-pending,
}
use nu_ksm_pact21_artifact.Sysbench.Histogram.{Position, Update, init, percentile_index}
use nu_ksm_pact21_artifact.Sysbench.Histogram.Percentile.{total, percentile_index-first}
use nu_ksm_pact21_artifact.Sysbench.Histogram.Cells.{IsHistogram, held}
use nu_ksm_pact21_artifact.Sysbench.Histogram.Events
use nu_ksm_pact21_artifact.Sysbench.Histogram.Events.{init-IsHistogram, released_sum-events}

-- Two workers, the slot of the background threads, and nothing loaded.
abbrev fresh : Stats
fresh = record {
  threads = 2;
  slots = cleared ∷ cleared ∷ cleared ∷ [];
  loaded = λ who. none;
  last_intermediate = cleared;
  last_cumulative = cleared;
}

fresh-IsStats : IsStats fresh
fresh-IsStats = record { size = refl; current = λ j lt. tt }

-- The first worker increments before its own counter is loaded, and again before the second one's is.
abbrev meanwhile : CounterType → ℕ → List Access
meanwhile CounterType.read i = Access.load 0 CounterType.read ∷ Access.store 0 ∷ []
meanwhile t i = []

-- An increment of a worker around a report, and two of background threads that meet.
abbrev some_ops : List Op
some_ops =
    Op.step (Access.load 0 CounterType.read)
    ∷ Op.step (Access.load 2 CounterType.read)
    ∷ Op.step (Access.load 3 CounterType.read)
    ∷ Op.report Report.intermediate meanwhile
    ∷ Op.step (Access.store 0)
    ∷ Op.step (Access.store 2)
    ∷ Op.step (Access.store 3)
    ∷ Op.report Report.cumulative meanwhile
    ∷ []

aggregate-pending_example :
    (d : ℕ) × (d ≤ events_from 2 0 CounterType.read (beside meanwhile fresh) fresh)
    × (pending Report.intermediate CounterType.read
          (aggregate Report.intermediate meanwhile fresh).1
        ≡ d % 2 ^ 64)
aggregate-pending_example =
    aggregate-pending Report.intermediate CounterType.read meanwhile fresh fresh-IsStats

abbrev cells : List ℕ
cells = 3 ∷ 0 ∷ 5 ∷ 2 ∷ []

few_cells : total cells < 2 ^ 64
unfolding total
few_cells = omega arith

percentile_index-first_example :
    (percentile_index cells 0 6 0 ≤ length cells)
    × ((percentile_index cells 0 6 0 ≡ 0) ⊎ (total (take (percentile_index cells 0 6 0) cells) < 6))
    × ((percentile_index cells 0 6 0 ≡ length cells)
        ⊎ (6 ≤ total (take (percentile_index cells 0 6 0 + 1) cells)))
percentile_index-first_example = percentile_index-first cells 6 few_cells

-- Percentiles as natural numbers: half of the events, and the cell's number as its value.
abbrev half : ℕ → ℕ → ℕ
half nevents percentile = nevents / 2

abbrev cell : ℕ → ℕ
cell i = i

-- An update of cell 3 of slot 0 just before the fetch of its cell 2, and one of cell 1 behind it.
abbrev updates : ℕ → ℕ → List Update
updates zero (suc (suc zero)) = (128, Position.at 3) ∷ (0, Position.at 1) ∷ []
updates slot i = []

abbrev some_events : List (Events.Op ℕ half cell)
some_events =
    Events.Op.record_value 5 (Position.at 1)
    ∷ Events.Op.record_value 200 (Position.at 9)
    ∷ Events.Op.intermediate updates 95
    ∷ Events.Op.record_value 77 Position.below_zero
    ∷ Events.Op.checkpoint updates 95
    ∷ []

released_sum-events_example :
    ((Events.released_sum ℕ half cell some_events (init 0 4)
          + held (Events.run ℕ half cell some_events (init 0 4)))
        % 2 ^ 64
      ≡ (held (init 0 4) + Events.events ℕ half cell 4 some_events) % 2 ^ 64)
    × IsHistogram (Events.run ℕ half cell some_events (init 0 4))
unfolding init
released_sum-events_example =
    released_sum-events ℕ half cell some_events (init 0 4) (init-IsHistogram 4 (omega arith)).0
