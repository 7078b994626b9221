-- ===== src/Sysbench/Counter/Merge.antt =====
-- The sums of benchmarks/sysbench/src/sb_counter.c over the worker threads' slots, with accesses of all
-- threads between the loads.
use nu_ksm_pact21_artifact.Base.{
  ℕ, zero, suc, ◌+◌, ◌%◌, ◌^◌, ◌<◌, ◌≤◌, ◌≡◌, ◌∙◌, refl, sym, ap, none, some, Option, List, [], ◌∷◌,
  ◌++◌, arith,
}
use nu_ksm_pact21_artifact.Sysbench.Counter.{
  CounterType, Counters, Stats, counter_val, finish, inc_load, inc_store, Access, load, store,
  access, accesses, merge_from, merge_types,
}
use nu_ksm_pact21_artifact.Sysbench.Counter.Accesses.{
  IsStats, access_events, access-counts, access-IsStats,
}

finish-threads :
    (who : ℕ) (l : Option (CounterType × ℕ)) (s : Stats)
    → ((finish who l s).threads ≡ s.threads)
      × ((finish who l s).last_intermediate ≡ s.last_intermediate)
      × ((finish who l s).last_cumulative ≡ s.last_cumulative)
finish-threads who none s = (refl, refl, refl)
finish-threads who (some (type, v)) s = (refl, refl, refl)

-- Accesses leave the number of threads and the checkpoints.
access-kept :
    (a : Access) (s : Stats)
    → ((access a s).threads ≡ s.threads)
      × ((access a s).last_intermediate ≡ s.last_intermediate)
      × ((access a s).last_cumulative ≡ s.last_cumulative)
unfolding inc_load inc_store
access-kept (load who type) s = (refl, refl, refl)
access-kept (store who) s = finish-threads who (s.loaded who) s

pub accesses-kept :
    (more : List Access) (s : Stats)
    → ((accesses more s).threads ≡ s.threads)
      × ((accesses more s).last_intermediate ≡ s.last_intermediate)
      × ((accesses more s).last_cumulative ≡ s.last_cumulative)
unfolding accesses
accesses-kept [] s = (refl, refl, refl)
accesses-kept (a ∷ more) s =
    let (n, i, c) = access-kept a s in
    let (n', i', c') = accesses-kept more (access a s) in (n' ∙ n, i' ∙ i, c' ∙ c)

pub accesses-IsStats : (more : List Access) (s : Stats) → IsStats s → IsStats (accesses more s)
unfolding accesses
accesses-IsStats [] s v = v
accesses-IsStats (a ∷ more) s v = accesses-IsStats more (access a s) (access-IsStats a s v)

pub accesses-append :
    (first more : List Access) (s : Stats)
    → accesses (first ++ more) s ≡ accesses more (accesses first s)
unfolding accesses
accesses-append [] more s = refl
accesses-append (a ∷ first) more s = accesses-append first more (access a s)

-- The increments of the type `t` that the worker `j` completes in a sequence of accesses.
unfoldable pub worker_events : ℕ → CounterType → List Access → Stats → ℕ
unfolding accesses
worker_events j t [] s = 0
worker_events j t (a ∷ more) s = access_events j t a s + worker_events j t more (access a s)

-- The same for the `n` workers from `i` on.
unfoldable pub events_from : ℕ → ℕ → CounterType → List Access → Stats → ℕ
unfolding worker_events
events_from zero i t more s = 0
events_from (suc n) i t more s = worker_events i t more s + events_from n (suc i) t more s

-- The counters of the `n` workers from `i` on.
unfoldable pub sum_from : ℕ → ℕ → CounterType → List Counters → ℕ
unfolding counter_val
sum_from zero i t slots = 0
sum_from (suc n) i t slots = counter_val i t slots + sum_from n (suc i) t slots

pub worker_events-counts :
    (j : ℕ) (t : CounterType) (more : List Access) (s : Stats)
    → IsStats s
    → j < s.threads
    → counter_val j t (accesses more s).slots % 2 ^ 64
      ≡ (counter_val j t s.slots + worker_events j t more s) % 2 ^ 64
unfolding accesses worker_events
worker_events-counts j t [] s v lt = omega arith
worker_events-counts j t (a ∷ more) s v lt =
    let first = access-counts j t a s v lt in
    let same = (access-kept a s).0 in
    let rest = worker_events-counts j t more (access a s) (access-IsStats a s v) (omega arith) in
    omega arith

-- The sum over workers grows by exactly the increments that they complete.
pub events_from-counts :
    (n i : ℕ) (t : CounterType) (more : List Access) (s : Stats)
    → IsStats s
    → i + n ≤ s.threads
    → sum_from n i t (accesses more s).slots % 2 ^ 64
      ≡ (sum_from n i t s.slots + events_from n i t more s) % 2 ^ 64
unfolding events_from sum_from
events_from-counts zero i t more s v le = omega arith
events_from-counts (suc n) i t more s v le =
    let first = worker_events-counts i t more s v (omega arith) in
    let rest = events_from-counts n (suc i) t more s v (omega arith) in omega arith

pub worker_events-append :
    (j : ℕ) (t : CounterType) (first more : List Access) (s : Stats)
    → worker_events j t (first ++ more) s
      ≡ worker_events j t first s + worker_events j t more (accesses first s)
unfolding worker_events accesses
worker_events-append j t [] more s = omega arith
worker_events-append j t (a ∷ first) more s =
    omega (arith, worker_events-append j t first more (access a s))

pub events_from-append :
    (n i : ℕ) (t : CounterType) (first more : List Access) (s : Stats)
    → events_from n i t (first ++ more) s
      ≡ events_from n i t first s + events_from n i t more (accesses first s)
unfolding events_from
events_from-append zero i t first more s = omega arith
events_from-append (suc n) i t first more s =
    omega
      (arith, worker_events-append i t first more s, events_from-append n (suc i) t first more s)

-- The accesses during the loop over `n` threads from `i` on, and during the loop over the types.
unfoldable pub during_from : (ℕ → List Access) → ℕ → ℕ → List Access
during_from during zero i = []
during_from during (suc n) i = during i ++ during_from during n (suc i)

unfoldable pub during_types : (CounterType → ℕ → List Access) → ℕ → List CounterType → List Access
unfolding during_from
during_types during threads [] = []
during_types during threads (t ∷ types) =
    during_from (during t) threads 0 ++ during_types during threads types

pub merge_from-accesses :
    (during : ℕ → List Access) (t : CounterType) (n i dst : ℕ) (s : Stats)
    → (merge_from during t n i dst s).1 ≡ accesses (during_from during n i) s
unfolding merge_from during_from accesses
merge_from-accesses during t zero i dst s = refl
merge_from-accesses during t (suc n) i dst s =
    merge_from-accesses during t n (suc i) _ (accesses (during i) s)
    ∙ sym (accesses-append (during i) (during_from during n (suc i)) s)

pub merge_types-accesses :
    (during : CounterType → ℕ → List Access) (types : List CounterType) (s : Stats)
    → (merge_types during types s).1 ≡ accesses (during_types during s.threads types) s
unfolding merge_types during_types accesses
merge_types-accesses during [] s = refl
merge_types-accesses during (t ∷ types) s =
    let first = during_from (during t) s.threads 0 in
    let step : (merge_from (during t) t s.threads 0 0 s).1 ≡ accesses first s =
      merge_from-accesses (during t) t s.threads 0 0 s in
    merge_types-accesses during types (merge_from (during t) t s.threads 0 0 s).1
    ∙ ap (λ s1. accesses (during_types during s1.threads types) s1) step
    ∙ ap (λ n. accesses (during_types during n types) (accesses first s)) (accesses-kept first s).0
    ∙ sym (accesses-append first (during_types during s.threads types) s)
