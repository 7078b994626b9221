-- ===== src/Sysbench/Counter.antt =====
-- The event counters of benchmarks/sysbench/src/sb_counter.c and sb_counter.h: a slot for each worker
-- thread and one that all background threads share, and the two checkpoints of the aggregated reports.
-- An increment is an atomic load and, later, an atomic store. Other threads' loads and stores come
-- between those of an increment and between the loads of a report.
pub mod Accesses
pub mod Late
pub mod Merge
pub mod Reports
use nu_ksm_pact21_artifact.Base.{
  ℕ, zero, suc, ◌+◌, ◌-◌, ◌%◌, ◌^◌, Bool, Option, none, some, List, [], ◌∷◌, ltb, ◌==◌,
  if◌then◌else◌,
}

-- `sb_counter_type_t`, less its `SB_CNT_MAX`.
pub data CounterType : Type 0 where
  other read write event error reconnect : CounterType

abbrev pub index : CounterType → ℕ
index other = 0
index read = 1
index write = 2
index event = 3
index error = 4
index reconnect = 5

-- `sb_counters_t`
abbrev pub Counters : Type 0
Counters = CounterType → ℕ

-- `threads` is `sb_globals.threads`, and `loaded` what each thread has loaded for an increment that it
-- has not stored yet. The thread IDs from `threads` on are those of background threads.
pub record Stats : Type 0 where
  pub threads : ℕ
  pub slots : List Counters
  pub loaded : ℕ → Option (CounterType × ℕ)
  pub last_intermediate : Counters
  pub last_cumulative : Counters

abbrev pub cleared : Counters
cleared t = 0

-- The slot of a thread: `sb_alloc_per_thread_array` makes one more than there are worker threads.
abbrev pub slot_of : ℕ → ℕ → ℕ
slot_of threads who = if ltb who threads then who else threads

-- `sb_counter_val`
unfoldable pub counter_val : ℕ → CounterType → List Counters → ℕ
counter_val i t [] = 0
counter_val zero t (cs ∷ slots) = cs t
counter_val (suc i) t (cs ∷ slots) = counter_val i t slots

abbrev pub with_count : CounterType → ℕ → Counters → Counters
with_count type v cs t = if index t == index type then v else cs t

-- `ck_pr_store_64` of one counter.
unfoldable pub store_val : ℕ → CounterType → ℕ → List Counters → List Counters
store_val i type v [] = []
store_val zero type v (cs ∷ slots) = with_count type v cs ∷ slots
store_val (suc i) type v (cs ∷ slots) = cs ∷ store_val i type v slots

abbrev pub set_loaded :
    ℕ → Option (CounterType × ℕ) → (ℕ → Option (CounterType × ℕ)) → ℕ → Option (CounterType × ℕ)
set_loaded who l loaded i = if i == who then l else loaded i

-- The load of `sb_counter_inc`.
unfoldable pub inc_load : ℕ → CounterType → Stats → Stats
unfolding counter_val
inc_load who type s = record s {
  loaded = set_loaded who (some (type, counter_val (slot_of s.threads who) type s.slots)) s.loaded;
}

-- The store of `sb_counter_inc`; a thread that has loaded nothing does nothing.
abbrev pub finish : ℕ → Option (CounterType × ℕ) → Stats → Stats
finish who none s = s
finish who (some (type, v)) s = record s {
  slots = store_val (slot_of s.threads who) type ((v + 1) % 2 ^ 64) s.slots;
  loaded = set_loaded who none s.loaded;
}

unfoldable pub inc_store : ℕ → Stats → Stats
inc_store who s = finish who (s.loaded who) s

-- `sb_counter_inc`, with nothing in between.
unfoldable pub counter_inc : ℕ → CounterType → Stats → Stats
unfolding inc_load inc_store
counter_inc who type s = inc_store who (inc_load who type s)

-- An access of a thread to a counter: the two halves of an increment.
pub data Access : Type 0 where
  load : ℕ → CounterType → Access
  store : ℕ → Access

abbrev pub access : Access → Stats → Stats
access (load who type) s = inc_load who type s
access (store who) s = inc_store who s

unfoldable pub accesses : List Access → Stats → Stats
accesses [] s = s
accesses (a ∷ more) s = accesses more (access a s)

-- The inner loop of `sb_counters_merge` for one type, from the thread `i` on, for `n` threads:
-- `during` has the accesses that happen before the load of each thread's counter.
unfoldable pub merge_from : (ℕ → List Access) → CounterType → ℕ → ℕ → ℕ → Stats → ℕ × Stats
unfolding accesses counter_val
merge_from during t zero i dst s = (dst, s)
merge_from during t (suc n) i dst s =
    let s = accesses (during i) s in
    merge_from during t n (suc i) ((dst + counter_val i t s.slots) % 2 ^ 64) s

-- The outer loop, over the types, from a destination of zeros.
unfoldable pub merge_types :
    (CounterType → ℕ → List Access) → List CounterType → Stats → Counters × Stats
unfolding merge_from
merge_types during [] s = (cleared, s)
merge_types during (t ∷ types) s =
    let (total, s) = merge_from (during t) t s.threads 0 0 s in
    let (rest, s) = merge_types during types s in (with_count t total rest, s)

abbrev pub all_types : List CounterType
all_types = other ∷ read ∷ write ∷ event ∷ error ∷ reconnect ∷ []

-- `sb_counters_checkpoint`: the difference that goes out; the new checkpoint is the total.
abbrev pub since : Counters → Counters → Counters
since total cp t = (total t + 2 ^ 64 - cp t) % 2 ^ 64

unfoldable pub agg_intermediate : (CounterType → ℕ → List Access) → Stats → Counters × Stats
unfolding merge_types
agg_intermediate during s =
    let (total, s) = merge_types during all_types s in
    (since total s.last_intermediate, record s { last_intermediate = total })

unfoldable pub agg_cumulative : (CounterType → ℕ → List Access) → Stats → Counters × Stats
unfolding merge_types
agg_cumulative during s =
    let (total, s) = merge_types during all_types s in
    (since total s.last_cumulative, record s { last_cumulative = total })
