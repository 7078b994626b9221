-- ===== src/Sysbench/Counter/Late.antt =====
-- What the loops of `sb_counters_merge` in benchmarks/sysbench/src/sb_counter.c load, against the sums
-- that the counters have when the loops end.
use mathlib.Core.Path.{subst}
use nu_ksm_pact21_artifact.Base.{
  ℕ, zero, suc, ◌+◌, ◌%◌, ◌^◌, ◌<◌, ◌≤◌, ◌≡◌, ◌⊎◌, refl, sym, ap, inl, inr, Bool-cases, List, [],
  ◌∷◌, arith, ◌==◌,
}
use nu_ksm_pact21_artifact.Sysbench.Counter.{
  CounterType, index, Stats, counter_val, Access, accesses, merge_from, merge_types, all_types,
}
use nu_ksm_pact21_artifact.Sysbench.Counter.Accesses.{IsStats, index-injective}
use nu_ksm_pact21_artifact.Sysbench.Counter.Merge.{
  accesses-kept, accesses-IsStats, worker_events, events_from, sum_from, worker_events-counts,
  events_from-counts, worker_events-append, events_from-append, accesses-append, during_from,
  during_types, merge_from-accesses,
}

merge_from-lt :
    (during : ℕ → List Access) (t : CounterType) (n i dst : ℕ) (s : Stats)
    → dst < 2 ^ 64
    → (merge_from during t n i dst s).0 < 2 ^ 64
unfolding merge_from
merge_from-lt during t zero i dst s h = h
merge_from-lt during t (suc n) i dst s h =
    merge_from-lt during t n (suc i) _ (accesses (during i) s) (omega arith)

pub merge_types-lt :
    (during : CounterType → ℕ → List Access) (types : List CounterType) (s : Stats)
    (t : CounterType)
    → (merge_types during types s).0 t < 2 ^ 64
unfolding merge_types
merge_types-lt during [] s t = omega arith
merge_types-lt during (u ∷ types) s t =
    let first = merge_from-lt (during u) u s.threads 0 0 s (omega arith) in
    let rest = merge_types-lt during types (merge_from (during u) u s.threads 0 0 s).1 t in
    elim (Bool-cases (index t == index u)) [ inl same ↦ rw same first | inr other ↦ rw other rest ]

-- The loop for one type misses at most the increments that are completed while it runs.
merge_from-late :
    (during : ℕ → List Access) (t : CounterType) (n i dst : ℕ) (s : Stats)
    → IsStats s
    → i + n ≤ s.threads
    → (d : ℕ) × (d ≤ events_from n i t (during_from during n i) s)
      × (((merge_from during t n i dst s).0 + d) % 2 ^ 64
          ≡ (dst + sum_from n i t (accesses (during_from during n i) s).slots) % 2 ^ 64)
unfolding merge_from events_from during_from sum_from accesses
merge_from-late during t zero i dst s v le = (0, omega arith, omega arith)
merge_from-late during t (suc n) i dst s v le =
    let s1 = accesses (during i) s in
    let v1 = accesses-IsStats (during i) s v in
    let same = (accesses-kept (during i) s).0 in
    let rest = during_from during n (suc i) in
    let (d, few, sum) =
      merge_from-late during t n (suc i) ((dst + counter_val i t s1.slots) % 2 ^ 64) s1 v1
        (omega arith) in
    let grown = worker_events-counts i t rest s1 v1 (omega arith) in
    let whole = accesses-append (during i) rest s in
    let split = worker_events-append i t (during i) rest s in
    let splits = events_from-append n (suc i) t (during i) rest s in
    (d + worker_events i t rest s1, omega arith, rw whole (omega arith))

abbrev pub Listed : CounterType → List CounterType → Type 0
Listed t [] = ⊥
Listed t (u ∷ types) = (t ≡ u) ⊎ Listed t types

pub all_types-Listed : (t : CounterType) → Listed t all_types
all_types-Listed CounterType.other = inl refl
all_types-Listed CounterType.read = inr (inl refl)
all_types-Listed CounterType.write = inr (inr (inl refl))
all_types-Listed CounterType.event = inr (inr (inr (inl refl)))
all_types-Listed CounterType.error = inr (inr (inr (inr (inl refl))))
all_types-Listed CounterType.reconnect = inr (inr (inr (inr (inr (inl refl)))))

-- Both loops.
pub merge_types-late :
    (during : CounterType → ℕ → List Access) (types : List CounterType) (s : Stats)
    (t : CounterType)
    → IsStats s
    → Listed t types
    → let all = during_types during s.threads types in
      (d : ℕ) × (d ≤ events_from s.threads 0 t all s)
      × (((merge_types during types s).0 t + d) % 2 ^ 64
          ≡ sum_from s.threads 0 t (accesses all s).slots % 2 ^ 64)
unfolding merge_types during_types
merge_types-late during [] s t v l = absurd l
merge_types-late during (u ∷ types) s t v l =
    let n = s.threads in
    let first = during_from (during u) n 0 in
    let s1 = accesses first s in
    let v1 = accesses-IsStats first s v in
    let same : s1.threads ≡ n = (accesses-kept first s).0 in
    let rest = during_types during n types in
    let moved : (merge_from (during u) u n 0 0 s).1 ≡ s1 =
      merge_from-accesses (during u) u n 0 0 s in
    let split = events_from-append n 0 t first rest s in
    let whole = accesses-append first rest s in
    elim (Bool-cases (index t == index u)) [
      | inl hit ↦
          let e : t ≡ u = index-injective t u (ground arith) in
          let same_load : (merge_from (during u) u n 0 0 s).0
              ≡ (merge_from (during u) t n 0 0 s).0 =
            ap (λ w. (merge_from (during u) w n 0 0 s).0) (sym e) in
          let (d, few, sum) = merge_from-late (during u) t n 0 0 s v (omega arith) in
          let grown = events_from-counts n 0 t rest s1 v1 (omega arith) in
          (d + events_from n 0 t rest s1, omega arith, rw (hit, whole) (omega arith))
      | inr miss ↦ elim l [
        | inl e ↦ absurd (let i = ap index e in ground arith)
        | inr later ↦
            let same_load : (merge_types during types (merge_from (during u) u n 0 0 s).1).0 t
                ≡ (merge_types during types s1).0 t =
              ap (λ w. (merge_types during types w).0 t) moved in
            let (d, few, sum) =
              subst
                (λ k.
                  (d : ℕ) × (d ≤ events_from k 0 t (during_types during k types) s1)
                  × (((merge_types during types s1).0 t + d) % 2 ^ 64
                      ≡ sum_from k 0 t (accesses (during_types during k types) s1).slots % 2 ^ 64))
                same (merge_types-late during types s1 t v1 later) in
            (d, omega arith, rw (miss, whole) (omega arith))
      ]
    ]
