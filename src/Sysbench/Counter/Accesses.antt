-- ===== src/Sysbench/Counter/Accesses.antt =====
-- What the loads and stores of increments do to the counters of benchmarks/sysbench/src/sb_counter.h:
-- a worker's own slot counts its increments, whatever other threads do in between.
use mathlib.Core.Path.{subst}
use nu_ksm_pact21_artifact.Base.{
  ℕ, zero, suc, ◌+◌, ◌%◌, ◌^◌, ◌<◌, ◌≡◌, ◌≢◌, ◌∙◌, refl, sym, ap, inl, inr, Bool-cases, Option,
  none, some, List, [], ◌∷◌, arith, length, ◌==◌, if◌then◌else◌,
}
use nu_ksm_pact21_artifact.Sysbench.Counter.{
  CounterType, index, Counters, Stats, slot_of, counter_val, store_val, finish, inc_load, inc_store,
  Access, load, store, access,
}

type_of : ℕ → CounterType
type_of zero = CounterType.other
type_of (suc zero) = CounterType.read
type_of (suc (suc zero)) = CounterType.write
type_of (suc (suc (suc zero))) = CounterType.event
type_of (suc (suc (suc (suc zero)))) = CounterType.error
type_of (suc (suc (suc (suc (suc n))))) = CounterType.reconnect

type_of-index : (t : CounterType) → type_of (index t) ≡ t
unfolding type_of
type_of-index CounterType.other = refl
type_of-index CounterType.read = refl
type_of-index CounterType.write = refl
type_of-index CounterType.event = refl
type_of-index CounterType.error = refl
type_of-index CounterType.reconnect = refl

pub index-injective : (t u : CounterType) → index t ≡ index u → t ≡ u
index-injective t u e = sym (type_of-index t) ∙ ap type_of e ∙ type_of-index u

store_val-other :
    (i j : ℕ) (t type : CounterType) (v : ℕ) (slots : List Counters)
    → i ≢ j
    → counter_val j t (store_val i type v slots) ≡ counter_val j t slots
unfolding counter_val store_val
store_val-other i j t type v [] ne = refl
store_val-other zero zero t type v (cs ∷ slots) ne = absurd (ne refl)
store_val-other zero (suc j) t type v (cs ∷ slots) ne = refl
store_val-other (suc i) zero t type v (cs ∷ slots) ne = refl
store_val-other (suc i) (suc j) t type v (cs ∷ slots) ne =
    store_val-other i j t type v slots (λ e. ne (ap suc e))

store_val-same :
    (i : ℕ) (t type : CounterType) (v : ℕ) (slots : List Counters)
    → i < length slots
    → counter_val i t (store_val i type v slots)
      ≡ (if index t == index type then v else counter_val i t slots)
unfolding counter_val store_val
store_val-same i t type v [] h = absurd (omega arith)
store_val-same zero t type v (cs ∷ slots) h = refl
store_val-same (suc i) t type v (cs ∷ slots) h = store_val-same i t type v slots (omega arith)

length-store_val :
    (i : ℕ) (type : CounterType) (v : ℕ) (slots : List Counters)
    → length (store_val i type v slots) ≡ length slots
unfolding store_val
length-store_val i type v [] = refl
length-store_val zero type v (cs ∷ slots) = refl
length-store_val (suc i) type v (cs ∷ slots) = ap suc (length-store_val i type v slots)

-- What the thread `j` has loaded is still in its slot.
abbrev pub Current : ℕ → List Counters → Option (CounterType × ℕ) → Type 0
Current j slots none = Unit
Current j slots (some (type, v)) = counter_val j type slots ≡ v

-- There is a slot for each worker and one for the background threads, and what a worker has loaded is
-- still in its slot.
pub record IsStats (s : Stats) : Type 0 where
  pub size : length s.slots ≡ suc s.threads
  pub current : (j : ℕ) → j < s.threads → Current j s.slots (s.loaded j)

Current-same :
    (j : ℕ) (before after : List Counters) (l : Option (CounterType × ℕ))
    → ((t : CounterType) → counter_val j t after ≡ counter_val j t before)
    → Current j before l
    → Current j after l
Current-same j before after none e c = tt
Current-same j before after (some (type, v)) e c = e type ∙ c

slot_of-ne : (threads who j : ℕ) → j < threads → who ≢ j → slot_of threads who ≢ j
slot_of-ne threads who j lt ne = ground arith

-- The increments of the type `t` that storing what was loaded makes.
abbrev pub stored : CounterType → Option (CounterType × ℕ) → ℕ
stored t none = 0
stored t (some (type, v)) = if index t == index type then 1 else 0

-- The increments of the type `t` by the worker `j` in one access.
abbrev pub access_events : ℕ → CounterType → Access → Stats → ℕ
access_events j t (load who type) s = 0
access_events j t (store who) s = if who == j then stored t (s.loaded who) else 0

store_val-counts :
    (j : ℕ) (t type : CounterType) (v : ℕ) (slots : List Counters)
    → j < length slots
    → counter_val j type slots ≡ v
    → counter_val j t (store_val j type ((v + 1) % 2 ^ 64) slots) % 2 ^ 64
      ≡ (counter_val j t slots + stored t (some (type, v))) % 2 ^ 64
store_val-counts j t type v slots lt c =
    let new = store_val-same j t type ((v + 1) % 2 ^ 64) slots lt in
    elim (Bool-cases (index t == index type)) [
      | inl same ↦
          let e : t ≡ type = index-injective t type (ground arith) in
          let old : counter_val j t slots ≡ v = ap (λ u. counter_val j u slots) e ∙ c in
          rw (new, same) (omega arith)
      | inr other ↦ rw (new, other) (omega arith)
    ]

finish-counts :
    (j who : ℕ) (t : CounterType) (l : Option (CounterType × ℕ)) (s : Stats)
    → length s.slots ≡ suc s.threads
    → j < s.threads
    → (who ≡ j → Current j s.slots l)
    → counter_val j t (finish who l s).slots % 2 ^ 64
      ≡ (counter_val j t s.slots + (if who == j then stored t l else 0)) % 2 ^ 64
finish-counts j who t none s n lt c = ground arith
finish-counts j who t (some (type, v)) s n lt c = elim (Bool-cases (who == j)) [
  | inl same ↦
      let e : who ≡ j = ground arith in
      let here : slot_of s.threads who ≡ j = ground arith in
      rw (same, here) (store_val-counts j t type v s.slots (omega arith) (c e))
  | inr other ↦
      let ne : who ≢ j = ground arith in
      let kept =
        store_val-other (slot_of s.threads who) j t type ((v + 1) % 2 ^ 64) s.slots
          (slot_of-ne s.threads who j lt ne) in
      rw (other, kept) (omega arith)
]

pub access-counts :
    (j : ℕ) (t : CounterType) (a : Access) (s : Stats)
    → IsStats s
    → j < s.threads
    → counter_val j t (access a s).slots % 2 ^ 64
      ≡ (counter_val j t s.slots + access_events j t a s) % 2 ^ 64
unfolding inc_load inc_store
access-counts j t (load who type) s v lt = omega arith
access-counts j t (store who) s v lt =
    finish-counts j who t (s.loaded who) s v.size lt
      (λ e. subst (λ k. Current j s.slots (s.loaded k)) (sym e) (v.current j lt))

finish-IsStats :
    (who : ℕ) (l : Option (CounterType × ℕ)) (s : Stats) → IsStats s → IsStats (finish who l s)
finish-IsStats who none s v = v
finish-IsStats who (some (type, n)) s v = record {
  size = length-store_val (slot_of s.threads who) type ((n + 1) % 2 ^ 64) s.slots ∙ v.size;
  current = λ j lt. elim (Bool-cases (j == who)) [
    | inl same ↦ rw same tt
    | inr other ↦
        let ne : who ≢ j = ground arith in
        rw other (
          Current-same j s.slots _ (s.loaded j)
            (λ t.
              store_val-other (slot_of s.threads who) j t type ((n + 1) % 2 ^ 64) s.slots
                (slot_of-ne s.threads who j lt ne))
            (v.current j lt))
  ];
}

pub access-IsStats : (a : Access) (s : Stats) → IsStats s → IsStats (access a s)
unfolding inc_load inc_store
access-IsStats (load who type) s v = record {
  size = v.size;
  current = λ j lt. elim (Bool-cases (j == who)) [
    | inl same ↦
        let here : slot_of s.threads who ≡ j = ground arith in
        rw same (ap (λ k. counter_val k type s.slots) (sym here))
    | inr other ↦ rw other (v.current j lt)
  ];
}
access-IsStats (store who) s v = finish-IsStats who (s.loaded who) s v
