-- ===== src/Sysbench/Histogram/Percentile.antt =====
-- Where the percentile loop of benchmarks/sysbench/src/sb_histogram.c stops.
use nu_ksm_pact21_artifact.Base.{
  ℕ, suc, ◌+◌, ◌%◌, ◌^◌, ◌≤◌, ◌<◌, ◌≡◌, ◌∙◌, ◌⊎◌, refl, inl, inr, List, [], ◌∷◌, arith, leb,
  Bool-cases, length, take,
}
use nu_ksm_pact21_artifact.Sysbench.Histogram.{percentile_index}

-- The number of events in an array.
unfoldable pub total : List ℕ → ℕ
total [] = 0
total (n ∷ array) = n + total array

-- The two bounds, for one cell more in front.
before_suc :
    (k ncur n nmax : ℕ) (array : List ℕ)
    → (k ≡ 0) ⊎ (ncur + n + total (take k array) < nmax)
    → ncur + n < nmax
    → ncur + total (take (suc k) (n ∷ array)) < nmax
unfolding total
before_suc k ncur n nmax array (inl at_start) few = rw at_start (omega arith)
before_suc k ncur n nmax array (inr more) few = omega arith

after_suc :
    (k ncur n nmax : ℕ) (array : List ℕ)
    → (k ≡ length array) ⊎ (nmax ≤ ncur + n + total (take (k + 1) array))
    → (suc k ≡ length (n ∷ array)) ⊎ (nmax ≤ ncur + total (take (suc k + 1) (n ∷ array)))
unfolding total
after_suc k ncur n nmax array (inl all) = inl (omega arith)
after_suc k ncur n nmax array (inr more) =
    let next : suc k + 1 ≡ suc (k + 1) = omega arith in inr (rw next (omega arith))

percentile_index-total :
    (array : List ℕ) (ncur nmax i : ℕ)
    → ncur + total array < 2 ^ 64
    → (k : ℕ) × (percentile_index array ncur nmax i ≡ i + k)
      × (k ≤ length array)
      × ((k ≡ 0) ⊎ (ncur + total (take k array) < nmax))
      × ((k ≡ length array) ⊎ (nmax ≤ ncur + total (take (k + 1) array)))
unfolding percentile_index total
percentile_index-total [] ncur nmax i h = (0, omega arith, omega arith, inl refl, inl refl)
percentile_index-total (n ∷ array) ncur nmax i h =
    let whole : (ncur + n) % 2 ^ 64 ≡ ncur + n = omega arith in
    elim (Bool-cases (leb nmax (ncur + n))) [
      | inl enough ↦ rw (whole, enough) (0, omega arith, omega arith, inl refl, inr (ground arith))
      | inr few ↦
          let (k, run, inside, before, after) =
            percentile_index-total array (ncur + n) nmax (i + 1) (omega arith) in
          rw (whole, few)
            (
              suc k,
              run ∙ omega arith,
              omega arith,
              inr (before_suc k ncur n nmax array before (ground arith)),
              after_suc k ncur n nmax array after,
            )
    ]

-- On an array whose events do not overflow a 64-bit number, the loop stops at the first cell up to
-- which there are at least `nmax` events: with fewer events before it (unless it is the first one),
-- and at the end of the array if there are not that many.
pub percentile_index-first :
    (array : List ℕ) (nmax : ℕ)
    → total array < 2 ^ 64
    → let i = percentile_index array 0 nmax 0 in
      (i ≤ length array)
      × ((i ≡ 0) ⊎ (total (take i array) < nmax))
      × ((i ≡ length array) ⊎ (nmax ≤ total (take (i + 1) array)))
percentile_index-first array nmax h =
    let (k, run, inside, before, after) = percentile_index-total array 0 nmax 0 (omega arith) in
    let same : 0 + k ≡ k = omega arith in rw (run, same) (inside, ground arith, ground arith)
