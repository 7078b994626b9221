-- ===== src/XsBench/Grid.antt =====
-- `grid_search` and `grid_search_nuclide` of benchmarks/XSBench/src/Simulation.c, over the energies
-- of the grid. A read outside the array is `none`. The limits are `long` and never negative: the
-- upper one starts at `n - 1`, for which the calls have `1 ≤ n`.
pub mod Search
use nu_ksm_pact21_artifact.Base.{
  ℕ, zero, suc, ◌+◌, ◌-◌, ◌/◌, Bool, Option, none, some, List, ltb, if◌then◌else◌, get_elem?,
}

-- `double` and its `>`.
module _ (D : Type 0) (gt : D → D → Bool) where
  -- `while (length > 1)`, where `length` is `upper - lower` at every test.
  unfoldable pub search_loop : ℕ → List D → D → ℕ → ℕ → Option ℕ
  search_loop zero grid quarry lower upper = none
  search_loop (suc fuel) grid quarry lower upper =
      let point = lower + (upper - lower) / 2 in
      let left = search_loop fuel grid quarry lower point in
      let right = search_loop fuel grid quarry point upper in
      if ltb 1 (upper - lower)
      then elim (get_elem? grid point) [
        | none ↦ none
        | some e ↦ if gt e quarry then left else right
      ]
      else some lower

  unfoldable pub grid_search_nuclide : ℕ → D → List D → ℕ → ℕ → Option ℕ
  unfolding search_loop
  grid_search_nuclide fuel quarry grid low high = search_loop fuel grid quarry low high

  unfoldable pub grid_search : ℕ → ℕ → D → List D → Option ℕ
  unfolding search_loop
  grid_search fuel n quarry grid = search_loop fuel grid quarry 0 (n - 1)
