-- ===== src/XsBench/Tests.antt =====
-- Runs of the generator and of the grid search.
use nu_ksm_pact21_artifact.Base.{ℕ, ◌%◌, ◌≡◌, Bool, some, List, [], ◌∷◌, arith, ltb}
use nu_ksm_pact21_artifact.XsBench.Lcg.{m, next_seed, fast_forward_lcg}
use nu_ksm_pact21_artifact.XsBench.Lcg.FastForward.{iterate, fast_forward_lcg-iterate}
use nu_ksm_pact21_artifact.XsBench.Grid.{grid_search, grid_search_nuclide}
use nu_ksm_pact21_artifact.XsBench.Grid.Search.{
  Brackets, grid_search-Brackets, grid_search_nuclide-Brackets,
}

fast_forward_lcg-iterate_example : fast_forward_lcg 1070 5 ≡ some (iterate (5 % m) next_seed 1070)
fast_forward_lcg-iterate_example = fast_forward_lcg-iterate 1070 5 (omega arith)

-- Energies as natural numbers, and their `>`.
abbrev gt : ℕ → ℕ → Bool
gt x y = ltb y x

abbrev energies : List ℕ
energies = 10 ∷ 20 ∷ 30 ∷ 40 ∷ 50 ∷ []

grid_search-Brackets_example :
    (r : ℕ) × (grid_search ℕ gt 5 5 34 energies ≡ some r) × Brackets ℕ gt energies 34 0 4 r
grid_search-Brackets_example =
    grid_search-Brackets ℕ gt 5 5 energies 34 (omega arith) (omega arith) (omega arith)

grid_search_nuclide-Brackets_example :
    (r : ℕ) × (grid_search_nuclide ℕ gt 4 34 energies 1 4 ≡ some r)
    × Brackets ℕ gt energies 34 1 4 r
grid_search_nuclide-Brackets_example =
    grid_search_nuclide-Brackets ℕ gt 4 energies 34 1 4 (omega arith) (omega arith) (omega arith)
