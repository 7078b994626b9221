-- ===== src/XsBench/Grid/Search.antt =====
-- The searches of `XsBench.Grid` end inside their limits, at the interval that holds the energy.
use nu_ksm_pact21_artifact.Base.{
  ℕ, zero, suc, ◌+◌, ◌-◌, ◌/◌, ◌≤◌, ◌<◌, ◌≡◌, ◌⊎◌, refl, inl, inr, Bool, true, false, some, List,
  arith, ltb, Bool-cases, length, get_elem?, get_elem?-some,
}
use nu_ksm_pact21_artifact.XsBench.Grid.{search_loop, grid_search, grid_search_nuclide}

module _ (D : Type 0) (gt : D → D → Bool) where
  -- Index `r` is where the energy lies between `low` and `high`: not below the energy at `r`,
  -- unless that is the first index, and below the one at `r + 1`, unless that is the last.
  pub record Brackets (grid : List D) (quarry : D) (low high r : ℕ) : Type 0 where
    pub from_low : low ≤ r
    pub to_high : r ≤ high
    pub not_above : (r ≡ low) ⊎ ((e : D) × (get_elem? grid r ≡ some e) × (gt e quarry ≡ false))
    pub next_above :
        (high ≤ r + 1) ⊎ ((e : D) × (get_elem? grid (r + 1) ≡ some e) × (gt e quarry ≡ true))

  -- What the loop knows of its limits.
  record Limits (grid : List D) (quarry : D) (low high lower upper : ℕ) : Type 0 where
    from_low : low ≤ lower
    ordered : lower ≤ upper
    to_high : upper ≤ high
    inside : high < length grid
    not_above : (lower ≡ low) ⊎ ((e : D) × (get_elem? grid lower ≡ some e) × (gt e quarry ≡ false))
    next_above :
        (upper ≡ high)
        ⊎ ((e : D) × (lower < upper) × (get_elem? grid upper ≡ some e) × (gt e quarry ≡ true))

  Limits-Brackets :
      {grid : List D} {quarry : D} {low high lower upper : ℕ}
      → Limits grid quarry low high lower upper
      → upper - lower ≤ 1
      → Brackets grid quarry low high lower
  Limits-Brackets {grid} {lower} {upper} l near = record {
    from_low = l.from_low;
    to_high = omega arith;
    not_above = l.not_above;
    next_above = elim l.next_above [
      | inl last ↦ inl (omega arith)
      | inr (e, apart, read, above) ↦
          let next : upper ≡ lower + 1 = omega arith in inr (e, rw (← next) read, above)
    ];
  }

  search_loop-Brackets :
      (fuel : ℕ) (grid : List D) (quarry : D) (low high lower upper : ℕ)
      → Limits grid quarry low high lower upper
      → upper - lower < fuel
      → (r : ℕ) × (search_loop D gt fuel grid quarry lower upper ≡ some r)
        × Brackets grid quarry low high r
  unfolding search_loop
  search_loop-Brackets zero grid quarry low high lower upper l h = absurd (omega arith)
  search_loop-Brackets (suc fuel) grid quarry low high lower upper l h =
      let point = lower + (upper - lower) / 2 in
      let inner = l.inside in
      let below = l.to_high in
      let (e, read) = get_elem?-some grid point (omega arith) in
      elim (Bool-cases (ltb 1 (upper - lower))) [
        | inr near ↦ (lower, rw near, Limits-Brackets l (ground arith))
        | inl wide ↦ elim (Bool-cases (gt e quarry)) [
          | inl above ↦
              let (r, run, b) =
                search_loop-Brackets fuel grid quarry low high lower point
                  (record {
                    from_low = l.from_low;
                    ordered = omega arith;
                    to_high = omega arith;
                    inside = l.inside;
                    not_above = l.not_above;
                    next_above = inr (e, ltb-half lower upper wide, read, above);
                  })
                  (ground arith) in
              (r, rw (wide, read, above) run, b)
          | inr not_above ↦
              let (r, run, b) =
                search_loop-Brackets fuel grid quarry low high point upper
                  (record {
                    from_low = let low_in = l.from_low in omega arith;
                    ordered = omega arith;
                    to_high = l.to_high;
                    inside = l.inside;
                    not_above = inr (e, read, not_above);
                    next_above = elim l.next_above [
                      | inl last ↦ inl last
                      | inr (e', apart, read', above') ↦ inr (e', ground arith, read', above')
                    ];
                  })
                  (ground arith) in
              (r, rw (wide, read, not_above) run, b)
        ]
      ]
    where
      ltb-half : (a b : ℕ) → ltb 1 (b - a) ≡ true → a < a + (b - a) / 2
      ltb-half a b w = ground arith

  -- For any energies and any comparison, on the first `n` points of a grid that has them, with `n`
  -- positive, `grid_search` ends within `n` rounds, reads no point outside of the grid, and returns
  -- an index at which the energy searched for lies between two neighbors or at an end.
  pub grid_search-Brackets :
      (fuel n : ℕ) (grid : List D) (quarry : D)
      → 0 < n
      → n ≤ length grid
      → n ≤ fuel
      → (r : ℕ) × (grid_search D gt fuel n quarry grid ≡ some r) × Brackets grid quarry 0 (n - 1) r
  unfolding grid_search
  grid_search-Brackets fuel n grid quarry pos fits enough =
      search_loop-Brackets fuel grid quarry 0 (n - 1) 0 (n - 1)
        (record {
          from_low = omega arith;
          ordered = omega arith;
          to_high = omega arith;
          inside = omega arith;
          not_above = inl refl;
          next_above = inl refl;
        })
        (omega arith)

  -- For two indices in order, the upper one inside the grid, `grid_search_nuclide` ends within
  -- `high - low + 1` rounds and returns an index from `low` to `high` at which the energy lies
  -- between two neighbors or at an end of this part of the grid.
  pub grid_search_nuclide-Brackets :
      (fuel : ℕ) (grid : List D) (quarry : D) (low high : ℕ)
      → low ≤ high
      → high < length grid
      → high - low < fuel
      → (r : ℕ) × (grid_search_nuclide D gt fuel quarry grid low high ≡ some r)
        × Brackets grid quarry low high r
  unfolding grid_search_nuclide
  grid_search_nuclide-Brackets fuel grid quarry low high le inside enough =
      search_loop-Brackets fuel grid quarry low high low high
        (record {
          from_low = omega arith;
          ordered = le;
          to_high = omega arith;
          inside = inside;
          not_above = inl refl;
          next_above = inl refl;
        })
        enough
