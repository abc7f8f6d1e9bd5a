-- ===== src/HashGrid/Query/Closest.antt =====
-- The search for the closest item, on the grid that `HashGrid_init` builds.
use rrrr.Prelude.{ℕ, ◌+◌, ◌^◌, ◌<◌, ◌≡◌, refl, sym, subst, Bool, true, false, List, All, arith}
use native.Mathlib.Nat.{mod-lt}
use rrrr.Rtime.{no_index}
use rrrr.HashGrid.{Coord, HashGrid, xbin, ybin, hash_grid_init}
use rrrr.HashGrid.Bins.{hash_grid_init-IsSorted, items-lt}
use rrrr.HashGrid.Query.{HashGridResult, Search, hash_grid_query, hash_grid_result_closest}
use rrrr.HashGrid.Query.Best.{Visits, Leaves, IsClosest, best_of-IsClosest}
use rrrr.HashGrid.Query.Turns.{Outcome}
use rrrr.HashGrid.Query.Ends.{IsOn, rows_lem}
use rrrr.HashGrid.Query.Steps.{left}

module _ (hg : HashGrid) {D : Type 0} (less : D → D → Bool) (meters : Coord → Coord → D) where
  query-IsOn :
      (coord radius : Coord)
      → 0 < hg.grid_dim
      → let r = hash_grid_query hg coord radius in IsOn hg less meters r r
  unfolding hash_grid_query xbin ybin
  query-IsOn coord radius pos = record {
    live = refl;
    same_coord = refl;
    same_min = refl;
    same_max = refl;
    x_lt = mod-lt _ pos;
    y_lt = mod-lt _ pos;
    xmin_lt = mod-lt _ pos;
    xmax_lt = mod-lt _ pos;
    ymax_lt = mod-lt _ pos;
  }

module _ (memory : ℕ → ℕ) (grid_dim : ℕ) (bin_size : Coord) (coords : ℕ → Coord) (n_items : ℕ)
    {D : Type 0} (less : D → D → Bool) (meters : Coord → Coord → D) (infinity : D) where
  -- A search leaves the arrays, or visits items and returns the closest of them, if any.
  abbrev pub Finds : HashGrid → HashGridResult → Search ℕ → Type 0
  Finds hg r Search.no_fuel = ⊥
  Finds hg r Search.out_of_bounds = Leaves hg r
  Finds hg r (Search.found item) =
      (items : List ℕ) × Visits hg r items
      × All (λ c. c < hg.n_items) items
      × IsClosest hg less meters r.coord r.min r.max infinity items item

  outcome-Finds :
      (hg : HashGrid) (r : HashGridResult) (res : Search ℕ)
      → ((d : D) → less d d ≡ false)
      → ((d e f : D) → less d e ≡ true → less e f ≡ true → less d f ≡ true)
      → Outcome hg less meters r r (no_index, infinity) res
      → Finds hg r res
  outcome-Finds hg r Search.no_fuel irreflexive transitive h = h
  outcome-Finds hg r Search.out_of_bounds irreflexive transitive h = h
  outcome-Finds hg r (Search.found item) irreflexive transitive (items, visits, are, e) = (
    items,
    visits,
    are,
    subst (IsClosest hg less meters r.coord r.min r.max infinity items) (sym e) (
        best_of-IsClosest hg less meters r.coord r.min r.max irreflexive transitive infinity items),
  )

  -- On the grid of fewer than 2 ^ 32 - 1 items, with a comparison of distances that is irreflexive
  -- and transitive, the search for the item closest to a point ends. Either the walk over the bins
  -- of the query comes to a read past the end of the array of items; or the search returns, among the
  -- items that the walk visits, all of them in the grid, one inside the bounding box of the query to
  -- which no other inside it is closer, or NONE if none inside it is closer than infinity.
  pub hash_grid_result_closest-IsClosest :
      (coord radius : Coord)
      → 0 < grid_dim
      → n_items + 1 < 2 ^ 32
      → ((d : D) → less d d ≡ false)
      → ((d e f : D) → less d e ≡ true → less e f ≡ true → less d f ≡ true)
      → let hg = hash_grid_init memory grid_dim bin_size coords n_items in
        let r = hash_grid_query hg coord radius in
        (fuel : ℕ) × Finds hg r (hash_grid_result_closest hg less meters infinity fuel r)
  unfolding hash_grid_query hash_grid_result_closest hash_grid_init
  hash_grid_result_closest-IsClosest coord radius pos few irreflexive transitive =
      let hg = hash_grid_init memory grid_dim bin_size coords n_items in
      let r = hash_grid_query hg coord radius in
      let sorted = hash_grid_init-IsSorted memory grid_dim bin_size coords n_items pos in
      let (fuel, h) =
        rows_lem hg less meters r n_items few
          (λ b lt. let fits = sorted.3 b lt in omega (arith, fits))
          (items-lt memory grid_dim bin_size coords n_items pos) few (left grid_dim r.y r.ymax) r
          (omega arith) (omega arith) (query-IsOn hg less meters coord radius pos)
          (no_index, infinity) in
      (fuel, outcome-Finds hg r _ irreflexive transitive h)
