-- ===== src/HashGrid/Tests.antt =====
-- A grid of three items, searches on it, and instances of the theorems.
use rrrr.Prelude.{ℕ, ◌+◌, ◌≡◌, refl, [], ◌∷◌, if◌then◌else◌, ◌==◌, ltb, arith}
use rrrr.Rtime.{no_index}
use rrrr.HashGrid.{Coord, HashGrid, hash_grid_init, bin_of, xbin, ybin}
use rrrr.HashGrid.Bins.{IsSorted, hash_grid_init-IsSorted}
use rrrr.HashGrid.Query.{
  Search, hash_grid_query, hash_grid_result_closest, closest_loop, hash_grid_result_next, advance,
  next_bin,
}
use rrrr.HashGrid.Query.Closest.{Finds, hash_grid_result_closest-IsClosest}

abbrev square : ℕ → Coord
square n = record { x = n; y = n }

-- Items 0 and 2 lie in bin 0, item 1 in bin 3.
abbrev corners : ℕ → Coord
corners c = if c == 1 then square 15 else square (5 + c)

abbrev small : HashGrid
small = hash_grid_init (λ _. 0) 2 (square 10) corners 3

abbrev meters : Coord → Coord → ℕ
meters a b = a.x + b.x

items_run : small.items 0 ∷ small.items 1 ∷ small.items 2 ∷ [] ≡ 0 ∷ 2 ∷ 1 ∷ []
unfolding hash_grid_init bin_of xbin ybin
items_run = refl

-- The first item of the first bin is passed over: item 0 lies where the search looks.
missed_run :
    hash_grid_result_closest small ltb meters 1000 9 (hash_grid_query small (square 5) (square 1))
    ≡ Search.found no_index
unfolding hash_grid_result_closest closest_loop hash_grid_result_next advance next_bin
    hash_grid_query hash_grid_init bin_of xbin ybin
missed_run = refl

hash_grid_init-IsSorted_example : IsSorted (λ _. 0) 2 (square 10) corners 3 small
hash_grid_init-IsSorted_example =
    hash_grid_init-IsSorted (λ _. 0) 2 (square 10) corners 3 (omega arith)

-- A grid of one item: the walk reads past it.
lone_run :
    hash_grid_result_closest
      (hash_grid_init (λ _. 0) 2 (square 10) corners 1)
      ltb
      meters
      1000
      9
      (hash_grid_query small (square 15) (square 5))
    ≡ Search.out_of_bounds
unfolding hash_grid_result_closest closest_loop hash_grid_result_next advance next_bin
    hash_grid_query hash_grid_init bin_of xbin ybin
lone_run = refl

hash_grid_result_closest-IsClosest_example :
    (fuel : ℕ) × Finds
      (λ _. 0)
      2
      (square 10)
      corners
      3
      ltb
      meters
      1000
      small
      (hash_grid_query small (square 7) (square 3))
      (hash_grid_result_closest small ltb meters 1000 fuel
        (hash_grid_query small (square 7) (square 3)))
hash_grid_result_closest-IsClosest_example =
    hash_grid_result_closest-IsClosest (λ _. 0) 2 (square 10) corners 3 ltb meters 1000 (square 7)
      (square 3) (omega arith) (omega arith) (λ d. ground arith) (λ d e f p q. ground arith)
