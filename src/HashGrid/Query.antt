-- ===== src/HashGrid/Query.antt =====
-- hashgrid.c: the walk over the bins of a bounding box, and the closest item on it.
pub mod Closest
pub mod Best
pub mod Ends
pub mod Steps
pub mod Turns
use rrrr.Prelude.{
  ℕ, zero, suc, ◌+◌, ◌-◌, ◌*◌, ◌%◌, ◌^◌, Bool, true, false, Option, none, some, ltb, leb, ◌==◌, not,
  ◌&&◌, if◌then◌else◌,
}
use rrrr.Rtime.{no_index}
use rrrr.HashGrid.{Coord, HashGrid, xbin, ybin}

-- `HashGridResult`, but for the pointer to the grid and `radius_meters`.
pub record HashGridResult : Type 0 where
  pub coord : Coord
  pub min : Coord
  pub max : Coord
  pub xmin : ℕ
  pub xmax : ℕ
  pub ymin : ℕ
  pub ymax : ℕ
  pub x : ℕ
  pub y : ℕ
  pub i : ℕ
  pub has_next : Bool

-- What a search leads to: its fuel may be too little, or it reads past the end of an array.
pub data Search (A : Type 0) : Type 0 where
  no_fuel : Search A
  out_of_bounds : Search A
  found : A → Search A

-- The sum and the difference of two numbers of type int32_t.
abbrev pub add_int : ℕ → ℕ → ℕ
add_int a b = (a + b) % 2 ^ 32

abbrev pub sub_int : ℕ → ℕ → ℕ
sub_int a b = (a + 2 ^ 32 - b) % 2 ^ 32

-- `a < b` for two numbers of type int32_t
abbrev pub less_int : ℕ → ℕ → Bool
less_int a b = ltb (add_int a (2 ^ 31)) (add_int b (2 ^ 31))

-- `HashGrid_query`; `radius` is what `coord_from_meters` makes of the radius in meters.
unfoldable pub hash_grid_query : HashGrid → Coord → Coord → HashGridResult
hash_grid_query hg coord radius =
    let min : Coord = record { x = sub_int coord.x radius.x; y = sub_int coord.y radius.y } in
    let max : Coord = record { x = add_int coord.x radius.x; y = add_int coord.y radius.y } in
    record {
      coord = coord;
      min = min;
      max = max;
      xmin = xbin hg.grid_dim hg.bin_size min;
      ymin = ybin hg.grid_dim hg.bin_size min;
      xmax = xbin hg.grid_dim hg.bin_size max;
      ymax = ybin hg.grid_dim hg.bin_size max;
      x = xbin hg.grid_dim hg.bin_size min;
      y = ybin hg.grid_dim hg.bin_size min;
      i = 0;
      has_next = true;
    }

module _ (hg : HashGrid) where
  -- `counts[r->y][r->x]` and `bins[r->y][r->x][r->i]`
  abbrev pub count_at : HashGridResult → ℕ
  count_at r = hg.counts (r.y * hg.grid_dim + r.x)

  abbrev pub place_at : HashGridResult → ℕ
  place_at r = hg.bins (r.y * hg.grid_dim + r.x) + r.i

  abbrev pub item_at : HashGridResult → ℕ
  item_at r = hg.items (place_at r)

  -- The step to the next bin.
  unfoldable pub next_bin : HashGridResult → HashGridResult
  next_bin r =
      if r.x == r.xmax
      then (if r.y == r.ymax
          then record r { i = 0; x = r.xmin; has_next = false }
          else record r { i = 0; x = r.xmin; y = (r.y + 1) % hg.grid_dim })
      else record r { i = 0; x = (r.x + 1) % hg.grid_dim }

  -- The state after `HashGridResult_next` of a result that has a next item.
  unfoldable pub advance : HashGridResult → HashGridResult
  advance r =
      let i = (r.i + 1) % 2 ^ 32 in if leb (count_at r) i then next_bin r else record r { i = i }

  -- The item, and the state after the call; `none` where the code reads past the end of the items.
  unfoldable pub hash_grid_result_next : HashGridResult → Option (ℕ × HashGridResult)
  hash_grid_result_next r =
      let r' = advance r in
      let read = if ltb (place_at r') hg.n_items then some (item_at r', r') else none in
      if r.has_next then (if r'.has_next then read else some (no_index, r')) else some (no_index, r)

  -- The item lies in the bounding box of the query.
  abbrev pub is_inside : Coord → Coord → ℕ → Bool
  is_inside min max item =
      let coord = hg.coords item in
      less_int min.x coord.x
      && less_int coord.x max.x
      && less_int min.y coord.y
      && less_int coord.y max.y

  module _ {D : Type 0} (less : D → D → Bool) (meters : Coord → Coord → D) where
    -- A turn of the loop of `HashGridResult_closest`, on `best_item` and `best_distance`, for the
    -- coordinate and the box of the query.
    abbrev pub consider : Coord → Coord → Coord → ℕ → ℕ × D → ℕ × D
    consider coord min max item (best_item, best_distance) =
        let distance = meters coord (hg.coords item) in
        if is_inside min max item
        then (if less distance best_distance then (item, distance) else (best_item, best_distance))
        else (best_item, best_distance)

    -- The loop from a call of `HashGridResult_next` on; `rest` is the turns after this one. It reads
    -- the coordinate of the item, of which there are `n_items`.
    abbrev pub closest_turn :
        (HashGridResult → ℕ × D → Search ℕ)
        → HashGridResult
        → ℕ × D
        → Option (ℕ × HashGridResult)
        → Search ℕ
    closest_turn rest r best none = Search.out_of_bounds
    closest_turn rest r best (some (item, r')) =
        if item == no_index
        then Search.found best.0
        else (if ltb item hg.n_items
            then rest r' (consider r.coord r.min r.max item best)
            else Search.out_of_bounds)

    unfoldable pub closest_loop : ℕ → HashGridResult → ℕ × D → Search ℕ
    closest_loop zero r best = Search.no_fuel
    closest_loop (suc fuel) r best =
        closest_turn (closest_loop fuel) r best (hash_grid_result_next r)

    -- `HashGridResult_closest`
    unfoldable pub hash_grid_result_closest : D → ℕ → HashGridResult → Search ℕ
    hash_grid_result_closest infinity fuel r = closest_loop fuel r (no_index, infinity)

    -- `HashGridResult_next_filtered` with the radius of the query: the item and its distance.
    abbrev pub filtered_turn :
        (HashGridResult → Search (Option (ℕ × D) × HashGridResult))
        → D
        → HashGridResult
        → Option (ℕ × HashGridResult)
        → Search (Option (ℕ × D) × HashGridResult)
    filtered_turn rest radius r none = Search.out_of_bounds
    filtered_turn rest radius r (some (item, r')) =
        let distance = meters r.coord (hg.coords item) in
        if item == no_index
        then Search.found (none, r')
        else (if not (ltb item hg.n_items)
            then Search.out_of_bounds
            else (if is_inside r.min r.max item && less distance radius
                then Search.found (some (item, distance), r')
                else rest r'))

    unfoldable pub next_filtered : D → ℕ → HashGridResult → Search (Option (ℕ × D) × HashGridResult)
    next_filtered radius zero r = Search.no_fuel
    next_filtered radius (suc fuel) r =
        filtered_turn (next_filtered radius fuel) radius r (hash_grid_result_next r)
