-- ===== src/HashGrid.antt =====
-- hashgrid.c: points in the plane in square bins, which repeat with the grid's period.
--
-- A coordinate is an int32_t, as its bit pattern. A table of `grid_dim` rows is a function of the
-- place `y * grid_dim + x`, and a pointer into `items` is the place it points to. What
-- `coord_from_meters` and `coord_distance_meters` compute is an argument.
pub mod Bins
pub mod Query
pub mod Sorting
mod Tests
use rrrr.Prelude.{
  ℕ, zero, suc, ◌+◌, ◌-◌, ◌*◌, ◌/◌, ◌%◌, ◌^◌, Bool, true, false, Option, none, some, List, [], ◌∷◌,
  ltb, leb, ◌==◌, not, ◌&&◌, if◌then◌else◌, range_from, update,
}
use rrrr.Rtime.{no_index}

-- `coord_t`
pub record Coord : Type 0 where
  pub x : ℕ
  pub y : ℕ

pub record HashGrid : Type 0 where
  pub grid_dim : ℕ
  pub bin_size : Coord
  pub n_items : ℕ
  pub counts : ℕ → ℕ
  pub bins : ℕ → ℕ
  pub items : ℕ → ℕ
  pub coords : ℕ → Coord

-- The absolute value of an int32_t.
abbrev pub magnitude : ℕ → ℕ
magnitude i = if leb (2 ^ 31) i then 2 ^ 32 - i else i

-- `abs(a / b)`, where `b` is not 0
abbrev pub abs_quotient : ℕ → ℕ → ℕ
abs_quotient a b = magnitude a / magnitude b

module _ (grid_dim : ℕ) (bin_size : Coord) where
  unfoldable pub xbin : Coord → ℕ
  xbin coord = abs_quotient coord.x bin_size.x % grid_dim

  unfoldable pub ybin : Coord → ℕ
  ybin coord = abs_quotient coord.y bin_size.y % grid_dim

  -- The place of the bin in the tables.
  unfoldable pub bin_of : Coord → ℕ
  bin_of coord = ybin coord * grid_dim + xbin coord

-- The loop that counts the items of each bin; `bin c` is the place of the bin of item `c`.
abbrev pub count_items : (ℕ → ℕ) → List ℕ → (ℕ → ℕ) → ℕ → ℕ
count_items bin [] counts = counts
count_items bin (c ∷ cs) counts = count_items bin cs (update counts (bin c) (counts (bin c) + 1))

-- The variables of the loop that sets the bins: the pointer `bin`, `bins` and `counts`.
pub record Layout : Type 0 where
  pub next : ℕ
  pub bins : ℕ → ℕ
  pub counts : ℕ → ℕ

abbrev pub set_bins : List ℕ → Layout → Layout
set_bins [] l = l
set_bins (b ∷ bs) l = set_bins bs (record {
  next = l.next + l.counts b;
  bins = update l.bins b l.next;
  counts = update l.counts b 0;
})

-- The loop that fills the bins, on `counts` and `items`.
pub record Filling : Type 0 where
  pub counts : ℕ → ℕ
  pub items : ℕ → ℕ

abbrev pub fill_bins : (ℕ → ℕ) → (ℕ → ℕ) → List ℕ → Filling → Filling
fill_bins bin bins [] f = f
fill_bins bin bins (c ∷ cs) f =
    let i = f.counts (bin c) in
    fill_bins bin bins cs (record {
      counts = update f.counts (bin c) (i + 1);
      items = update f.items (bins (bin c) + i) c;
    })

-- `HashGrid_init`; `memory` is what `malloc` leaves in the items, and `bin_size` is what
-- `coord_from_meters` makes of the size in meters.
unfoldable pub hash_grid_init : (ℕ → ℕ) → ℕ → Coord → (ℕ → Coord) → ℕ → HashGrid
hash_grid_init memory grid_dim bin_size coords n_items =
    let bin = λ (c : ℕ). bin_of grid_dim bin_size (coords c) in
    let counted = count_items bin (range_from 0 n_items) (λ _. 0) in
    let layout =
      set_bins (range_from 0 (grid_dim * grid_dim))
        (record { next = 0; bins = λ _. 0; counts = counted }) in
    let filled =
      fill_bins bin layout.bins (range_from 0 n_items)
        (record { counts = layout.counts; items = memory }) in
    record {
      grid_dim = grid_dim;
      bin_size = bin_size;
      n_items = n_items;
      counts = filled.counts;
      bins = layout.bins;
      items = filled.items;
      coords = coords;
    }
