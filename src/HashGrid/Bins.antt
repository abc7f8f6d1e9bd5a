-- ===== src/HashGrid/Bins.antt =====
-- The bins of hashgrid.c hold exactly the items that belong to them.
use rrrr.Prelude.{
  ◌-◌, ℕ, zero, suc, ◌+◌, ◌*◌, ◌%◌, ◌≤◌, ◌<◌, ◌≡◌, refl, ◌∙◌, ap, subst, ◌==◌, if◌then◌else◌,
  range_from, arith, Bool-cases, inl, inr, ltb, leb, leb→le,
}
use rrrr.HashGrid.{
  Coord, HashGrid, xbin, ybin, bin_of, count_items, Layout, set_bins, hash_grid_init, abs_quotient,
}
use rrrr.HashGrid.Sorting.{
  rank, start, rank_lt, rank_le, start_le, count_items_lem, set_bins_lem, fill_bins_lem, slot_lem,
}
use native.Mathlib.Nat.{mod-lt, suc-mul, mul-le-mul_right}

module _ (bin : ℕ → ℕ) where
  start_step : (m b : ℕ) → start bin (suc m) b ≡ start bin m b + (if ltb (bin m) b then 1 else 0)
  start_step m zero = ground arith
  start_step m (suc b) = elim (Bool-cases (bin m == b)) [
    | inl p ↦ rw p (let h = start_step m b in ground arith)
    | inr p ↦ rw p (let h = start_step m b in ground arith)
  ]

  start_zero : (b : ℕ) → start bin 0 b ≡ 0
  start_zero zero = refl
  start_zero (suc b) = omega (arith, start_zero b)

  start_all : (B : ℕ) → ((c : ℕ) → bin c < B) → (n : ℕ) → start bin n B ≡ n
  start_all B below zero = start_zero B
  start_all B below (suc n) =
      let h = start_step n B in let l = below n in let r = start_all B below n in ground arith

  -- The bin of a place.
  find_bin :
      (n B p : ℕ)
      → p < start bin n B
      → (b : ℕ) × (b < B) × (start bin n b ≤ p) × (p < start bin n b + rank bin b n)
  find_bin n zero p lt = absurd (omega arith)
  find_bin n (suc B) p lt = elim (Bool-cases (ltb p (start bin n B))) [
    | inl q ↦ let (b, lb, le, l) = find_bin n B p (ground arith) in (b, omega arith, le, l)
    | inr q ↦ (B, omega arith, ground arith, lt)
  ]

pub place-lt : (d x y : ℕ) → x < d → y < d → y * d + x < d * d
place-lt d x y lx ly = omega (arith, lx, suc-mul y d, mul-le-mul_right {m = suc y} {n = d} d ly)

bin_of-lt :
    (grid_dim : ℕ) (bin_size : Coord) (coord : Coord)
    → 0 < grid_dim
    → bin_of grid_dim bin_size coord < grid_dim * grid_dim
unfolding bin_of xbin ybin
bin_of-lt d bin_size coord pos =
    place-lt d (abs_quotient coord.x bin_size.x % d) (abs_quotient coord.y bin_size.y % d)
      (mod-lt (abs_quotient coord.x bin_size.x) pos) (mod-lt (abs_quotient coord.y bin_size.y) pos)

module _ (memory : ℕ → ℕ) (grid_dim : ℕ) (bin_size : Coord) (coords : ℕ → Coord) (n_items : ℕ) where
  abbrev grid : HashGrid
  grid = hash_grid_init memory grid_dim bin_size coords n_items

  abbrev bin : ℕ → ℕ
  bin c = bin_of grid_dim bin_size (coords c)

  -- Each item stands in its bin, each place of a bin holds an item of the bin, in increasing order,
  -- and the bin lies within the array of items.
  abbrev pub IsSorted : HashGrid → Type 0
  IsSorted hg =
      ((c : ℕ)
        → c < n_items
        → (i : ℕ) × (i < hg.counts (bin c)) × (hg.items (hg.bins (bin c) + i) ≡ c))
      × ((b i : ℕ)
          → b < grid_dim * grid_dim
          → i < hg.counts b
          → (hg.items (hg.bins b + i) < n_items) × (bin (hg.items (hg.bins b + i)) ≡ b))
      × ((b i j : ℕ)
          → b < grid_dim * grid_dim
          → i < j
          → j < hg.counts b
          → hg.items (hg.bins b + i) < hg.items (hg.bins b + j))
      × ((b : ℕ) → b < grid_dim * grid_dim → hg.bins b + hg.counts b ≤ n_items)

  -- The layout in terms of the counts.
  abbrev IsLaidOut : HashGrid → Type 0
  IsLaidOut hg =
      ((b : ℕ)
        → b < grid_dim * grid_dim
        → (hg.bins b ≡ start bin n_items b) × (hg.counts b ≡ rank bin b n_items))
      × ((c : ℕ) → c < n_items → hg.items (start bin n_items (bin c) + rank bin (bin c) c) ≡ c)

  grid-IsLaidOut : 0 < grid_dim → IsLaidOut grid
  unfolding hash_grid_init
  grid-IsLaidOut pos =
      let B = grid_dim * grid_dim in
      let counted = count_items bin (range_from 0 n_items) (λ _. 0) in
      let count = count_items_lem bin 0 n_items (λ _. 0) (λ b. refl) in
      let empty : Layout = record { next = 0; bins = λ _. 0; counts = counted } in
      let set =
        (set_bins_lem bin n_items 0 B empty (
          refl,
          λ d lt. absurd (omega arith),
          λ d le. count d ∙ ap (rank bin d) (zero_add n_items),
        )).1 in
      let layout = set_bins (range_from 0 B) empty in
      let bounded = λ (c : ℕ). bin_of-lt grid_dim bin_size (coords c) pos in
      let filled =
        fill_bins_lem bin B n_items layout.bins bounded (λ b lt. (set b (omega (arith, lt))).0) 0
          n_items (record { counts = layout.counts; items = memory }) (omega arith)
          (λ b lt. (set b (omega (arith, lt))).1, λ c lt. absurd (omega arith)) in
      (
        λ b lt. ((set b (omega (arith, lt))).0, filled.0 b lt ∙ ap (rank bin b) (zero_add n_items)),
        λ c lt. filled.1 c (omega (arith, lt)),
      )
    where
      zero_add : (n : ℕ) → 0 + n ≡ n
      zero_add n = omega arith

  -- The item at a place of a bin.
  slot :
      (hg : HashGrid)
      → IsLaidOut hg
      → (b i : ℕ) → b < grid_dim * grid_dim
      → i < hg.counts b
      → (c : ℕ) × (c < n_items) × (bin c ≡ b) × (rank bin b c ≡ i) × (hg.items (hg.bins b + i) ≡ c)
  slot hg (laid, stored) b i lb li =
      let (start_eq, count_eq) = laid b lb in
      let (c, lt, e, r) = slot_lem bin b i n_items (omega (arith, li, count_eq)) in
      let at = subst (λ d. hg.items (start bin n_items d + rank bin d c) ≡ c) e (stored c lt) in
      (c, lt, e, r, ap hg.items (omega (arith, start_eq, r)) ∙ at)

  laid_out-IsSorted : (hg : HashGrid) → 0 < grid_dim → IsLaidOut hg → IsSorted hg
  laid_out-IsSorted hg pos (laid, stored) = (
    λ c lt.
        let (start_eq, count_eq) = laid (bin c) (bin_of-lt grid_dim bin_size (coords c) pos) in
        let less = rank_lt bin c n_items lt in
        (
          rank bin (bin c) c,
          omega (arith, less, count_eq),
          ap (λ s. hg.items (s + rank bin (bin c) c)) start_eq ∙ stored c lt,
        ),
    λ b i lb li.
        let (c, lt, e, r, at) = slot hg (laid, stored) b i lb li in
        (omega (arith, lt, at), ap bin at ∙ e),
    λ b i j lb lij lj.
        let (c, _, _, r, at) = slot hg (laid, stored) b i lb (omega arith) in
        let (d, _, _, s, there) = slot hg (laid, stored) b j lb lj in
        elim (Bool-cases (leb d c)) [
          | inl p ↦ absurd (omega (arith, r, s, rank_le bin b d c (leb→le d c p)))
          | inr p ↦ let less : c < d = ground arith in omega (arith, less, at, there)
        ],
    λ b lb.
        let (start_eq, count_eq) = laid b lb in
        let bounded = λ (c : ℕ). bin_of-lt grid_dim bin_size (coords c) pos in
        omega (
          arith,
          start_eq,
          count_eq,
          start_le bin n_items b (grid_dim * grid_dim) lb,
          start_all bin (grid_dim * grid_dim) bounded n_items,
        ),
  )

  -- After the initialization of a grid with at least one row, each item stands in its bin, and each
  -- place of a bin holds an item that belongs there; the items of a bin are in increasing order, and
  -- no bin reaches past the end of the array of items.
  pub hash_grid_init-IsSorted : 0 < grid_dim → IsSorted grid
  hash_grid_init-IsSorted pos = laid_out-IsSorted grid pos (grid-IsLaidOut pos)

  -- Each place of the array holds an item.
  pub items-lt :
      0 < grid_dim
      → (p : ℕ) → p < n_items
      → (hash_grid_init memory grid_dim bin_size coords n_items).items p < n_items
  items-lt pos p lt =
      let laid = grid-IsLaidOut pos in
      let all =
        start_all bin (grid_dim * grid_dim) (λ c. bin_of-lt grid_dim bin_size (coords c) pos)
          n_items in
      let (b, lb, le, l) = find_bin bin n_items (grid_dim * grid_dim) p (omega (arith, all, lt)) in
      let (start_eq, count_eq) = laid.0 b lb in
      let at : grid.bins b + (p - start bin n_items b) ≡ p = omega (arith, start_eq, le) in
      subst (λ k. grid.items k < n_items) at
        ((hash_grid_init-IsSorted pos).1 b (p - start bin n_items b) lb
          (omega (arith, count_eq, le, l))).0
