-- ===== src/HashGrid/Query/Ends.antt =====
-- A search for the closest item ends: item after item, bin after bin, row after row.
use rrrr.Prelude.{
  ℕ, zero, suc, ◌+◌, ◌*◌, ◌%◌, ◌^◌, ◌≤◌, ◌<◌, ◌≡◌, sym, ◌∙◌, ap, subst, Bool, true, false, leb,
  ◌==◌, arith, Bool-cases, inl, inr,
}
use native.Mathlib.Nat.{mod-eq_of_lt}
use rrrr.HashGrid.{Coord, HashGrid}
use rrrr.HashGrid.Bins.{place-lt}
use rrrr.HashGrid.Query.Turns.{Ends, if_true, if_false, step_lem}
use rrrr.HashGrid.Query.{HashGridResult, count_at, next_bin, advance}
use rrrr.HashGrid.Query.Steps.{left, left_next}

module _ (hg : HashGrid) {D : Type 0} (less : D → D → Bool) (meters : Coord → Coord → D)
    (q : HashGridResult) where
  -- A result on its way over the bins of a query.
  pub record IsOn (r : HashGridResult) : Type 0 where
    pub live : r.has_next ≡ true
    pub same_coord : r.coord ≡ q.coord
    pub same_min : r.min ≡ q.min
    pub same_max : r.max ≡ q.max
    pub x_lt : r.x < hg.grid_dim
    pub y_lt : r.y < hg.grid_dim
    pub xmin_lt : r.xmin < hg.grid_dim
    pub xmax_lt : r.xmax < hg.grid_dim
    pub ymax_lt : r.ymax < hg.grid_dim

  module _ (most : ℕ) (few : most + 1 < 2 ^ 32)
      (counts_le : (b : ℕ) → b < hg.grid_dim * hg.grid_dim → hg.counts b ≤ most)
      (stored : (p : ℕ) → p < hg.n_items → hg.items p < hg.n_items)
      (small : hg.n_items + 1 < 2 ^ 32) where
    next_place : (r : HashGridResult) → r.i ≤ most → (r.i + 1) % 2 ^ 32 ≡ r.i + 1
    next_place r le = mod-eq_of_lt (omega arith)

    -- From the last item of a bin to the next bin.
    last_lem :
        (r : HashGridResult)
        → leb (count_at hg r) ((r.i + 1) % 2 ^ 32) ≡ true
        → IsOn r
        → ((next_bin hg r).has_next ≡ true → Ends hg less meters q (next_bin hg r))
        → Ends hg less meters q r
    unfolding advance
    last_lem r p on next =
        step_lem hg less meters q stored small r on.live on.same_coord on.same_min on.same_max (
          subst (λ s. s.has_next ≡ true → Ends hg less meters q s)
            (sym (
              if_true (leb (count_at hg r) ((r.i + 1) % 2 ^ 32)) (next_bin hg r)
                (record r { i = (r.i + 1) % 2 ^ 32 }) p))
            next)

    -- From an item to the next one of its bin.
    more_lem :
        (r : HashGridResult)
        → leb (count_at hg r) ((r.i + 1) % 2 ^ 32) ≡ false
        → IsOn r
        → Ends hg less meters q (record r { i = (r.i + 1) % 2 ^ 32 })
        → Ends hg less meters q r
    unfolding advance
    more_lem r p on next =
        step_lem hg less meters q stored small r on.live on.same_coord on.same_min on.same_max (
          subst (λ s. s.has_next ≡ true → Ends hg less meters q s)
            (sym (
              if_false (leb (count_at hg r) ((r.i + 1) % 2 ^ 32)) (next_bin hg r)
                (record r { i = (r.i + 1) % 2 ^ 32 }) p))
            (λ _. next))

    inside_lem :
        (r : HashGridResult)
        → IsOn r
        → leb (count_at hg r) ((r.i + 1) % 2 ^ 32) ≡ false
        → (r.i + 1) % 2 ^ 32 ≡ r.i + 1
        → r.i + 1 < most
    inside_lem r on p same =
        let fits =
          counts_le (r.y * hg.grid_dim + r.x) (place-lt hg.grid_dim r.x r.y on.x_lt on.y_lt) in
        ground arith

    moved : (r : HashGridResult) (i : ℕ) → IsOn r → IsOn (record r { i = i })
    moved r i on = record {
      live = on.live;
      same_coord = on.same_coord;
      same_min = on.same_min;
      same_max = on.same_max;
      x_lt = on.x_lt;
      y_lt = on.y_lt;
      xmin_lt = on.xmin_lt;
      xmax_lt = on.xmax_lt;
      ymax_lt = on.ymax_lt;
    }

    -- Item after item of a bin, and then from the next bin on.
    items_lem :
        (n : ℕ) (r : HashGridResult)
        → most ≤ n + r.i
        → r.i ≤ most
        → IsOn r
        → ((next_bin hg r).has_next ≡ true → Ends hg less meters q (next_bin hg r))
        → Ends hg less meters q r
    unfolding next_bin
    items_lem zero r le ile on next = elim (Bool-cases (leb (count_at hg r) ((r.i + 1) % 2 ^ 32))) [
      | inl p ↦ last_lem r p on next
      | inr p ↦ let lt = inside_lem r on p (next_place r ile) in absurd (omega arith)
    ]
    items_lem (suc n) r le ile on next =
        elim (Bool-cases (leb (count_at hg r) ((r.i + 1) % 2 ^ 32))) [
          | inl p ↦ last_lem r p on next
          | inr p ↦
              let same = next_place r ile in
              let lt = inside_lem r on p same in
              more_lem r p on (
                items_lem n (record r { i = (r.i + 1) % 2 ^ 32 }) (omega (arith, same, le))
                  (omega (arith, same, lt)) (moved r ((r.i + 1) % 2 ^ 32) on) next)
        ]

    abbrev in_row : HashGridResult → HashGridResult
    in_row r = record r { i = 0; x = (r.x + 1) % hg.grid_dim }

    abbrev in_column : HashGridResult → HashGridResult
    in_column r = record r { i = 0; x = r.xmin; y = (r.y + 1) % hg.grid_dim }

    ended : HashGridResult → HashGridResult
    ended r = record r { i = 0; x = r.xmin; has_next = false }

    bin_in_row : (r : HashGridResult) → (r.x == r.xmax) ≡ false → next_bin hg r ≡ in_row r
    unfolding next_bin
    bin_in_row r p = if_false (r.x == r.xmax) _ (in_row r) p

    bin_in_column :
        (r : HashGridResult)
        → (r.x == r.xmax) ≡ true
        → (r.y == r.ymax) ≡ false
        → next_bin hg r ≡ in_column r
    unfolding next_bin
    bin_in_column r p q =
        if_true (r.x == r.xmax) _ (in_row r) p ∙ if_false (r.y == r.ymax) _ (in_column r) q

    bin_ended :
        (r : HashGridResult)
        → (r.x == r.xmax) ≡ true
        → (r.y == r.ymax) ≡ true
        → (next_bin hg r).has_next ≡ false
    unfolding next_bin ended
    bin_ended r p q =
        ap (λ (s : HashGridResult). s.has_next)
          (if_true (r.x == r.xmax) _ (in_row r) p
            ∙ if_true (r.y == r.ymax) (ended r) (in_column r) q)

    in_row-IsOn : (r : HashGridResult) → (r.x == r.xmax) ≡ false → IsOn r → IsOn (in_row r)
    in_row-IsOn r p on = record {
      live = on.live;
      same_coord = on.same_coord;
      same_min = on.same_min;
      same_max = on.same_max;
      x_lt = (left_next hg.grid_dim r.x r.xmax on.x_lt on.xmax_lt (λ e. ground arith)).1;
      y_lt = on.y_lt;
      xmin_lt = on.xmin_lt;
      xmax_lt = on.xmax_lt;
      ymax_lt = on.ymax_lt;
    }

    in_column-IsOn : (r : HashGridResult) → (r.y == r.ymax) ≡ false → IsOn r → IsOn (in_column r)
    in_column-IsOn r p on = record {
      live = on.live;
      same_coord = on.same_coord;
      same_min = on.same_min;
      same_max = on.same_max;
      x_lt = on.xmin_lt;
      y_lt = (left_next hg.grid_dim r.y r.ymax on.y_lt on.ymax_lt (λ e. ground arith)).1;
      xmin_lt = on.xmin_lt;
      xmax_lt = on.xmax_lt;
      ymax_lt = on.ymax_lt;
    }

    -- The last bin of a row: the search goes on in the next row, or ends.
    corner_lem :
        (r : HashGridResult)
        → (r.x == r.xmax) ≡ true
        → r.i ≤ most
        → IsOn r
        → ((r.y == r.ymax) ≡ false → Ends hg less meters q (in_column r))
        → Ends hg less meters q r
    corner_lem r p ile on column = items_lem most r (omega arith) ile on (λ live.
        elim (Bool-cases (r.y == r.ymax)) [
          | inl e ↦ absurd (true_false (sym live ∙ bin_ended r p e))
          | inr e ↦ subst (Ends hg less meters q) (sym (bin_in_column r p e)) (column e)
        ])
      where
        true_false : true ≡ false → ⊥
        true_false e = cc

    -- Bin after bin of a row, and then from the next row on.
    row_lem :
        (n : ℕ) (r : HashGridResult)
        → left hg.grid_dim r.x r.xmax ≤ n
        → r.i ≤ most
        → IsOn r
        → ((x : ℕ)
            → (r.y == r.ymax) ≡ false
            → Ends hg less meters q (in_column (record r { x = x })))
        → Ends hg less meters q r
    row_lem zero r le ile on column = elim (Bool-cases (r.x == r.xmax)) [
      | inl p ↦ corner_lem r p ile on (column r.x)
      | inr p ↦
          let fewer = (left_next hg.grid_dim r.x r.xmax on.x_lt on.xmax_lt (λ e. ground arith)).0 in
          absurd (omega (arith, fewer, le))
    ]
    row_lem (suc n) r le ile on column = elim (Bool-cases (r.x == r.xmax)) [
      | inl p ↦ corner_lem r p ile on (column r.x)
      | inr p ↦
          let fewer = (left_next hg.grid_dim r.x r.xmax on.x_lt on.xmax_lt (λ e. ground arith)).0 in
          items_lem most r (omega arith) ile on (λ live.
            subst (Ends hg less meters q) (sym (bin_in_row r p)) (
              row_lem n (in_row r) (omega (arith, fewer, le)) (omega arith) (in_row-IsOn r p on)
                column))
    ]

    -- Row after row.
    pub rows_lem :
        (n : ℕ) (r : HashGridResult)
        → left hg.grid_dim r.y r.ymax ≤ n
        → r.i ≤ most
        → IsOn r
        → Ends hg less meters q r
    rows_lem zero r le ile on = row_lem (left hg.grid_dim r.x r.xmax) r (omega arith) ile on (λ x p.
        let fewer = (left_next hg.grid_dim r.y r.ymax on.y_lt on.ymax_lt (λ e. ground arith)).0 in
        absurd (omega (arith, fewer, le)))
    rows_lem (suc n) r le ile on =
        row_lem (left hg.grid_dim r.x r.xmax) r (omega arith) ile on (λ x p.
          let fewer = (left_next hg.grid_dim r.y r.ymax on.y_lt on.ymax_lt (λ e. ground arith)).0 in
          rows_lem n (in_column (record r { x = x })) (omega (arith, fewer, le)) (omega arith)
            (in_column-IsOn r p on))
