-- ===== src/Tdata/Lookup/Loaded.antt =====
-- The text searches of tdata.c in a timetable that `tdata_load` loaded.
use rrrr.Prelude.{ℕ, ◌≤◌, ◌<◌, ◌≡◌, ◌⊎◌, sym, ◌∙◌, subst, Bool, some, List}
use rrrr.Tdata.{Tdata}
use rrrr.Tdata.Columns.{Columns}
use rrrr.Tdata.Load.{Image, Mapping, Loaded, tdata_load}
use rrrr.Tdata.Load.Format.{HasArrays, HasColumns}
use rrrr.Tdata.Load.Laws.{Outcome, tdata_load-Outcome}
use rrrr.Tdata.Lookup.{Found, lookups-IsFirst}

unwrap : {A : Type 0} {a b : A} → some a ≡ some b → a ≡ b
unwrap e = cc

-- The greatest index of an agency of a route, or 0.
abbrev pub IsLastAgency : Tdata → ℕ → Type 0
IsLastAgency td n =
    ((r : ℕ) → r < td.n_routes → (td.routes r).agency_index ≤ n)
    × ((n ≡ 0) ⊎ ((r : ℕ) × (r < td.n_routes) × ((td.routes r).agency_index ≡ n)))

module _ {F : Type 0} (strcasestr : List ℕ → List ℕ → Bool) (text : List ℕ) (start : ℕ) where
  -- In a timetable loaded from a file, the searches for a stop by its name or id and for a route by
  -- its id return the least index, from the start on and below the number of stops or of routes,
  -- whose text in the file contains the text searched for, or NONE if there is none. The search for
  -- an agency does so below the greatest index of an agency of a route, which it does not look at.
  pub lookups-tdata_load :
      (file : Mapping F) (b : Image F) (l : Loaded F) (td : Tdata) (cols : Columns F)
      → file.mapped ≡ some b
      → tdata_load file ≡ some l
      → HasArrays b td
      → HasColumns b cols
      → IsLastAgency td l.n_agencies
        × Found td cols l.n_agencies strcasestr text start l.tdata l.columns
  lookups-tdata_load file b l td cols mapped loads arrays columns =
      let (c, readable, of_arrays, of_columns, counts) =
        subst (Outcome file) loads (tdata_load-Outcome file) in
      let same : b ≡ c = unwrap (sym mapped ∙ readable.2) in
      let is_td : l.tdata ≡ td = of_arrays td (subst (λ i. HasArrays i td) same arrays) in
      let is_cols : l.columns ≡ cols =
        of_columns cols (subst (λ i. HasColumns i cols) same columns) in
      (
        subst (λ t. IsLastAgency t l.n_agencies) is_td counts,
        subst (λ t. Found td cols l.n_agencies strcasestr text start t l.columns) (sym is_td)
            (subst (λ k. Found td cols l.n_agencies strcasestr text start td k) (sym is_cols)
              (lookups-IsFirst td cols l.n_agencies strcasestr text start)),
      )
