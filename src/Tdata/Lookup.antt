-- ===== src/Tdata/Lookup.antt =====
-- tdata.c: the searches for a stop, a route or an agency by a part of its name or id. The texts of
-- the timetable and the C library's `strcasestr` are arguments.
pub mod Loaded
mod Tests
use rrrr.Prelude.{
  ℕ, zero, suc, ◌+◌, ◌-◌, ◌≤◌, ◌<◌, ◌≡◌, ◌⊎◌, refl, sym, subst, Bool, true, false, List, [], ◌∷◌,
  if◌then◌else◌, ◌==◌, range_from, arith, Bool-cases, inl, inr, ==_iff, ◌*◌, ◌%◌, ◌^◌,
}
use rrrr.Rtime.{no_index}
use rrrr.Tdata.{Tdata}
use rrrr.Tdata.Columns.{Columns, offset}

-- The loop of the searches over the indexes.
pub first_match : (ℕ → Bool) → List ℕ → ℕ
first_match matches [] = no_index
first_match matches (i ∷ is) = let rest = first_match matches is in if matches i then i else rest

-- `n_agencies` is the field of the timetable that `tdata_load` computes.
module _ {F : Type 0} (td : Tdata) (cols : Columns F) (n_agencies : ℕ)
    (strcasestr : List ℕ → List ℕ → Bool) where
  pub tdata_stopidx_by_stop_name : List ℕ → ℕ → ℕ
  tdata_stopidx_by_stop_name stop_desc start =
      first_match (λ i. strcasestr (cols.stop_names (cols.stop_nameidx i)) stop_desc)
        (range_from start (td.n_stops - start))

  pub tdata_stopidx_by_stop_id : List ℕ → ℕ → ℕ
  tdata_stopidx_by_stop_id stop_id start =
      first_match (λ i. strcasestr (cols.stop_ids (offset cols.stop_id_width i)) stop_id)
        (range_from start (td.n_stops - start))

  pub tdata_routeidx_by_route_id : List ℕ → ℕ → ℕ
  tdata_routeidx_by_route_id route_id start =
      first_match (λ i. strcasestr (cols.route_ids (offset cols.route_id_width i)) route_id)
        (range_from start (td.n_routes - start))

  pub tdata_agencyidx_by_agency_name : List ℕ → ℕ → ℕ
  tdata_agencyidx_by_agency_name agency_name start =
      first_match
        (λ i. strcasestr (cols.agency_names (offset cols.agency_name_width i)) agency_name)
        (range_from start (n_agencies - start))

-- The least index from `lo` up to `hi` that matches, or NONE if none does.
abbrev pub IsFirst : (ℕ → Bool) → ℕ → ℕ → ℕ → Type 0
IsFirst matches lo hi r =
    ((lo ≤ r) × (r < hi) × (matches r ≡ true) × ((i : ℕ) → lo ≤ i → i < r → matches i ≡ false))
    ⊎ ((r ≡ no_index) × ((i : ℕ) → lo ≤ i → i < hi → matches i ≡ false))

below :
    (matches : ℕ → Bool) (lo hi : ℕ)
    → matches lo ≡ false
    → ((i : ℕ) → lo + 1 ≤ i → i < hi → matches i ≡ false)
    → (i : ℕ) → lo ≤ i
    → i < hi
    → matches i ≡ false
below matches lo hi p h i le lt = elim (Bool-cases (lo == i)) [
  | inl q ↦ subst (λ k. matches k ≡ false) ((==_iff lo i).0 q) p
  | inr q ↦ h i (ground arith) lt
]

IsFirst-later :
    (matches : ℕ → Bool) (lo hi r : ℕ)
    → matches lo ≡ false
    → IsFirst matches (lo + 1) hi r
    → IsFirst matches lo hi r
IsFirst-later matches lo hi r p (inl (a, b, c, d)) = inl (omega arith, b, c, below matches lo r p d)
IsFirst-later matches lo hi r p (inr (a, d)) = inr (a, below matches lo hi p d)

first_match-IsFirst :
    (matches : ℕ → Bool) (n lo hi : ℕ)
    → hi - lo ≡ n
    → IsFirst matches lo hi (first_match matches (range_from lo n))
unfolding first_match
first_match-IsFirst matches zero lo hi e = inr (refl, λ i le lt. absurd (omega arith))
first_match-IsFirst matches (suc n) lo hi e = elim (Bool-cases (matches lo)) [
  | inl p ↦ rw p (inl (omega arith, omega arith, p, λ i le lt. absurd (omega arith)))
  | inr p ↦
      rw p
        (IsFirst-later matches lo hi _ p (first_match-IsFirst matches n (lo + 1) hi (omega arith)))
]

module _ {F : Type 0} (td : Tdata) (cols : Columns F) (n_agencies : ℕ)
    (strcasestr : List ℕ → List ℕ → Bool) (text : List ℕ) (start : ℕ) where
  -- What the four searches in a timetable `td'` return, by the texts of `td`: the least index from
  -- the start on whose text contains the text searched for, or NONE. A name stands at its index in
  -- the names of the stops, and an id or the name of an agency at the product of the width and the
  -- index, in 32 bits.
  abbrev pub Found : Tdata → Columns F → Type 0
  Found td' cols' =
      IsFirst (λ i. strcasestr (cols.stop_names (cols.stop_nameidx i)) text) start td.n_stops
        (tdata_stopidx_by_stop_name td' cols' n_agencies strcasestr text start)
      × IsFirst (λ i. strcasestr (cols.stop_ids (cols.stop_id_width * i % 2 ^ 32)) text) start
          td.n_stops (tdata_stopidx_by_stop_id td' cols' n_agencies strcasestr text start)
      × IsFirst (λ i. strcasestr (cols.route_ids (cols.route_id_width * i % 2 ^ 32)) text) start
          td.n_routes (tdata_routeidx_by_route_id td' cols' n_agencies strcasestr text start)
      × IsFirst (λ i. strcasestr (cols.agency_names (cols.agency_name_width * i % 2 ^ 32)) text)
          start n_agencies
          (tdata_agencyidx_by_agency_name td' cols' n_agencies strcasestr text start)

  pub lookups-IsFirst : Found td cols
  unfolding tdata_stopidx_by_stop_name tdata_stopidx_by_stop_id tdata_routeidx_by_route_id
      tdata_agencyidx_by_agency_name
  lookups-IsFirst = (
    first_match-IsFirst _ (td.n_stops - start) start td.n_stops refl,
    first_match-IsFirst _ (td.n_stops - start) start td.n_stops refl,
    first_match-IsFirst _ (td.n_routes - start) start td.n_routes refl,
    first_match-IsFirst _ (n_agencies - start) start n_agencies refl,
  )
