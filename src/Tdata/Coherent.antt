-- ===== src/Tdata/Coherent.antt =====
-- tdata.c: the test of a timetable that is loaded (`tdata_check_coherent`). What it prints is a
-- list of messages; the floating-point comparison is an argument.
pub mod Laws
pub mod Mirrored
pub mod Symmetric
mod Tests
pub mod Times
use rrrr.Prelude.{
  ℕ, zero, suc, ◌+◌, ◌-◌, ◌*◌, ◌%◌, ◌^◌, Bool, true, false, Option, none, some, List, [], ◌∷◌, ◌++◌,
  ltb, ◌==◌, not, ◌&&◌, ◌||◌, if◌then◌else◌, range_from,
}
use rrrr.Prelude.Collect.{collect, when}
use rrrr.Tdata.{Tdata, Trip, StopTime, tdata_trips_for_route}

pub data Message : Type 0 where
  out_of_range : ℕ → Message
  begins_late : ℕ → ℕ → Message
  departs_early : ℕ → ℕ → ℕ → Message
  negative_times : ℕ → ℕ → Message
  loop_transfer : ℕ → Message
  not_symmetric : ℕ → ℕ → ℕ → ℕ → Message
  no_reverse : ℕ → ℕ → Message
  checked_transfers : ℕ → Message

-- The sum of the numbers that the rounds of a loop add to a counter.
abbrev pub total : (ℕ → ℕ) → List ℕ → ℕ
total f [] = 0
total f (i ∷ is) = f i + total f is

-- `min_lat`, `max_lat`, `min_lon` and `max_lon`
pub record Ranges (F : Type 0) : Type 0 where
  pub min_lat : F
  pub max_lat : F
  pub min_lon : F
  pub max_lon : F

module _ {F : Type 0} (less : F → F → Bool) (ranges : Ranges F) where
  abbrev pub is_out_of_range : F × F → Bool
  is_out_of_range (lat, lon) =
      less lat ranges.min_lat
      || less ranges.max_lat lat
      || less lon ranges.min_lon
      || less ranges.max_lon lon

module _ (td : Tdata) where
  abbrev pub trip_stoptime : Trip → ℕ → StopTime
  trip_stoptime trip s = td.stop_times (trip.stop_times_offset + s)

  -- The messages about a stop of a trip.
  unfoldable pub stop_messages : ℕ → ℕ → Trip → ℕ → List Message
  stop_messages r t trip s =
      let st = trip_stoptime trip s in
      when (s == 0 && not (st.arrival == 0)) (begins_late st.arrival st.departure)
      ++ when (ltb st.departure st.arrival) (departs_early r t s)

  -- What a stop adds to `n_nonincreasing_trips`; `prev_st` is the time at the stop before, and NULL
  -- at the first one.
  abbrev pub nonincreasing : Trip → ℕ → ℕ
  nonincreasing trip zero = 0
  nonincreasing trip (suc s) =
      if ltb (trip_stoptime trip (suc s)).arrival (trip_stoptime trip s).departure then 1 else 0

  abbrev pub n_nonincreasing_trips : ℕ → ℕ
  n_nonincreasing_trips r =
      total
        (λ t.
          total (nonincreasing (tdata_trips_for_route td r t)) (range_from 0 (td.routes r).n_stops))
        (range_from 0 (td.routes r).n_trips)

  -- The messages about a route.
  unfoldable pub route_messages : ℕ → List Message
  route_messages r =
      collect
        (λ t.
          collect (stop_messages r t (tdata_trips_for_route td r t))
            (range_from 0 (td.routes r).n_stops))
        (range_from 0 (td.routes r).n_trips)
      ++ when (ltb 0 (n_nonincreasing_trips r)) (negative_times r (n_nonincreasing_trips r))

  -- `t < tN`: the places of the transfers out of a stop.
  abbrev pub transfers_out : ℕ → List ℕ
  transfers_out stop =
      let t = (td.stops stop).transfers_offset in
      range_from t ((td.stops (stop + 1)).transfers_offset - t)

  abbrev pub distance : ℕ → ℕ
  distance t = td.transfer_dist_meters t * 16 % 2 ^ 32

  -- The search for the reverse transfer, and the number of transfers it looks at.
  abbrev pub find_reverse : ℕ → List ℕ → Option ℕ
  find_reverse stop_from [] = none
  find_reverse stop_from (u ∷ us) =
      let rest = find_reverse stop_from us in
      if td.transfer_target_stops u == stop_from then some u else rest

  abbrev pub n_looked_at : ℕ → List ℕ → ℕ
  n_looked_at stop_from [] = 0
  n_looked_at stop_from (u ∷ us) =
      let rest = n_looked_at stop_from us in
      if td.transfer_target_stops u == stop_from then 1 else 1 + rest

  abbrev pub reverse_messages : ℕ → ℕ → Option ℕ → List Message
  reverse_messages stop_from t none = no_reverse stop_from (td.transfer_target_stops t) ∷ []
  reverse_messages stop_from t (some u) =
      when (not (distance u == distance t))
        (not_symmetric stop_from (td.transfer_target_stops t) (distance t) (distance u))

  -- The messages about a transfer.
  unfoldable pub transfer_messages : ℕ → ℕ → List Message
  transfer_messages stop_from t =
      let stop_to = td.transfer_target_stops t in
      when (stop_to == stop_from) (loop_transfer stop_from)
      ++ reverse_messages stop_from t (find_reverse stop_from (transfers_out stop_to))

  abbrev pub n_transfers_checked : ℕ
  n_transfers_checked =
      total
        (λ stop_from.
          total (λ t. n_looked_at stop_from (transfers_out (td.transfer_target_stops t)))
            (transfers_out stop_from))
        (range_from 0 td.n_stops)

  module _ {F : Type 0} (less : F → F → Bool) (ranges : Ranges F) (stop_coords : ℕ → F × F) where
    -- The messages but for the last one.
    unfoldable pub warnings : List Message
    warnings =
        collect (λ s. when (is_out_of_range less ranges (stop_coords s)) (out_of_range s))
          (range_from 0 td.n_stops)
        ++ (collect route_messages (range_from 0 td.n_routes)
            ++ collect
                (λ stop_from. collect (transfer_messages stop_from) (transfers_out stop_from))
                (range_from 0 td.n_stops))

    unfoldable pub tdata_check_coherent : List Message
    tdata_check_coherent = warnings ++ checked_transfers n_transfers_checked ∷ []
