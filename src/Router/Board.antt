-- ===== src/Router/Board.antt =====
-- `router_round` of router.c, the search for a trip to board: the loops over the service days and
-- over the trips of the route.
pub mod Order
pub mod Trips
pub mod Optimal
pub mod Bans
use rrrr.Prelude.{
  ℕ, ◌+◌, Bool, true, false, Option, none, some, List, [], ◌∷◌, ltb, leb, ◌==◌, not, ◌&&◌, ◌||◌,
  if◌then◌else◌, bit_and, range_from, zero, suc,
}
use rrrr.Rtime.{no_index, unreached, canceled, rtime_one_day}
use rrrr.Tdata.{
  Tdata, Route, Trip, tdata_trips_for_route, tdata_trip_attributes_for_route,
  tdata_trip_masks_for_route,
}
use rrrr.Router.{ServiceDay, RouterRequest}
use rrrr.Router.Stoptime.{tdata_stoptime}

-- `best_trip`, `best_time` and `best_serviceday`
pub record Best : Type 0 where
  pub trip : ℕ
  pub time : ℕ
  pub serviceday : Option ServiceDay

abbrev pub start_best : Bool → Best
start_best arrive_by = record {
  trip = no_index;
  time = if arrive_by then 0 else unreached;
  serviceday = none;
}

module _ {F : Type 0} (td : Tdata) (req : RouterRequest F)
    (route_idx route_stop prev_time : ℕ) where
  -- The loop over the banned trips. Its `continue` goes on with this loop, not with the trips.
  pub banned_trips : ℕ → ℕ → Best → Best
  banned_trips zero this_trip best = best
  banned_trips (suc n) this_trip best = banned_trips n this_trip (
      if route_idx == req.banned_trip_route && this_trip == req.banned_trip_offset
      then best
      else best)

  -- The trip runs on the day, has the attributes asked for, and is not canceled.
  abbrev pub can_run : ServiceDay → ℕ → Bool
  can_run day this_trip =
      not (bit_and day.mask (tdata_trip_masks_for_route td route_idx this_trip) == 0)
      && (bit_and req.trip_attributes (tdata_trip_attributes_for_route td route_idx this_trip)
          == req.trip_attributes)
      && not ((tdata_trips_for_route td route_idx this_trip).realtime_delay == canceled)

  abbrev pub time_of : ServiceDay → ℕ → ℕ
  time_of day this_trip =
      tdata_stoptime td (tdata_trips_for_route td route_idx this_trip) route_stop req.arrive_by day

  pub consider_trip : ServiceDay → ℕ → Best → Best
  consider_trip day this_trip best =
      let best' = banned_trips req.n_banned_trips this_trip best in
      let time = time_of day this_trip in
      if not (can_run day this_trip)
      then best'
      else (if time == unreached
          then best'
          else (if (if req.arrive_by
                then leb time prev_time && ltb best'.time time
                else leb prev_time time && ltb time best'.time)
              then record { trip = this_trip; time = time; serviceday = some day }
              else best'))

  pub scan_trips : ServiceDay → List ℕ → Best → Best
  scan_trips day [] best = best
  scan_trips day (this_trip ∷ trips) best = scan_trips day trips (consider_trip day this_trip best)

  abbrev pub out_of_day : Route → ServiceDay → Bool
  out_of_day route day =
      if req.arrive_by
      then ltb prev_time (day.midnight + route.min_time)
      else ltb (day.midnight + route.max_time) prev_time

  -- `route.min_time < route.max_time - RTIME_ONE_DAY`, in ints
  abbrev pub route_overlap : Route → Bool
  route_overlap route = ltb (route.min_time + rtime_one_day) route.max_time

  pub scan_days : Route → List ServiceDay → Best → Best
  scan_days route [] best = best
  scan_days route (day ∷ days) best =
      let skipped = scan_days route days best in
      let scanned = scan_days route days (scan_trips day (range_from 0 route.n_trips) best) in
      if out_of_day route day
      then skipped
      else (if not (best.trip == no_index) && not (route_overlap route) then best else scanned)

  unfoldable pub find_trip : Route → ServiceDay → ServiceDay → ServiceDay → Best
  find_trip route day0 day1 day2 =
      scan_days route (day0 ∷ day1 ∷ day2 ∷ []) (start_best req.arrive_by)
