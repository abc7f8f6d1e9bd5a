-- ===== src/Json/Render/Legs.antt =====
-- json.c: the rendering of a leg (`json_leg`), as calls of the writer.
use rrrr.Prelude.{
  ℕ, ◌+◌, ◌%◌, ◌^◌, Bool, true, false, Option, none, some, List, [], ◌∷◌, ◌++◌, ◌==◌, not, ◌&&◌,
  if◌then◌else◌, range_from,
}
use rrrr.Prelude.Codes.{codes}
use rrrr.Rtime.{unreached, walk, rtime_to_sec}
use rrrr.Tdata.{
  Tdata, Trip, tdata_stops_for_route, tdata_trips_for_route, tdata_trip_attributes_for_route,
}
use rrrr.Tdata.Columns.{
  Columns, tdata_route_id_for_index, tdata_trip_id_for_route_trip_index, tdata_headsign_for_route,
  tdata_shortname_for_route, tdata_productcategory_for_route, tdata_agency_id_for_route,
  tdata_agency_name_for_route, tdata_agency_url_for_route,
}
use rrrr.Router.{RouterRequest}
use rrrr.Router.Plan.{Leg}
use rrrr.Polyline.{Polyline, polyline_for_leg}
use rrrr.Json.{
  Call, call_kd, call_kl, call_key_obj, call_key_arr, call_obj, call_end_obj, call_end_arr,
}
use rrrr.Json.Render.{
  Printer, rtime_to_msec, duration_msec, delay_min, text, flag_text, route_mode, json_place,
}

-- The geometry of `polyline_for_leg`.
pub record Geometry (F : Type 0) : Type 0 where
  pub fixed : F → ℕ
  pub is_negative : F → Bool
  pub zero_f : F
  pub minus : F → F → F

module _ {F : Type 0} (pr : Printer F) (geo : Geometry F) (td : Tdata) (cols : Columns F)
    (req : RouterRequest F) (date : ℕ) where
  -- A text of a leg that is NULL where the leg is a walk.
  abbrev pub ride_text : Leg → List ℕ → Option (List ℕ)
  ride_text leg t = if leg.route == walk then none else some t

  abbrev pub leg_trip : Leg → Trip
  leg_trip leg = tdata_trips_for_route td leg.route leg.trip

  -- The place of a stop that the leg passes, `i` on its route.
  abbrev pub passed_place : Leg → ℕ → List Call
  passed_place leg i =
      let trip = leg_trip leg in
      let stoptime = td.stop_times (trip.stop_times_offset + i) in
      json_place pr td cols date none
        ((trip.begin_time + stoptime.arrival + trip.realtime_delay) % 2 ^ 16)
        ((trip.begin_time + stoptime.departure + trip.realtime_delay) % 2 ^ 16)
        (tdata_stops_for_route td leg.route i)

  -- The loop over the stops of a route, with its variable `visible`.
  unfoldable pub passed_places : Leg → Bool → List ℕ → List Call
  passed_places leg visible [] = []
  passed_places leg visible (i ∷ is) =
      let stop_idx = tdata_stops_for_route td leg.route i in
      let from_here = passed_places leg true is in
      let rest = passed_places leg visible is in
      if stop_idx == leg.s0
      then from_here
      else (if stop_idx == leg.s1
          then []
          else (if visible then passed_place leg i ++ rest else rest))

  abbrev pub intermediate_stops : Leg → List Call
  intermediate_stops leg =
      if req.intermediatestops && not (leg.route == walk)
      then passed_places leg false (range_from 0 (td.routes leg.route).n_stops)
      else []

  abbrev pub leg_line : Leg → Polyline F
  leg_line leg =
      polyline_for_leg geo.fixed geo.is_negative geo.zero_f geo.minus td cols.stop_coords leg

  abbrev pub leg_servicedate : Leg → List ℕ
  leg_servicedate leg =
      if leg.route == walk
      then []
      else pr.servicedate ((date + rtime_to_sec (leg_trip leg).begin_time) % 2 ^ 64)

  abbrev pub departuredelay : Leg → ℕ
  departuredelay leg = if leg.route == walk then 0 else delay_min (leg_trip leg).realtime_delay

  unfoldable pub json_leg : Leg → List Call
  json_leg leg =
      let r = leg.route in
      let starttime = rtime_to_msec leg.t0 date in
      let endtime = rtime_to_msec leg.t1 date in
      let shortname = ride_text leg (tdata_shortname_for_route td cols r) in
      let attributes = tdata_trip_attributes_for_route td r leg.trip in
      call_obj ∷ json_place pr td cols date (some (codes "from")) unreached leg.t0 leg.s0
      ++ json_place pr td cols date (some (codes "to")) leg.t1 unreached leg.s1
      ++ text "mode"
          (some (codes (if r == walk then "WALK" else route_mode (td.routes r).attributes)))
        ∷ call_kl (some (codes "startTime")) (pr.print_l starttime)
        ∷ call_kl (some (codes "endTime")) (pr.print_l endtime)
        ∷ call_kl (some (codes "departureDelay")) (pr.print_l (departuredelay leg))
        ∷ call_kl (some (codes "arrivalDelay")) (pr.print_l 0)
        ∷ text "routeShortName" shortname
        ∷ text "route" shortname
        ∷ text "headsign" (ride_text leg (tdata_headsign_for_route td cols r))
        ∷ text "routeId" (ride_text leg (tdata_route_id_for_index td cols r))
        ∷ text "tripId" (ride_text leg (tdata_trip_id_for_route_trip_index td cols r leg.trip))
        ∷ text "serviceDate" (some (leg_servicedate leg))
        ∷ text "agencyId" (ride_text leg (tdata_agency_id_for_route td cols r))
        ∷ text "agencyName" (ride_text leg (tdata_agency_name_for_route td cols r))
        ∷ text "agencyUrl" (ride_text leg (tdata_agency_url_for_route td cols r))
        ∷ text "wheelchairAccessible" (if r == walk then none else flag_text attributes 1)
        ∷ text "productCategory" (ride_text leg (tdata_productcategory_for_route td cols r))
        ∷ call_key_obj (some (codes "legGeometry"))
        ∷ text "points" (some (leg_line leg).buf)
        ∷ text "levels" none
        ∷ call_kd (some (codes "length")) (pr.print_d (leg_line leg).n_points)
        ∷ call_end_obj
        ∷ call_key_arr (some (codes "intermediateStops"))
        ∷ intermediate_stops leg
      ++ call_end_arr
        ∷ call_kd (some (codes "duration")) (pr.print_d (duration_msec starttime endtime))
        ∷ call_end_obj
        ∷ []
