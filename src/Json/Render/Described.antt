-- ===== src/Json/Render/Described.antt =====
-- The document for a plan, as a tree: what json.c is to write.
use rrrr.Prelude.{
  ℕ, ◌+◌, ◌*◌, ◌-◌, ◌/◌, ◌%◌, ◌^◌, Bool, true, false, none, some, List, [], ◌∷◌, ◌==◌, not, ◌&&◌,
  if◌then◌else◌, range_from, String,
}
use rrrr.Prelude.Codes.{codes}
use rrrr.Rtime.{unreached, walk}
use rrrr.Tdata.{Tdata, tdata_stops_for_route, tdata_trip_attributes_for_route}
use rrrr.Tdata.Columns.{
  Columns, tdata_stop_attributes_for_index, tdata_route_id_for_index, tdata_stop_id_for_index,
  tdata_trip_id_for_route_trip_index, tdata_stop_name_for_index, tdata_platformcode_for_index,
  tdata_headsign_for_route, tdata_shortname_for_route, tdata_productcategory_for_route,
  tdata_agency_id_for_route, tdata_agency_name_for_route, tdata_agency_url_for_route,
}
use rrrr.Router.{RouterRequest}
use rrrr.Router.Request.{m_all}
use rrrr.Router.Plan.{Leg, Itinerary, transfer_distance}
use rrrr.Json.Document.{
  format_d, format_f, format_l, by_obj, by_key_obj, Opening, Value, number, truth, object, array,
  null, Members, no_members, member, Elements, no_elements, element,
}
use rrrr.Json.Render.{
  Printer, rtime_to_msec, duration_msec, flag_text, route_mode, modes_text, timetext,
}
use rrrr.Json.Render.Legs.{Geometry, ride_text, leg_trip, leg_line, leg_servicedate, departuredelay}
use rrrr.Json.Render.Nested.{text_value}

-- An object by its keys and values.
abbrev pub members_of : List (String × Value) → Members
members_of [] = no_members
members_of ((k, v) ∷ fields) = member (codes k) v (members_of fields)

-- An array of objects.
abbrev pub elements_of : Opening → List Members → Elements
elements_of o [] = no_elements
elements_of o (ms ∷ rest) = element o ms (elements_of o rest)

module _ {F : Type 0} (pr : Printer F) (td : Tdata) (cols : Columns F) (date : ℕ) where
  -- A time in milliseconds, or null for UNREACHED.
  abbrev pub time_value : ℕ → Value
  time_value t =
      if t == unreached then null else number format_l (pr.print_l (rtime_to_msec t date))

  abbrev pub place_members : ℕ → ℕ → ℕ → Members
  place_members arrival departure stop = members_of (
      ("name", text_value (some (tdata_stop_name_for_index td cols stop)))
      ∷ (
        "stopId",
        object (
            members_of (
              ("agencyId", text_value (some (codes "NL")))
              ∷ ("id", text_value (some (tdata_stop_id_for_index td cols stop)))
              ∷ [])),
      )
      ∷ ("stopCode", null)
      ∷ ("platformCode", text_value (tdata_platformcode_for_index td cols stop))
      ∷ ("lat", number format_f (pr.print_f (cols.stop_coords stop).0))
      ∷ ("lon", number format_f (pr.print_f (cols.stop_coords stop).1))
      ∷ ("wheelchairBoarding", text_value (flag_text (tdata_stop_attributes_for_index cols stop) 1))
      ∷ ("visualAccessible", text_value (flag_text (tdata_stop_attributes_for_index cols stop) 2))
      ∷ ("arrival", time_value arrival)
      ∷ ("departure", time_value departure)
      ∷ [])

module _ {F : Type 0} (pr : Printer F) (geo : Geometry F) (td : Tdata) (cols : Columns F)
    (req : RouterRequest F) (date : ℕ) where
  -- The places `i` of a route that a leg passes between its stops; `visible` from its first stop on.
  abbrev pub passed : Leg → Bool → List ℕ → List ℕ
  passed leg visible [] = []
  passed leg visible (i ∷ is) =
      let s = tdata_stops_for_route td leg.route i in
      let from_here = passed leg true is in
      let rest = passed leg visible is in
      if s == leg.s0
      then from_here
      else (if s == leg.s1 then [] else (if visible then i ∷ rest else rest))

  abbrev pub passed_members : Leg → ℕ → Members
  passed_members leg i =
      let trip = leg_trip pr geo td cols req date leg in
      let stoptime = td.stop_times (trip.stop_times_offset + i) in
      place_members pr td cols date
        ((trip.begin_time + stoptime.arrival + trip.realtime_delay) % 2 ^ 16)
        ((trip.begin_time + stoptime.departure + trip.realtime_delay) % 2 ^ 16)
        (tdata_stops_for_route td leg.route i)

  abbrev pub all_passed : Leg → List ℕ → Elements
  all_passed leg [] = no_elements
  all_passed leg (i ∷ is) = element by_key_obj (passed_members leg i) (all_passed leg is)

  abbrev pub passed_elements : Leg → Elements
  passed_elements leg =
      if req.intermediatestops && not (leg.route == walk)
      then all_passed leg (passed leg false (range_from 0 (td.routes leg.route).n_stops))
      else no_elements

  -- The value of a text, and null for a walk.
  abbrev pub ride_value : Leg → List ℕ → Value
  ride_value leg t = text_value (ride_text pr geo td cols req date leg t)

  abbrev pub leg_members : Leg → Members
  leg_members leg =
      let r = leg.route in
      let start = rtime_to_msec leg.t0 date in
      let finish = rtime_to_msec leg.t1 date in
      let line = leg_line pr geo td cols req date leg in
      members_of (
        ("from", object (place_members pr td cols date unreached leg.t0 leg.s0))
        ∷ ("to", object (place_members pr td cols date leg.t1 unreached leg.s1))
        ∷ (
          "mode",
          text_value
              (some (codes (if r == walk then "WALK" else route_mode (td.routes r).attributes))),
        )
        ∷ ("startTime", number format_l (pr.print_l start))
        ∷ ("endTime", number format_l (pr.print_l finish))
        ∷ (
          "departureDelay",
          number format_l (pr.print_l (departuredelay pr geo td cols req date leg)),
        )
        ∷ ("arrivalDelay", number format_l (pr.print_l 0))
        ∷ ("routeShortName", ride_value leg (tdata_shortname_for_route td cols r))
        ∷ ("route", ride_value leg (tdata_shortname_for_route td cols r))
        ∷ ("headsign", ride_value leg (tdata_headsign_for_route td cols r))
        ∷ ("routeId", ride_value leg (tdata_route_id_for_index td cols r))
        ∷ ("tripId", ride_value leg (tdata_trip_id_for_route_trip_index td cols r leg.trip))
        ∷ ("serviceDate", text_value (some (leg_servicedate pr geo td cols req date leg)))
        ∷ ("agencyId", ride_value leg (tdata_agency_id_for_route td cols r))
        ∷ ("agencyName", ride_value leg (tdata_agency_name_for_route td cols r))
        ∷ ("agencyUrl", ride_value leg (tdata_agency_url_for_route td cols r))
        ∷ (
          "wheelchairAccessible",
          text_value (
              if r == walk
              then none
              else flag_text (tdata_trip_attributes_for_route td r leg.trip) 1),
        )
        ∷ ("productCategory", ride_value leg (tdata_productcategory_for_route td cols r))
        ∷ (
          "legGeometry",
          object (
              members_of (
                ("points", text_value (some line.buf))
                ∷ ("levels", null)
                ∷ ("length", number format_d (pr.print_d line.n_points))
                ∷ [])),
        )
        ∷ ("intermediateStops", array (passed_elements leg))
        ∷ ("duration", number format_d (pr.print_d (duration_msec start finish)))
        ∷ [])

-- The sum of a quantity over legs, in 32 bits.
abbrev pub total : (Leg → ℕ) → (ℕ → Leg) → List ℕ → ℕ
total quantity legs [] = 0
total quantity legs (l ∷ ls) = quantity (legs l) + total quantity legs ls

-- The seconds of a leg.
abbrev pub leg_seconds : Leg → ℕ
leg_seconds leg = (leg.t1 + 2 ^ 32 - leg.t0) * 4 % 2 ^ 32

abbrev pub waiting_of : Leg → ℕ
waiting_of leg = if leg.route == walk && leg.s0 == leg.s1 then leg_seconds leg else 0

abbrev pub walking_of : Leg → ℕ
walking_of leg = if leg.route == walk && not (leg.s0 == leg.s1) then leg_seconds leg else 0

abbrev pub riding_of : Leg → ℕ
riding_of leg = if leg.route == walk then 0 else leg_seconds leg

module _ {F : Type 0} (pr : Printer F) (geo : Geometry F) (td : Tdata) (cols : Columns F)
    (walk_sec : F → ℕ → ℕ → ℕ) (req : RouterRequest F) (date : ℕ) where
  abbrev pub meters_of : Leg → ℕ
  meters_of leg =
      if leg.route == walk && not (leg.s0 == leg.s1)
      then transfer_distance td walk_sec req leg.s0 leg.s1
      else 0

  abbrev pub total_value : (Leg → ℕ) → Itinerary → Value
  total_value quantity itin =
      number format_d (pr.print_d (total quantity itin.legs (range_from 0 itin.n_legs) % 2 ^ 32))

  abbrev pub legs_elements : (ℕ → Leg) → List ℕ → Elements
  legs_elements legs [] = no_elements
  legs_elements legs (l ∷ ls) =
      element by_obj (leg_members pr geo td cols req date (legs l)) (legs_elements legs ls)

  abbrev pub itinerary_members : Itinerary → Members
  itinerary_members itin =
      let start = rtime_to_msec (itin.legs 0).t0 date in
      let finish = rtime_to_msec (itin.legs (itin.n_legs - 1)).t1 date in
      members_of (
        ("duration", number format_d (pr.print_d (duration_msec start finish)))
        ∷ ("startTime", number format_l (pr.print_l start))
        ∷ ("endTime", number format_l (pr.print_l finish))
        ∷ ("transfers", number format_d (pr.print_d ((itin.n_legs / 2 + 2 ^ 32 - 1) % 2 ^ 32)))
        ∷ ("legs", array (legs_elements itin.legs (range_from 0 itin.n_legs)))
        ∷ ("walkTime", total_value walking_of itin)
        ∷ ("transitTime", total_value riding_of itin)
        ∷ ("waitingTime", total_value waiting_of itin)
        ∷ ("walkDistance", total_value meters_of itin)
        ∷ ("walkLimitExceeded", truth false)
        ∷ ("elevationLost", number format_d (pr.print_d 0))
        ∷ ("elevationGained", number format_d (pr.print_d 0))
        ∷ [])

  abbrev pub itineraries_elements : (ℕ → Itinerary) → List ℕ → Elements
  itineraries_elements itineraries [] = no_elements
  itineraries_elements itineraries (i ∷ is) =
      element by_obj (itinerary_members (itineraries i)) (itineraries_elements itineraries is)

  abbrev pub plan_members : F → Elements → Members
  plan_members max_walk itineraries = members_of (
      ("error", text_value (some (codes "null")))
      ∷ (
        "requestParameters",
        object (
            members_of (
              ("time", text_value (some (timetext pr req.time)))
              ∷ ("arriveBy", truth req.arrive_by)
              ∷ ("maxWalkDistance", number format_f (pr.print_f max_walk))
              ∷ ("fromPlace", text_value (some (tdata_stop_name_for_index td cols req.from)))
              ∷ ("toPlace", text_value (some (tdata_stop_name_for_index td cols req.to)))
              ∷ ("date", text_value (some (pr.date date)))
              ∷ (
                "mode",
                text_value (
                    some (if req.mode == m_all then codes "TRANSIT,WALK" else modes_text req.mode)),
              )
              ∷ [])),
      )
      ∷ (
        "plan",
        object (
            members_of (
              ("date", number format_l (pr.print_l (date * 1000 % 2 ^ 64)))
              ∷ ("from", object (place_members pr td cols date unreached unreached req.from))
              ∷ ("to", object (place_members pr td cols date unreached unreached req.to))
              ∷ ("itineraries", array itineraries)
              ∷ [])),
      )
      ∷ [])
