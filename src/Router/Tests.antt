-- ===== src/Router/Tests.antt =====
-- A timetable of two stops and one route, and instances of the theorems about a search.
use rrrr.Prelude.{
  none, ℕ, zero, suc, ◌+◌, ◌*◌, ◌<◌, ◌≡◌, ◌⊎◌, refl, true, false, some, [], ◌∷◌, arith, inl, ◌==◌,
  if◌then◌else◌, All,
}
use rrrr.Rtime.{no_index, unreached}
use rrrr.BitSet.{BitSet}
use rrrr.Tdata.{Tdata, Route, Trip}
use rrrr.Router.{Router, RouterState, ServiceDay, RouterRequest, rrrr_max_rounds}
use rrrr.Router.Stoptime.{tdata_depart, tdata_stoptime}
use rrrr.Router.Stoptime.Laws.{tdata_stoptime_lem}
use rrrr.Router.Board.{find_trip}
use rrrr.Router.Board.Trips.{IsOption}
use rrrr.Router.Board.Optimal.{InBounds, Beats, find_trip-optimal}
use rrrr.Router.Board.Bans.{find_trip-banning}
use rrrr.Router.Search.{router_route}
use rrrr.Router.Search.Invariant.{IsWellFormed, InRange}
use rrrr.Router.Search.Reached.{IsScratch, IsInWindow, router_route-IsInWindow}
use rrrr.Router.Setup.{tdata_clear_gtfsrt, tdata_clear_gtfsrt_lem}
use rrrr.Router.Request.{router_request_reverse}
use rrrr.Router.Request.Laws.{Fails, ReversesAt, router_request_reverse-outcome}
use rrrr.Router.Plan.{
  Plan, Itinerary, router_result_to_plan, add_itineraries, itinerary_with, follow,
}
use rrrr.Router.Plan.Check.{check_plan_invariants, check_plan_invariants_lem}
use rrrr.Router.Plan.Traced.{router_result_to_plan-router_route}
use rrrr.Router.Plan.Journey.Itineraries.{IsEntry, AreTraced, router_result_to_plan-IsEntry}

abbrev line : Route
line = record {
  route_stops_offset = 0;
  trip_ids_offset = 0;
  headsign_offset = 0;
  n_stops = 2;
  n_trips = 1;
  attributes = 1;
  agency_index = 0;
  shortname_index = 0;
  productcategory_index = 0;
  min_time = 9000;
  max_time = 9300;
}

abbrev nine_thirty : Trip
nine_thirty = record { stop_times_offset = 0; begin_time = 9000; realtime_delay = 0 }

-- From stop 0 to stop 1, in twenty minutes.
abbrev pub shuttle : Tdata
shuttle = record {
  calendar_start_time = 0;
  n_stops = 2;
  n_routes = 1;
  stops = λ s. record { stop_routes_offset = s; transfers_offset = 0 };
  routes = λ _. line;
  route_stops = λ i. if i == 1 then 1 else 0;
  route_stop_attributes = λ _. 6;
  stop_times = λ i. record { arrival = 300 * i; departure = 300 * i };
  trips = λ _. nine_thirty;
  stop_routes = λ _. 0;
  transfer_target_stops = λ _. 0;
  transfer_dist_meters = λ _. 0;
  trip_active = λ _. 1;
  route_active = λ _. 1;
  trip_attributes = λ _. 0;
}

shuttle-IsWellFormed : IsWellFormed shuttle
shuttle-IsWellFormed = record {
  few_stops = omega arith;
  few_routes = omega arith;
  route_stops_lt = λ i. ground arith;
  stop_routes_lt = λ i. omega arith;
  targets_lt = λ i. omega arith;
}

-- From stop 0 at 09:45 to stop 1.
abbrev pub ask : RouterRequest ℕ
ask = record {
  from = 0;
  to = 1;
  via = no_index;
  start_trip_route = no_index;
  start_trip_trip = no_index;
  time = 8775;
  time_cutoff = unreached;
  walk_speed = 1;
  walk_slack = 0;
  arrive_by = false;
  time_rounded = false;
  max_transfers = 2;
  day_mask = 1;
  mode = 255;
  agency = 65535;
  trip_attributes = 0;
  optimise = 255;
  n_banned_routes = 0;
  n_banned_stops = 0;
  n_banned_stops_hard = 0;
  n_banned_trips = 0;
  banned_route = no_index;
  banned_stop = no_index;
  banned_trip_route = no_index;
  banned_trip_offset = no_index;
  banned_stop_hard = no_index;
  intermediatestops = false;
}

ask-InRange : InRange shuttle ask
ask-InRange = record {
  time_le = omega arith;
  from_lt = omega arith;
  to_lt = omega arith;
  banned_route_lt = inl refl;
  banned_stop_lt = inl refl;
}

abbrev bits : ℕ → BitSet
bits n = record { capacity = n; chunks = 0 ∷ []; nchunks = 1 }

abbrev blank : RouterState
blank = record {
  back_stop = 0;
  back_route = 0;
  back_trip = 0;
  time = unreached;
  board_time = 0;
  walk_from = 0;
  walk_time = unreached;
}

abbrev day : ℕ → ServiceDay
day midnight = record { midnight = midnight; mask = 1; apply_realtime = false }

abbrev scratch : Router
scratch = record {
  best_time = λ _. 0;
  states = λ _ _. blank;
  updated_stops = bits 2;
  updated_routes = bits 1;
  origin = 0;
  target = 1;
  day_mask = 0;
  serviceday0 = day 0;
  serviceday1 = day 21600;
  serviceday2 = day 43200;
}

scratch-IsScratch : IsScratch shuttle scratch
scratch-IsScratch = record {
  stops = record { valid = record { chunk_count = refl; covers = omega arith }; size = refl };
  routes = record { valid = record { chunk_count = refl; covers = omega arith }; size = refl };
}

abbrev pub walk_sec : ℕ → ℕ → ℕ → ℕ
walk_sec speed meters slack = meters + slack

router_route-IsInWindow_example :
    (r : Router) × (router_route shuttle walk_sec (λ _. 0) 0 ask scratch ≡ some (true, ask, r))
    × IsInWindow shuttle ask r
router_route-IsInWindow_example =
    router_route-IsInWindow shuttle walk_sec (λ _. 0) ask 0 scratch shuttle-IsWellFormed ask-InRange
      scratch-IsScratch refl

tdata_stoptime_example : tdata_stoptime shuttle nine_thirty 1 true (day 21600) ≡ 30900
unfolding tdata_stoptime
tdata_stoptime_example = tdata_stoptime_lem shuttle nine_thirty 1 true (day 21600) (omega arith)

find_trip-banning_example :
    find_trip shuttle
      (record ask { n_banned_trips = 1; banned_trip_route = 0; banned_trip_offset = 0 })
      0
      0
      8775
      line
      (day 0)
      (day 21600)
      (day 43200)
    ≡ find_trip shuttle ask 0 0 8775 line (day 0) (day 21600) (day 43200)
find_trip-banning_example =
    find_trip-banning shuttle ask 1 0 0 0 0 8775 line (day 0) (day 21600) (day 43200)

shuttle-InBounds :
    (midnight : ℕ) → midnight < 44000 → InBounds shuttle ask 0 0 8775 line (day midnight)
unfolding tdata_stoptime tdata_depart
shuttle-InBounds midnight h t lt eligible = ground arith

find_trip-optimal_example :
    let best = find_trip shuttle ask 0 0 8775 line (day 0) (day 21600) (day 43200) in
    IsOption shuttle ask 0 0 8775 1 best
    × All (Beats shuttle ask 0 0 8775 line best.time) (day 0 ∷ day 21600 ∷ day 43200 ∷ [])
find_trip-optimal_example =
    find_trip-optimal shuttle ask 0 0 8775 line (day 0) (day 21600) (day 43200)
      (
        shuttle-InBounds 0 (omega arith),
        (shuttle-InBounds 21600 (omega arith), (shuttle-InBounds 43200 (omega arith), tt)),
      )
      ((omega arith, (omega arith, tt)), ((omega arith, tt), (tt, tt)))

-- A search that took the trip, in the first round.
abbrev ridden : RouterState
ridden = record {
  back_stop = 0;
  back_route = 0;
  back_trip = 0;
  time = 9300;
  board_time = 9000;
  walk_from = 1;
  walk_time = 9300;
}

abbrev ridden_states : ℕ → ℕ → RouterState
ridden_states zero stop = ridden
ridden_states (suc round) stop = blank

abbrev arrived : Router
arrived = record scratch { states = ridden_states }

router_request_reverse-outcome_example :
    let out = router_request_reverse arrived ask in
    Fails arrived ask out ⊎ ((round : ℕ) × ReversesAt arrived ask round out)
router_request_reverse-outcome_example = router_request_reverse-outcome arrived ask

abbrev no_legs : ℕ → Itinerary
no_legs i = record {
  n_rides = 0;
  n_legs = 0;
  legs = λ _. record { s0 = 0; s1 = 0; t0 = 0; t1 = 0; route = 0; trip = 0 };
}

abbrev no_plan : Plan ℕ
no_plan = record { req = ask; n_itineraries = 0; itineraries = no_legs }

-- Two itineraries: a walk, and a walk, a ride and a walk.
abbrev some_legs : ℕ → Itinerary
some_legs i = record {
  n_rides = i;
  n_legs = 2 * i + 1;
  legs = λ l. record { s0 = l; s1 = l + 1; t0 = l; t1 = l + 1; route = 0; trip = 0 };
}

check_plan_invariants_example :
    check_plan_invariants (record no_plan { n_itineraries = 2; itineraries = some_legs })
    ≡ some true
check_plan_invariants_example =
    check_plan_invariants_lem (record no_plan { n_itineraries = 2; itineraries = some_legs })

-- The first itinerary without legs, the second with three.
crashing :
    check_plan_invariants (record no_plan {
      n_itineraries = 2;
      itineraries = λ i. if i == 0 then no_legs 0 else some_legs i;
    })
    ≡ none
crashing = check_plan_invariants_lem (record no_plan {
  n_itineraries = 2;
  itineraries = λ i. if i == 0 then no_legs 0 else some_legs i;
})

arrived-AreTraced : AreTraced shuttle walk_sec ask arrived 0 rrrr_max_rounds
arrived-AreTraced zero lo lt reached = (omega arith, omega arith, omega arith, tt)
arrived-AreTraced (suc x) lo lt reached = absurd (reached refl)

planned : (router_result_to_plan shuttle walk_sec ask no_plan arrived).n_itineraries ≡ 1
unfolding router_result_to_plan add_itineraries itinerary_with follow
planned = refl

router_result_to_plan-IsEntry_example :
    IsEntry shuttle walk_sec ask rrrr_max_rounds
      (router_result_to_plan shuttle walk_sec ask no_plan arrived).itineraries
      0
router_result_to_plan-IsEntry_example =
    router_result_to_plan-IsEntry shuttle walk_sec ask no_plan arrived 0 refl arrived-AreTraced
      (omega (arith, planned))

-- The shuttle, a minute late.
abbrev late : Tdata
late = record shuttle { trips = λ _. record nine_thirty { realtime_delay = 15 } }

tdata_clear_gtfsrt_example :
    ((r t : ℕ) → r < 1 → t < 1 → ((tdata_clear_gtfsrt late).trips (0 + t)).realtime_delay ≡ 0)
    × ((k : ℕ)
        → (((tdata_clear_gtfsrt late).trips k).realtime_delay ≡ 0)
          ⊎ (((tdata_clear_gtfsrt late).trips k).realtime_delay ≡ 15))
tdata_clear_gtfsrt_example = tdata_clear_gtfsrt_lem late

router_result_to_plan-router_route_example :
    (r : Router) × (router_route shuttle walk_sec (λ _. 0) 0 ask scratch ≡ some (true, ask, r))
    × ((k : ℕ)
        → k < (router_result_to_plan shuttle walk_sec ask no_plan r).n_itineraries
        → IsEntry shuttle walk_sec ask rrrr_max_rounds
            (router_result_to_plan shuttle walk_sec ask no_plan r).itineraries
            k)
router_result_to_plan-router_route_example =
    router_result_to_plan-router_route shuttle walk_sec (λ _. 0) ask 0 scratch no_plan
      shuttle-IsWellFormed ask-InRange scratch-IsScratch refl (omega arith)
