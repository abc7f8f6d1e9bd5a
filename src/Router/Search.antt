-- ===== src/Router/Search.antt =====
-- `router_round` and `router_route` of router.c.
pub mod Invariant
pub mod Reached
pub mod Trace
use rrrr.Prelude.{
  ℕ, zero, suc, ◌+◌, ◌-◌, ◌*◌, ◌/◌, ◌%◌, ◌^◌, Bool, true, false, Option, none, some, List, ltb, leb,
  ◌==◌, not, ◌&&◌, ◌||◌, if◌then◌else◌, bit_and, bit_or, range_from, update,
}
use rrrr.Prelude.Effects.{◌>>=◌, for_each}
use rrrr.Rtime.{
  no_index, onboard, unreached, agency_unfiltered, rtime_one_day, rtime_two_days, sec_in_one_day,
}
use rrrr.BitSet.{bitset_set, bitset_reset, elements}
use rrrr.Tdata.{Tdata, tdata_stops_for_route, tdata_trips_for_route}
use rrrr.Router.{ServiceDay, Router, RouterState, RouterRequest, rrrr_max_rounds}
use rrrr.Router.Stoptime.{tdata_stoptime}
use rrrr.Router.Ride.{set_state, ride_route}
use rrrr.Router.Transfers.{unflag_banned_stops, apply_transfers, initialize_transfers}

module _ {F : Type 0} (td : Tdata) (walk_sec : F → ℕ → ℕ → ℕ) (past : ℕ → ℕ) where
  -- The body of the loop over the routes flagged in the last round.
  unfoldable pub round_route : RouterRequest F → ℕ → ℕ → Router → Option Router
  round_route req round route_idx router =
      if not (req.agency == agency_unfiltered)
        && not (req.agency == (td.routes route_idx).agency_index)
      then some router
      else ride_route td req round route_idx router

  unfoldable pub router_round : RouterRequest F → ℕ → Router → Option Router
  router_round req round router = do
    routes ← elements router.updated_routes past
    router1 ← for_each routes (round_route req round) router
    router2 ← unflag_banned_stops td req router1
    router3 ← apply_transfers td req walk_sec past round router2
    if round == 0 then initialize_transfers td req 1 router3.origin router3 else some router3

  -- Yesterday, today and tomorrow, in this order or, when arriving by, the other one. `now` is
  -- what `time(NULL)` returns.
  unfoldable pub set_servicedays : RouterRequest F → ℕ → Router → Router
  set_servicedays req now router =
      let realtime_mask =
        2 ^ ((now + 2 ^ 64 - td.calendar_start_time) % 2 ^ 64 / sec_in_one_day) % 2 ^ 32 in
      let day = λ (midnight mask : ℕ).
        let d : ServiceDay = record {
          midnight = midnight;
          mask = mask;
          apply_realtime = not (bit_and mask realtime_mask == 0);
        } in
        d in
      let yesterday = day 0 (req.day_mask / 2) in
      let today = day rtime_one_day req.day_mask in
      let tomorrow = day rtime_two_days (req.day_mask * 2 % 2 ^ 32) in
      record router {
        serviceday0 = if req.arrive_by then tomorrow else yesterday;
        serviceday1 = today;
        serviceday2 = if req.arrive_by then yesterday else tomorrow;
        day_mask = bit_or (bit_or yesterday.mask today.mask) tomorrow.mask;
      }

  unreach : RouterState → RouterState
  unreach s = record s { time = unreached; walk_time = unreached }

  -- Every stop is marked as not reached in every round, and the ends of the search are set.
  unfoldable pub clear : RouterRequest F → Router → Router
  unfolding unreach
  clear req router = record router {
    states = λ round stop.
        if ltb round rrrr_max_rounds && ltb stop td.n_stops
        then unreach (router.states round stop)
        else router.states round stop;
    best_time = λ stop. if ltb stop td.n_stops then unreached else router.best_time stop;
    origin = if req.arrive_by then req.to else req.from;
    target = if req.arrive_by then req.from else req.to;
  }

  -- The state of round 1 at the origin.
  abbrev pub origin_states : RouterRequest F → Router → ℕ → ℕ → RouterState
  origin_states req router =
      set_state router.states 1 router.origin (record (router.states 1 router.origin) {
        time = req.time;
        back_stop = no_index;
        back_route = no_index;
        back_trip = no_index;
        board_time = unreached;
      })

  -- The state of the search at the origin, in the rounds 1 and 0, before the first transfers.
  unfoldable pub set_origin : RouterRequest F → Router → Option Router
  set_origin req router = do
    stops ← bitset_set (bitset_reset router.updated_stops) router.origin
    some (record router {
      best_time = update router.best_time router.origin req.time;
      states =
          set_state (origin_states req router) 0 router.origin
            (record (origin_states req router 0 router.origin) { time = req.time });
      updated_stops = stops;
    })

  -- Beginning at a stop: the initial state is that of round 1, with its transfers.
  unfoldable pub start_at_stop : RouterRequest F → Router → Option Router
  start_at_stop req router = do
    router1 ← set_origin req router
    router2 ← unflag_banned_stops td req router1
    apply_transfers td req walk_sec past 1 router2

  -- Beginning on board: the last stop of the trip before the time of the request.
  unfoldable pub previous_stop : RouterRequest F → ServiceDay → List ℕ → ℕ × ℕ → ℕ × ℕ
  previous_stop req day List.[] prev = prev
  previous_stop req day (List.◌∷◌ route_stop rest) (prev_stop, prev_time) =
      let trip = tdata_trips_for_route td req.start_trip_route req.start_trip_trip in
      let stop = tdata_stops_for_route td req.start_trip_route route_stop in
      let time = tdata_stoptime td trip route_stop false day in
      previous_stop req day rest (
        if (if req.arrive_by then ltb req.time time else ltb time req.time)
          && (prev_time == unreached
              || (if req.arrive_by then ltb time prev_time else ltb prev_time time))
        then (stop, time)
        else (prev_stop, prev_time))

  unfoldable pub start_on_board : RouterRequest F → ℕ → ℕ → Router → Option Router
  start_on_board req prev_stop prev_time router = do
    routes ← bitset_set (bitset_reset router.updated_routes) req.start_trip_route
    some (record router {
      origin = prev_stop;
      best_time = update router.best_time prev_stop prev_time;
      states =
          set_state router.states 1 prev_stop
            (record (router.states 1 prev_stop) { time = prev_time; walk_time = prev_time });
      updated_stops = bitset_reset router.updated_stops;
      updated_routes = routes;
    })

  abbrev pub n_rounds : RouterRequest F → ℕ
  n_rounds req =
      let n = (req.max_transfers + 1) % 2 ^ 32 in
      if ltb rrrr_max_rounds n then rrrr_max_rounds else n

  unfoldable pub run_rounds : RouterRequest F → Router → Option Router
  run_rounds req router = for_each (range_from 0 (n_rounds req)) (router_round req) router

  abbrev finish : Bool → RouterRequest F → Router → Bool × RouterRequest F × Router
  finish ok req router = (ok, req, router)

  -- The rest of the search once the request says where to begin.
  unfoldable pub search_from : RouterRequest F → Router → Option (Bool × RouterRequest F × Router)
  search_from req router = do
    router1 ← (if req.from == onboard then some router else start_at_stop req router)
    router2 ← run_rounds req router1
    some (finish true req router2)

  -- The result of `router_route`, with the request, whose `from` it may change, and the router.
  unfoldable pub router_route :
      ℕ → RouterRequest F → Router → Option (Bool × RouterRequest F × Router)
  router_route now req router0 =
      let router = clear req (set_servicedays req now router0) in
      if not (req.start_trip_route == no_index) && not (req.start_trip_trip == no_index)
      then (if req.arrive_by
          then some (finish false req router)
          else (let (prev_stop, prev_time) =
                previous_stop req router.serviceday1
                  (range_from 0 (td.routes req.start_trip_route).n_stops) (no_index, unreached) in
              if prev_stop == no_index then search_from req router else do
                router1 ← start_on_board req prev_stop prev_time router
                search_from (record req { from = onboard }) router1))
      else search_from req router
