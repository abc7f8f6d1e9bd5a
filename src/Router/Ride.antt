-- ===== src/Router/Ride.antt =====
-- `router_round` of router.c, the loop over the stops of one route. `none` is an exit of the
-- bitset, or a NULL service day followed.
use rrrr.Prelude.{
  ℕ, zero, suc, Bool, true, false, Option, none, some, List, ltb, ◌==◌, not, ◌&&◌, ◌||◌,
  if◌then◌else◌, bit_and, range_from, down_from, update, map_option, ◌-◌,
}
use rrrr.Prelude.Effects.{◌>>=◌, for_each}
use rrrr.Rtime.{no_index, onboard, unreached, rtime_three_days}
use rrrr.BitSet.{bitset_set}
use rrrr.Tdata.{
  Tdata, Route, tdata_stops_for_route, tdata_stop_attributes_for_route, tdata_trips_for_route,
  rsa_boarding, rsa_alighting,
}
use rrrr.Router.{ServiceDay, Router, RouterState, RouterRequest}
use rrrr.Router.Stoptime.{tdata_stoptime}
use rrrr.Router.Board.{Best, find_trip}

-- The variables of the loop: the trip on which one rides (NONE when not on board), and where, when
-- and on which service day it was boarded.
pub record Ride : Type 0 where
  pub trip : ℕ
  pub board_stop : ℕ
  pub board_time : ℕ
  pub board_serviceday : Option ServiceDay

abbrev pub start_ride : Ride
start_ride = record { trip = no_index; board_stop = 0; board_time = 0; board_serviceday = none }

-- `states[round][stop] = state`
abbrev pub set_state : (ℕ → ℕ → RouterState) → ℕ → ℕ → RouterState → ℕ → ℕ → RouterState
set_state states round stop state = update states round (update (states round) stop state)

module _ {F : Type 0} (td : Tdata) (req : RouterRequest F) (round route_idx : ℕ) where
  -- The loop over the hard-banned stops. Its `continue` goes on with this loop, not with the stops.
  unfoldable pub hard_ban : ℕ → ℕ → Ride → Ride
  hard_ban zero stop ride = ride
  hard_ban (suc n) stop ride =
      hard_ban n stop
        (if stop == req.banned_stop_hard then record ride { trip = no_index } else ride)

  -- The stop time of the trip on which one rides.
  unfoldable pub ride_time : ℕ → Bool → Ride → Option ℕ
  ride_time route_stop arrive ride = elim ride.board_serviceday [
    | none ↦ none
    | some day ↦
        some
          (tdata_stoptime td (tdata_trips_for_route td route_idx ride.trip) route_stop arrive day)
  ]

  -- Whether to search for a trip at this stop.
  unfoldable pub attempt_board : ℕ → ℕ → ℕ → Ride → Option Bool
  unfolding ride_time
  attempt_board route_stop stop prev_time ride =
      if prev_time == unreached
      then some false
      else (if ride.trip == no_index || req.via == stop
          then some true
          else (if not (req.via == no_index) && req.via == ride.board_stop then some false else do
            trip_time ← ride_time route_stop req.arrive_by ride
            some (
                not (trip_time == unreached)
                && (if req.arrive_by then ltb trip_time prev_time else ltb prev_time trip_time))))

  -- Boarding, if a trip was found that does not leave before the start of the search.
  unfoldable pub board : ℕ → Best → Ride → Ride
  board stop best ride =
      if best.trip == no_index
      then ride
      else (if (if req.arrive_by then ltb req.time best.time else ltb best.time req.time)
            && not (req.from == onboard)
          then ride
          else record {
            trip = best.trip;
            board_stop = stop;
            board_time = best.time;
            board_serviceday = best.serviceday;
          })

  -- The tests that a time passes before it is stored: target pruning, the cutoff, improvement,
  -- the reserved range, and wrapped times.
  unfoldable pub accepts : Router → ℕ → ℕ → Bool
  accepts router stop time =
      let pruned =
        not (router.best_time router.target == unreached)
        && (if req.arrive_by
            then ltb time (router.best_time router.target)
            else ltb (router.best_time router.target) time) in
      let cut_off =
        not (req.time_cutoff == unreached)
        && (if req.arrive_by then ltb time req.time_cutoff else ltb req.time_cutoff time) in
      let improved =
        router.best_time stop == unreached
        || (if req.arrive_by
            then ltb (router.best_time stop) time
            else ltb time (router.best_time stop)) in
      not (time == unreached)
      && not pruned
      && not cut_off
      && improved
      && not (ltb rtime_three_days time)
      && not (if req.arrive_by then ltb req.time time else ltb time req.time)

  -- Alighting at a better time: the stop's best time and its state in this round.
  unfoldable pub alight : Router → ℕ → ℕ → Ride → Option Router
  alight router stop time ride = do
    stops ← bitset_set router.updated_stops stop
    some (record router {
      best_time = update router.best_time stop time;
      states = set_state router.states round stop (record (router.states round stop) {
        time = time;
        back_route = route_idx;
        back_trip = ride.trip;
        back_stop = ride.board_stop;
        board_time = ride.board_time;
      });
      updated_stops = stops;
    })

  -- The stop does not allow what would happen there: boarding, or in an arrive-by search the
  -- boarding that ends a ride found backwards; and so for alighting.
  unfoldable pub forbidden : ℕ → Bool → Ride → Bool
  forbidden route_stop attempt ride =
      let attributes = tdata_stop_attributes_for_route td route_idx route_stop in
      let on_board = not (ride.trip == no_index) in
      (bit_and attributes rsa_boarding == 0 && (if req.arrive_by then on_board else attempt))
      || (bit_and attributes rsa_alighting == 0 && (if req.arrive_by then attempt else on_board))

  -- Staying on board: alight if that improves the stop.
  unfoldable pub stay : ℕ → ℕ → Router → Ride → Option (Router × Ride)
  stay route_stop stop router ride = if ride.trip == no_index then some (router, ride) else do
    time ← ride_time route_stop (not req.arrive_by) ride
    router' ← (if accepts router stop time then alight router stop time ride else some router)
    some (router', ride)

  -- What happens at a stop once it is decided whether to search for a trip there.
  unfoldable pub at_stop : Route → ℕ → ℕ → ℕ → Router → Ride → Bool → Option (Router × Ride)
  at_stop route route_stop stop prev_time router ride attempt =
      if forbidden route_stop attempt ride
      then some (router, ride)
      else (if attempt
          then some (
            router,
            board stop
                (find_trip td req route_idx route_stop prev_time route router.serviceday0
                  router.serviceday1 router.serviceday2)
                ride,
          )
          else stay route_stop stop router ride)

  -- One round of the loop over the stops of the route.
  unfoldable pub visit_stop : Route → ℕ → Router × Ride → Option (Router × Ride)
  visit_stop route route_stop (router, ride0) =
      let last_round = if round == 0 then 1 else round - 1 in
      let stop = tdata_stops_for_route td route_idx route_stop in
      let ride = hard_ban req.n_banned_stops_hard stop ride0 in
      let prev_time = (router.states last_round stop).walk_time in
      do
        attempt ← attempt_board route_stop stop prev_time ride
        at_stop route route_stop stop prev_time router ride attempt

  abbrev pub route_stops_in_order : Route → List ℕ
  route_stops_in_order route =
      if req.arrive_by then down_from route.n_stops else range_from 0 route.n_stops

  -- All stops of the route, from its end in an arrive-by search.
  unfoldable pub ride_route : Router → Option Router
  ride_route router =
      map_option (λ s. s.0)
        (for_each (route_stops_in_order (td.routes route_idx)) (visit_stop (td.routes route_idx))
          (router, start_ride))
