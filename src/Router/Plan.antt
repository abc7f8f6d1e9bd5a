-- ===== src/Router/Plan.antt =====
-- router.c: the itineraries of a search (`router_result_to_plan`), and the test of them
-- (`check_plan_invariants`).
pub mod Check
pub mod Journey
pub mod Traced
use rrrr.Prelude.{
  ℕ, zero, suc, ◌+◌, ◌-◌, ◌*◌, ◌%◌, ◌^◌, Bool, true, false, List, [], ◌∷◌, ltb, leb, ◌==◌, not,
  ◌&&◌, ◌||◌, if◌then◌else◌, range_from, down_from, update, length,
}
use rrrr.Rtime.{no_index, unreached, walk, onboard}
use rrrr.Tdata.{Tdata}
use rrrr.Router.{Router, RouterRequest, RouterState, rrrr_max_rounds}
use rrrr.Router.Transfers.{transfers_from, transfer_duration_at}

-- `struct leg`
pub record Leg : Type 0 where
  pub s0 : ℕ
  pub s1 : ℕ
  pub t0 : ℕ
  pub t1 : ℕ
  pub route : ℕ
  pub trip : ℕ

-- `struct itinerary`; the array of legs is a function of the place.
pub record Itinerary : Type 0 where
  pub n_rides : ℕ
  pub n_legs : ℕ
  pub legs : ℕ → Leg

-- `struct plan`
pub record Plan (F : Type 0) : Type 0 where
  pub req : RouterRequest F
  pub n_itineraries : ℕ
  pub itineraries : ℕ → Itinerary

abbrev pub leg_swap : Leg → Leg
leg_swap leg = record leg { s0 = leg.s1; s1 = leg.s0; t0 = leg.t1; t1 = leg.t0 }

-- The leg as it is kept, and the next place for a leg. A forward search fills the places
-- downwards, from `n_legs - 1` on, two for each of the `n_rides` rounds, so it never passes 0.
abbrev pub directed : Bool → Leg → Leg
directed true leg = leg_swap leg
directed false leg = leg

abbrev pub next_place : Bool → ℕ → ℕ
next_place true l = l + 1
next_place false l = l - 1

-- The variables of the loop over the rounds: the legs, the place `l` and `stop`.
pub record Trace : Type 0 where
  pub legs : ℕ → Leg
  pub l : ℕ
  pub stop : ℕ

-- `l` gets a leg, and moves on.
abbrev pub put : Bool → Leg → (ℕ → Leg) × ℕ → (ℕ → Leg) × ℕ
put arrive leg (legs, l) = (update legs l (directed arrive leg), next_place arrive l)

module _ (n_stops : ℕ) (router : Router) where
  abbrev pub walk_leg : ℕ → ℕ → Leg
  walk_leg round stop =
      let walk_state = router.states round stop in
      record {
        s0 = walk_state.walk_from;
        s1 = stop;
        t0 = (router.states round walk_state.walk_from).time;
        t1 = walk_state.walk_time;
        route = walk;
        trip = walk;
      }

  abbrev pub ride_leg : ℕ → ℕ → Leg
  ride_leg round stop =
      let ride = router.states round stop in
      record {
        s0 = ride.back_stop;
        s1 = stop;
        t0 = ride.board_time;
        t1 = ride.time;
        route = ride.back_route;
        trip = ride.back_trip;
      }

  -- One turn of the loop that does not leave it.
  abbrev pub turn : Bool → ℕ → Trace → Trace
  turn arrive round c =
      let ride_stop = (router.states round c.stop).walk_from in
      let (legs, l) =
        put arrive (ride_leg round ride_stop) (put arrive (walk_leg round c.stop) (c.legs, c.l)) in
      record { legs = legs; l = l; stop = (router.states round ride_stop).back_stop }

  -- The loop over the rounds, which stops where a state was not reached.
  unfoldable pub follow : Bool → List ℕ → Trace → Trace
  follow arrive [] c = c
  follow arrive (round ∷ rounds) c =
      let walk_state = router.states round c.stop in
      let ride = router.states round walk_state.walk_from in
      let rest = follow arrive rounds (turn arrive round c) in
      if ltb n_stops c.stop || (walk_state.walk_time == unreached)
      then c
      else (if ride.time == unreached then record c { stop = walk_state.walk_from } else rest)

module _ {F : Type 0} (req : RouterRequest F) where
  abbrev pub target_stop : ℕ
  target_stop = if req.arrive_by then req.from else req.to

  -- The first leg of a search that starts on board a vehicle, and the start of the ride after it.
  abbrev pub onboard_legs : Trace → ℕ → Leg
  onboard_legs c =
      let first : Leg = record {
        s0 = onboard;
        s1 = onboard;
        t0 = req.time;
        t1 = req.time;
        route = walk;
        trip = walk;
      } in
      update (update c.legs c.l first) (c.l + 1)
        (record (c.legs (c.l + 1)) { s0 = onboard; t0 = req.time })

module _ {F : Type 0} (td : Tdata) (walk_sec : F → ℕ → ℕ → ℕ) (req : RouterRequest F) where
  -- The search of `transfer_duration` and `transfer_distance`: the first transfer to the stop.
  abbrev pub first_transfer : (ℕ → ℕ) → ℕ → List ℕ → ℕ
  first_transfer result stop_to [] = unreached
  first_transfer result stop_to (t ∷ ts) =
      let rest = first_transfer result stop_to ts in
      if td.transfer_target_stops t == stop_to then result t else rest

  unfoldable pub transfer_duration : ℕ → ℕ → ℕ
  transfer_duration stop_from stop_to =
      if stop_from == stop_to
      then 0
      else first_transfer (transfer_duration_at td req walk_sec) stop_to
          (transfers_from td req stop_from)

  unfoldable pub transfer_distance : ℕ → ℕ → ℕ
  transfer_distance stop_from stop_to =
      if stop_from == stop_to
      then 0
      else first_transfer (λ t. td.transfer_dist_meters t * 16 % 2 ^ 32) stop_to
          (transfers_from td req stop_from)

  -- The initial walk out of the origin of the search.
  abbrev pub origin_leg : Router → ℕ → Leg
  origin_leg router stop =
      let origin_stop = if req.arrive_by then req.to else req.from in
      let t0 = (router.states 0 origin_stop).time in
      let duration = transfer_duration origin_stop stop % 2 ^ 16 in
      record {
        s0 = origin_stop;
        s1 = stop;
        t0 = t0;
        t1 =
            (if req.arrive_by then (t0 + 2 ^ 16 - duration) % 2 ^ 16 else (t0 + duration) % 2 ^ 16);
        route = walk;
        trip = walk;
      }

  abbrev pub first_leg : Router → Trace → ℕ → Leg
  first_leg router c =
      if req.start_trip_trip == no_index
      then update c.legs c.l (directed req.arrive_by (origin_leg router c.stop))
      else onboard_legs req c

  -- The itinerary with `n_xfers` transfers; `legs` are the old contents of the array.
  unfoldable pub itinerary_with : Router → ℕ → (ℕ → Leg) → Itinerary
  itinerary_with router n_xfers legs =
      let n_rides = n_xfers + 1 in
      let n_legs = n_rides * 2 + 1 in
      let start : Trace = record {
        legs = legs;
        l = if req.arrive_by then 0 else n_legs - 1;
        stop = target_stop req;
      } in
      let c = follow td.n_stops router req.arrive_by (down_from (n_xfers + 1)) start in
      record { n_rides = n_rides; n_legs = n_legs; legs = first_leg router c }

  -- The loop over the numbers of transfers.
  unfoldable pub add_itineraries : Router → List ℕ → Plan F → Plan F
  add_itineraries router [] plan = plan
  add_itineraries router (n_xfers ∷ rest) plan =
      let itin = plan.n_itineraries in
      let added : Plan F = record plan {
        n_itineraries = itin + 1;
        itineraries =
            update plan.itineraries itin
              (itinerary_with router n_xfers (plan.itineraries itin).legs);
      } in
      let skipped = add_itineraries router rest plan in
      let with_added = add_itineraries router rest added in
      if (router.states n_xfers (target_stop req)).walk_time == unreached
      then skipped
      else with_added

  -- `router_result_to_plan`, but for the call of `check_plan_invariants`, which only prints.
  unfoldable pub router_result_to_plan : Plan F → Router → Plan F
  router_result_to_plan plan router =
      add_itineraries router (range_from 0 rrrr_max_rounds)
        (record plan { req = req; n_itineraries = 0 })
