-- ===== src/Router/Transfers.antt =====
-- router.c: flagging of routes, and the transfers on foot at the end of a round.
use rrrr.Prelude.{
  ℕ, ◌+◌, ◌-◌, ◌*◌, ◌%◌, ◌^◌, Bool, Option, some, List, ltb, ◌==◌, not, ◌&&◌, ◌||◌, if◌then◌else◌,
  bit_and, range_from, update,
}
use rrrr.Prelude.Effects.{◌>>=◌, for_each}
use rrrr.Rtime.{unreached, rtime_three_days, sec_to_rtime}
use rrrr.BitSet.{bitset_set, bitset_unset, bitset_reset, elements}
use rrrr.Tdata.{Tdata, tdata_routes_for_stop}
use rrrr.Router.{Router, RouterRequest}
use rrrr.Router.Ride.{set_state}

module _ {F : Type 0} (td : Tdata) (req : RouterRequest F) where
  -- A route is flagged if it runs on one of the days and is of a mode asked for.
  abbrev pub is_wanted : Router → ℕ → Bool
  is_wanted router route =
      not (bit_and router.day_mask (td.route_active route) == 0)
      && ltb 0 (bit_and req.mode (td.routes route).attributes)

  unfoldable pub flag_route : (ℕ → ℕ) → ℕ → Router → Option Router
  flag_route routes i router =
      if is_wanted router (routes i)
      then (do
        flagged ← bitset_set router.updated_routes (routes i)
        some (record router { updated_routes = flagged }))
      else some router

  unfoldable pub flag_routes_for_stop : ℕ → Router → Option Router
  flag_routes_for_stop stop router =
      let (n_routes, routes) = tdata_routes_for_stop td stop in
      for_each (range_from 0 n_routes) (flag_route routes) router

  unfoldable pub unflag_banned_routes : Router → Option Router
  unflag_banned_routes router =
      for_each (range_from 0 req.n_banned_routes)
        (λ _ router'. do
          routes ← bitset_unset router'.updated_routes req.banned_route
          some (record router' { updated_routes = routes }))
        router

  unfoldable pub unflag_banned_stops : Router → Option Router
  unflag_banned_stops router =
      for_each (range_from 0 req.n_banned_stops)
        (λ _ router'. do
          stops ← bitset_unset router'.updated_stops req.banned_stop
          some (record router' { updated_stops = stops }))
        router

  -- The transfers that leave a stop: their indexes `t` from `transfers_offset` on.
  abbrev pub transfers_from : ℕ → List ℕ
  transfers_from stop =
      let t = (td.stops stop).transfers_offset in
      range_from t ((td.stops (stop + 1)).transfers_offset - t)

  abbrev pub forget_walk : ℕ → ℕ → Router → Option Router
  forget_walk round stop router = some (record router {
    states =
        set_state router.states round stop
          (record (router.states round stop) { walk_time = unreached });
  })

  unfoldable pub initialize_transfers : ℕ → ℕ → Router → Option Router
  initialize_transfers round stop_index_from router = do
    router' ← forget_walk round stop_index_from router
    for_each (transfers_from stop_index_from) (λ t. forget_walk round (td.transfer_target_stops t))
        router'

  -- `walk_sec speed meters slack` is `(uint32_t)(meters / speed + slack)`, in floating point.
  module _ (walk_sec : F → ℕ → ℕ → ℕ) where
    abbrev pub transfer_duration_at : ℕ → ℕ
    transfer_duration_at t =
        sec_to_rtime (walk_sec req.walk_speed (td.transfer_dist_meters t * 16) req.walk_slack)

    -- `time_from` plus or minus the duration, in a uint16_t
    abbrev pub time_after_walk : ℕ → ℕ → ℕ
    time_after_walk time_from duration =
        if req.arrive_by
        then (time_from + 2 ^ 16 - duration) % 2 ^ 16
        else (time_from + duration) % 2 ^ 16

    -- The transfer is taken: the time does not wrap and is not reserved, and improves the stop.
    unfoldable pub takes : Router → ℕ → ℕ → ℕ → Bool
    takes router time_from time_to stop_to =
        not (ltb rtime_three_days time_to)
        && not (if req.arrive_by then ltb time_from time_to else ltb time_to time_from)
        && (router.best_time stop_to == unreached
            || (if req.arrive_by
                then ltb (router.best_time stop_to) time_to
                else ltb time_to (router.best_time stop_to)))

    -- The walk to a stop, and the routes that it flags.
    unfoldable pub walk_to : ℕ → ℕ → ℕ → ℕ → Router → Option Router
    walk_to round stop_from stop_to time_to router = do
      router' ← flag_routes_for_stop stop_to (record router {
        states =
            set_state router.states round stop_to
              (record (router.states round stop_to) { walk_time = time_to; walk_from = stop_from });
        best_time = update router.best_time stop_to time_to;
      })
      unflag_banned_routes router'

    unfoldable pub apply_transfer : ℕ → ℕ → ℕ → ℕ → Router → Option Router
    apply_transfer round stop_from time_from tr router =
        let time_to = time_after_walk time_from (transfer_duration_at tr) in
        let stop_to = td.transfer_target_stops tr in
        if takes router time_from time_to stop_to
        then walk_to round stop_from stop_to time_to router
        else some router

    -- The transfer from the stop to itself, if its time in this round is still its best one.
    unfoldable pub stay_at : ℕ → ℕ → ℕ → Router → Option Router
    stay_at round stop_from time_from router =
        if time_from == router.best_time stop_from
        then (do
          router' ← flag_routes_for_stop stop_from (record router {
            states =
                set_state router.states round stop_from (record (router.states round stop_from) {
                  walk_time = time_from;
                  walk_from = stop_from;
                });
          })
          unflag_banned_routes router')
        else some router

    unfoldable pub transfers_at : ℕ → ℕ → Router → Option Router
    transfers_at round stop_from router =
        let time_from = (router.states round stop_from).time in
        if time_from == unreached then some router else (do
          router' ← stay_at round stop_from time_from router
          for_each (transfers_from stop_from) (apply_transfer round stop_from time_from) router')

    -- `past` is the memory behind the chunks of the bitsets.
    unfoldable pub apply_transfers : (ℕ → ℕ) → ℕ → Router → Option Router
    apply_transfers past round router = do
      stops ← elements router.updated_stops past
      router' ←
          for_each stops (transfers_at round)
            (record router { updated_routes = bitset_reset router.updated_routes })
      some (record router' { updated_stops = bitset_reset router'.updated_stops })
