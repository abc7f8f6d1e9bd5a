-- ===== src/Router/Board/Bans.antt =====
-- The search for a trip to board does not see the banned trips: the `continue` of the check is
-- inside a loop of its own.
use rrrr.Prelude.{ℕ, ◌≡◌, refl, List, [], ◌∷◌, range_from}
use rrrr.Tdata.{Tdata, Route}
use rrrr.Router.{ServiceDay, RouterRequest}
use rrrr.Router.Board.{Best, start_best, consider_trip, scan_trips, scan_days, find_trip}
use rrrr.Router.Board.Trips.{banned_trips_lem}

module _ {F : Type 0} (td : Tdata) (req : RouterRequest F) (n route trip : ℕ)
    (route_idx route_stop prev_time : ℕ) where
  abbrev banning : RouterRequest F
  banning = record req { n_banned_trips = n; banned_trip_route = route; banned_trip_offset = trip }

  consider_trip-banning :
      (day : ServiceDay) (t : ℕ) (best : Best)
      → consider_trip td banning route_idx route_stop prev_time day t best
        ≡ consider_trip td req route_idx route_stop prev_time day t best
  unfolding consider_trip
  consider_trip-banning day t best = rw (
    banned_trips_lem td banning route_idx route_stop prev_time n t best,
    banned_trips_lem td req route_idx route_stop prev_time req.n_banned_trips t best,
  )

  scan_trips-banning :
      (day : ServiceDay) (ts : List ℕ) (best : Best)
      → scan_trips td banning route_idx route_stop prev_time day ts best
        ≡ scan_trips td req route_idx route_stop prev_time day ts best
  unfolding scan_trips
  scan_trips-banning day [] best = refl
  scan_trips-banning day (t ∷ ts) best =
      rw (consider_trip-banning day t best) (scan_trips-banning day ts _)

  scan_days-banning :
      (r : Route) (days : List ServiceDay) (best : Best)
      → scan_days td banning route_idx route_stop prev_time r days best
        ≡ scan_days td req route_idx route_stop prev_time r days best
  unfolding scan_days
  scan_days-banning r [] best = refl
  scan_days-banning r (day ∷ days) best = rw (
    scan_days-banning r days best,
    scan_trips-banning day (range_from 0 r.n_trips) best,
    scan_days-banning r days
        (scan_trips td req route_idx route_stop prev_time day (range_from 0 r.n_trips) best),
  )

  -- Whatever trip a request bans, and however often, the search for a trip to board gives the same
  -- result as with the request's own ban: banning a trip has no effect.
  pub find_trip-banning :
      (r : Route) (day0 day1 day2 : ServiceDay)
      → find_trip td banning route_idx route_stop prev_time r day0 day1 day2
        ≡ find_trip td req route_idx route_stop prev_time r day0 day1 day2
  unfolding find_trip
  find_trip-banning r day0 day1 day2 =
      scan_days-banning r (day0 ∷ day1 ∷ day2 ∷ []) (start_best req.arrive_by)
