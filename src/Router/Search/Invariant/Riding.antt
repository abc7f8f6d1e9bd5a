-- ===== src/Router/Search/Invariant/Riding.antt =====
-- The rides of a round keep the invariant of a search, and none of them exits.
use rrrr.Prelude.{
  ℕ, zero, suc, ◌≤◌, ◌<◌, ◌≡◌, ◌⊎◌, refl, Bool, true, false, Option, none, some, arith, update-all,
  inl, inr, if_all, ap, sym, subst, Bool-cases, ◌==◌, ◌&&◌, ◌||◌, not, ltb, if◌then◌else◌,
  map_option,
}
use rrrr.Prelude.Effects.{Ensures, Ensures-bind, Ensures-if, Ensures-for_each}
use rrrr.Rtime.{no_index, onboard, unreached, rtime_three_days}
use rrrr.Tdata.{Tdata, Route, tdata_stops_for_route}
use rrrr.Router.{ServiceDay, Router, RouterRequest, rrrr_max_rounds}
use rrrr.Router.Board.{Best, start_best, find_trip}
use rrrr.Router.Board.Order.{NoWorse}
use rrrr.Router.Board.Trips.{IsOption}
use rrrr.Router.Board.Optimal.{find_trip-IsOption}
use rrrr.Router.Ride.{
  Ride, start_ride, hard_ban, ride_time, attempt_board, board, accepts, alight, forbidden, stay,
  at_stop, visit_stop, ride_route, route_stops_in_order,
}
use rrrr.Router.Search.Invariant.{IsWellFormed, Window, StateIn, IsSized, Inv, set_state-all}
use rrrr.Router.Search.Invariant.Sets.{bitset_set-IsSized}

-- Not on board, or on board since a service day.
abbrev pub IsAboard : Ride → Type 0
IsAboard ride = (ride.trip ≡ no_index) ⊎ ((day : ServiceDay) × (ride.board_serviceday ≡ some day))

and_left : (a b : Bool) → (a && b) ≡ true → a ≡ true
and_left a b h = ground arith

and_right : (a b : Bool) → (a && b) ≡ true → b ≡ true
and_right a b h = ground arith

accepted :
    (arrive : Bool) (start time : ℕ)
    → not (ltb rtime_three_days time) ≡ true
    → not (if arrive then ltb start time else ltb time start) ≡ true
    → (time ≤ rtime_three_days) × NoWorse arrive start time
accepted true start time h k = ground arith
accepted false start time h k = ground arith

or_false : (a b : Bool) → (a || b) ≡ false → a ≡ false
or_false a b h = ground arith

module _ {F : Type 0} (td : Tdata) (req : RouterRequest F) (round route_idx : ℕ)
    (wf : IsWellFormed td) (round_lt : round < rrrr_max_rounds) where
  hard_ban-IsAboard :
      (n stop : ℕ) (ride : Ride)
      → IsAboard ride
      → IsAboard (hard_ban td req round route_idx n stop ride)
  unfolding hard_ban
  hard_ban-IsAboard zero stop ride h = h
  hard_ban-IsAboard (suc n) stop ride h = hard_ban-IsAboard n stop _ (
      if_all IsAboard (stop == req.banned_stop_hard) (record ride { trip = no_index }) ride
        (inl refl) h)

  ride_time-total :
      (route_stop : ℕ) (arrive : Bool) (ride : Ride)
      → IsAboard ride
      → (ride.trip == no_index) ≡ false
      → Ensures (λ _. Unit) (ride_time td req round route_idx route_stop arrive ride)
  unfolding ride_time
  ride_time-total route_stop arrive ride (inl e) p = absurd (ground arith)
  ride_time-total route_stop arrive ride (inr (day, e)) p = rw (e, Ensures) tt

  attempt_board-total :
      (route_stop stop prev_time : ℕ) (ride : Ride)
      → IsAboard ride
      → Ensures (λ _. Unit) (attempt_board td req round route_idx route_stop stop prev_time ride)
  unfolding attempt_board
  attempt_board-total route_stop stop prev_time ride h =
      Ensures-if _ (prev_time == unreached) _ _ (λ _. tt)
        (λ _.
          Ensures-if _ (ride.trip == no_index || req.via == stop) _ _ (λ _. tt)
            (λ p.
              Ensures-if _ (not (req.via == no_index) && req.via == ride.board_stop) _ _ (λ _. tt)
                (λ _.
                  Ensures-bind (λ _. Unit) (λ _. Unit) _ _
                    (ride_time-total route_stop req.arrive_by ride h (or_false _ _ p))
                    (λ _ _. tt))))

  board-IsAboard :
      (stop : ℕ) (best : Best) (ride : Ride)
      → IsAboard ride
      → (best ≡ start_best req.arrive_by) ⊎ ((day : ServiceDay) × (best.serviceday ≡ some day))
      → IsAboard (board td req round route_idx stop best ride)
  unfolding board
  board-IsAboard stop best ride h found = elim (Bool-cases (best.trip == no_index)) [
    | inl p ↦ subst IsAboard (sym (ap (λ (b : Bool). if b then ride else boarded) p)) h
    | inr p ↦ elim found [
      | inl e ↦ absurd (ground (arith, ap (λ (b : Best). b.trip) e))
      | inr d ↦
          if_all IsAboard (best.trip == no_index) ride boarded h
            (if_all IsAboard _ ride _ h (inr d))
    ]
  ]
    where
      boarded : Ride
      boarded =
          if (if req.arrive_by then ltb req.time best.time else ltb best.time req.time)
            && not (req.from == onboard)
          then ride
          else record {
            trip = best.trip;
            board_stop = stop;
            board_time = best.time;
            board_serviceday = best.serviceday;
          }

  accepts-Window :
      (r : Router) (stop time : ℕ)
      → accepts td req round route_idx r stop time ≡ true
      → Window req time
  unfolding accepts
  accepts-Window r stop time h =
      inr (accepted _ _ _ (and_right _ _ (and_left _ _ h)) (and_right _ _ h))

  alight-Inv :
      (r : Router) (stop time : ℕ) (ride : Ride)
      → stop < td.n_stops
      → Window req time
      → Inv td req r
      → Ensures (Inv td req) (alight td req round route_idx r stop time ride)
  unfolding alight
  alight-Inv r stop time ride lt w inv =
      Ensures-bind (IsSized td.n_stops) (Inv td req) _ _
        (bitset_set-IsSized td.n_stops r.updated_stops stop inv.stops lt)
        λ bs sized. record {
          stops = sized;
          routes = inv.routes;
          origin = inv.origin;
          best = λ s ls. update-all (Window req) r.best_time stop s time w (inv.best s ls);
          states = λ k s lk ls.
              set_state-all (StateIn req) r.states round stop k s _
                (w, (inv.states round stop round_lt lt).1) (inv.states k s lk ls);
        }

  abbrev Visiting : Router × Ride → Type 0
  Visiting s = Inv td req s.0 × IsAboard s.1

  stay-Visiting :
      (route_stop stop : ℕ) (r : Router) (ride : Ride)
      → stop < td.n_stops
      → Inv td req r
      → IsAboard ride
      → Ensures Visiting (stay td req round route_idx route_stop stop r ride)
  unfolding stay
  stay-Visiting route_stop stop r ride lt inv h =
      Ensures-if Visiting (ride.trip == no_index) _ _ (λ _. (inv, h))
        λ p.
          Ensures-bind (λ _. Unit) Visiting _ _
            (ride_time-total route_stop (not req.arrive_by) ride h p)
            λ time _.
              Ensures-bind (Inv td req) Visiting _ _
                (Ensures-if (Inv td req) (accepts td req round route_idx r stop time) _ _
                  (λ a. alight-Inv r stop time ride lt (accepts-Window r stop time a) inv)
                  (λ _. inv))
                (λ r' inv'. (inv', h))

  at_stop-Visiting :
      (route : Route) (route_stop stop prev_time : ℕ) (r : Router) (ride : Ride) (attempt : Bool)
      → stop < td.n_stops
      → Inv td req r
      → IsAboard ride
      → Ensures Visiting
          (at_stop td req round route_idx route route_stop stop prev_time r ride attempt)
  unfolding at_stop
  at_stop-Visiting route route_stop stop prev_time r ride attempt lt inv h =
      Ensures-if Visiting (forbidden td req round route_idx route_stop attempt ride) _ _
        (λ _. (inv, h))
        λ _.
          Ensures-if Visiting attempt _ _
            (λ _. (
              inv,
              board-IsAboard stop
                  (find_trip td req route_idx route_stop prev_time route r.serviceday0 r.serviceday1
                    r.serviceday2)
                  ride h
                  (found (
                    find_trip-IsOption td req route_idx route_stop prev_time route r.serviceday0
                      r.serviceday1 r.serviceday2)),
            ))
            (λ _. stay-Visiting route_stop stop r ride lt inv h)
    where
      found :
          {n : ℕ} {best : Best}
          → IsOption td req route_idx route_stop prev_time n best
          → (best ≡ start_best req.arrive_by) ⊎ ((day : ServiceDay) × (best.serviceday ≡ some day))
      found (inl e) = inl e
      found (inr d) = inr (d.0, d.1)

  visit_stop-Visiting :
      (route : Route) (route_stop : ℕ) (s : Router × Ride)
      → Visiting s
      → Ensures Visiting (visit_stop td req round route_idx route route_stop s)
  unfolding visit_stop
  visit_stop-Visiting route route_stop (r, ride) (inv, h) =
      let stop = tdata_stops_for_route td route_idx route_stop in
      let ride' = hard_ban td req round route_idx req.n_banned_stops_hard stop ride in
      let h' : IsAboard ride' = hard_ban-IsAboard req.n_banned_stops_hard stop ride h in
      Ensures-bind (λ _. Unit) Visiting _ _ (attempt_board-total route_stop stop _ ride' h')
        λ attempt _.
          at_stop-Visiting route route_stop stop _ r ride' attempt (wf.route_stops_lt _) inv h'

  pub ride_route-Inv :
      (r : Router) → Inv td req r → Ensures (Inv td req) (ride_route td req round route_idx r)
  unfolding ride_route
  ride_route-Inv r inv = drop_ride _ (
      Ensures-for_each Visiting (visit_stop td req round route_idx (td.routes route_idx))
        (visit_stop-Visiting (td.routes route_idx))
        (route_stops_in_order td req round route_idx (td.routes route_idx)) (r, start_ride)
        (inv, inl refl))
    where
      drop_ride :
          (o : Option (Router × Ride))
          → Ensures Visiting o
          → Ensures (Inv td req) (map_option (λ s. s.0) o)
      drop_ride none h = h
      drop_ride (some s) h = h.0
