-- ===== src/Router/Board/Optimal.antt =====
-- The search for a trip to board finds the best one, and its early exit loses nothing.
use rrrr.Prelude.{
  ℕ, ◌+◌, ◌≤◌, ◌<◌, ◌≡◌, ◌⊎◌, refl, true, false, List, [], ◌∷◌, ◌==◌, not, ◌&&◌, if◌then◌else◌,
  range_from, arith, inl, inr, Bool-cases, ==_iff, sym, subst, All,
}
use rrrr.Rtime.{no_index}
use rrrr.Tdata.{Tdata, Route}
use rrrr.Router.{ServiceDay, RouterRequest}
use rrrr.Router.Board.{
  Best, start_best, time_of, scan_trips, out_of_day, route_overlap, scan_days, find_trip,
}
use rrrr.Router.Board.Order.{
  NoWorse, NoWorse-refl, All-map₂, exit_absurd, NoWorse-edge, out_of_day-absurd, After, After-edge,
}
use rrrr.Router.Board.Trips.{
  Eligible, IsOption, NoWorse-trans, scan_trips-improves, scan_trips-covers, scan_trips-IsOption,
  scan_trips-cases,
}

module _ {F : Type 0} (td : Tdata) (req : RouterRequest F)
    (route_idx route_stop prev_time : ℕ) where
  scan_days-improves :
      (route : Route) (days : List ServiceDay) (best : Best)
      → NoWorse req.arrive_by
          (scan_days td req route_idx route_stop prev_time route days best).time
          best.time
  unfolding scan_days
  scan_days-improves route [] best = NoWorse-refl req.arrive_by best.time
  scan_days-improves route (day ∷ days) best =
      elim (Bool-cases (out_of_day td req route_idx route_stop prev_time route day)) [
        | inl p ↦ rw p (scan_days-improves route days best)
        | inr p ↦
            elim (Bool-cases (
              not (best.trip == no_index)
              && not (route_overlap td req route_idx route_stop prev_time route))) [
                | inl q ↦ rw (p, q) (NoWorse-refl req.arrive_by best.time)
                | inr q ↦
                    rw (p, q)
                      (NoWorse-trans td req route_idx route_stop prev_time _ _ _
                        (scan_days-improves route days _)
                        (scan_trips-improves td req route_idx route_stop prev_time day
                          (range_from 0 route.n_trips) best))
              ]
      ]

  scan_days-IsOption :
      (route : Route) (days : List ServiceDay) (best : Best)
      → IsOption td req route_idx route_stop prev_time route.n_trips best
      → IsOption td req route_idx route_stop prev_time route.n_trips
          (scan_days td req route_idx route_stop prev_time route days best)
  unfolding scan_days
  scan_days-IsOption route [] best h = h
  scan_days-IsOption route (day ∷ days) best h =
      elim (Bool-cases (out_of_day td req route_idx route_stop prev_time route day)) [
        | inl p ↦ rw p (scan_days-IsOption route days best h)
        | inr p ↦
            elim (Bool-cases (
              not (best.trip == no_index)
              && not (route_overlap td req route_idx route_stop prev_time route))) [
                | inl q ↦ rw (p, q) h
                | inr q ↦
                    rw (p, q)
                      (scan_days-IsOption route days _ (
                        scan_trips-IsOption td req route_idx route_stop prev_time route.n_trips
                          route.n_trips day 0 best (omega arith) h))
              ]
      ]

  module _ (route : Route) where
    -- What `min_time` and `max_time` of a route promise: every trip that can be boarded on the day
    -- calls at the stop within them.
    abbrev pub InBounds : ServiceDay → Type 0
    InBounds day =
        (t : ℕ)
        → t < route.n_trips
        → Eligible td req route_idx route_stop prev_time day t
        → (day.midnight + route.min_time ≤ time_of td req route_idx route_stop prev_time day t)
          × (time_of td req route_idx route_stop prev_time day t ≤ day.midnight + route.max_time)

    -- `time` is at least as good as every ride of the day that may be boarded.
    abbrev pub Beats : ℕ → ServiceDay → Type 0
    Beats time day =
        (t : ℕ)
        → t < route.n_trips
        → Eligible td req route_idx route_stop prev_time day t
        → NoWorse req.arrive_by time (time_of td req route_idx route_stop prev_time day t)

    edge : ServiceDay → ℕ
    edge day = day.midnight + (if req.arrive_by then route.max_time else route.min_time)

    edge-Beats : (day : ServiceDay) → InBounds day → Beats (edge day) day
    unfolding edge
    edge-Beats day b t lt e = NoWorse-edge req.arrive_by _ _ _ _ (b t lt e)

    out_of_day-Beats :
        (day : ServiceDay) (time : ℕ)
        → out_of_day td req route_idx route_stop prev_time route day ≡ true
        → InBounds day
        → Beats time day
    out_of_day-Beats day time out b t lt e =
        absurd (out_of_day-absurd req.arrive_by _ _ _ _ _ out (b t lt e) e.catches)

    -- Nothing is found yet, or days overlap, or what is found comes before all of the day.
    abbrev Settled : Best → ServiceDay → Type 0
    Settled best day =
        (best.trip ≡ no_index)
        ⊎ ((route_overlap td req route_idx route_stop prev_time route ≡ true)
            ⊎ NoWorse req.arrive_by best.time (edge day))

    -- The early exit: what is found and settled beats all that is left.
    exit-Beats :
        (best : Best) (day : ServiceDay)
        → (not (best.trip == no_index)
            && not (route_overlap td req route_idx route_stop prev_time route))
          ≡ true
        → InBounds day
        → Settled best day
        → Beats best.time day
    exit-Beats best day q b (inl s) t lt e =
        absurd (exit_absurd _ _ q (inl ((==_iff best.trip no_index).1 s)))
    exit-Beats best day q b (inr (inl s)) t lt e = absurd (exit_absurd _ _ q (inr s))
    exit-Beats best day q b (inr (inr s)) t lt e =
        NoWorse-trans td req route_idx route_stop prev_time best.time (edge day) _ s
          (edge-Beats day b t lt e)

    -- What a scan of one day finds is settled for the days after it.
    scan_trips-Settled :
        (day next : ServiceDay) (best : Best)
        → After req.arrive_by day next
        → InBounds day
        → Settled best next
        → Settled
            (scan_trips td req route_idx route_stop prev_time day (range_from 0 route.n_trips) best)
            next
    unfolding edge
    scan_trips-Settled day next best after b s =
        elim (scan_trips-cases td req route_idx route_stop prev_time route.n_trips route.n_trips day
          0 best (omega arith)) [
            | inl kept ↦ rw kept s
            | inr new ↦
                let (t, lt, e, time) = new in
                elim (Bool-cases (route_overlap td req route_idx route_stop prev_time route)) [
                  | inl overlap ↦ inr (inl overlap)
                  | inr apart ↦ inr (
                      inr (
                        rw time (
                          After-edge req.arrive_by day next route.min_time route.max_time _ after
                            apart (b t lt e))))
                ]
          ]

    abbrev pub Ordered : List ServiceDay → Type 0
    Ordered [] = Unit
    Ordered (day ∷ days) = All (After req.arrive_by day) days × Ordered days

    module _ (day : ServiceDay) (days : List ServiceDay) (best : Best) where
      abbrev scanned_days : List ServiceDay → Best → Best
      scanned_days = scan_days td req route_idx route_stop prev_time route

      scan_days-skip :
          out_of_day td req route_idx route_stop prev_time route day ≡ true
          → scanned_days (day ∷ days) best ≡ scanned_days days best
      unfolding scan_days
      scan_days-skip p = rw p

      scan_days-stop :
          out_of_day td req route_idx route_stop prev_time route day ≡ false
          → (not (best.trip == no_index)
              && not (route_overlap td req route_idx route_stop prev_time route))
            ≡ true
          → scanned_days (day ∷ days) best ≡ best
      unfolding scan_days
      scan_days-stop p q = rw (p, q)

      scan_days-go :
          out_of_day td req route_idx route_stop prev_time route day ≡ false
          → (not (best.trip == no_index)
              && not (route_overlap td req route_idx route_stop prev_time route))
            ≡ false
          → scanned_days (day ∷ days) best
            ≡ scanned_days days (
                scan_trips td req route_idx route_stop prev_time day
                  (range_from 0 route.n_trips)
                  best)
      unfolding scan_days
      scan_days-go p q = rw (p, q)

    scan_days-Beats :
        (days : List ServiceDay) (best : Best)
        → All InBounds days
        → Ordered days
        → All (Settled best) days
        → All (Beats (scan_days td req route_idx route_stop prev_time route days best).time) days
    scan_days-Beats [] best b o s = tt
    scan_days-Beats (day ∷ days) best b o s =
        let scanned =
          scan_trips td req route_idx route_stop prev_time day (range_from 0 route.n_trips) best in
        let outcome : Best → Type 0 = λ b. All (Beats b.time) (day ∷ days) in
        elim (Bool-cases (out_of_day td req route_idx route_stop prev_time route day)) [
          | inl p ↦
              subst outcome (sym (scan_days-skip day days best p))
                (out_of_day-Beats day _ p b.0, scan_days-Beats days best b.1 o.1 s.1)
          | inr p ↦
              elim (Bool-cases (
                not (best.trip == no_index)
                && not (route_overlap td req route_idx route_stop prev_time route))) [
                  | inl q ↦ subst outcome (sym (scan_days-stop day days best p q)) (
                      All-map₂ InBounds (Settled best) (Beats best.time)
                        (λ d bd sd. exit-Beats best d q bd sd) (day ∷ days) b s)
                  | inr q ↦ subst outcome (sym (scan_days-go day days best p q)) (
                    (λ t lt e.
                        NoWorse-trans td req route_idx route_stop prev_time _ _ _
                          (scan_days-improves route days scanned)
                          (scan_trips-covers td req route_idx route_stop prev_time day route.n_trips
                            0 t best (omega arith) (omega arith) e)),
                    scan_days-Beats days scanned b.1 o.1 (
                        All-map₂ (After req.arrive_by day) (Settled best) (Settled scanned)
                          (λ d ad sd. scan_trips-Settled day d best ad b.0 sd) days o.0 s.1),
                  )
                ]
        ]

  -- In every service-day order of a search (each day a day later, or earlier when arriving by), if
  -- the trips that can be boarded keep within the route's time bounds, then the search for a trip
  -- returns nothing or a ride that can be boarded, and it is at least as good as every ride of the
  -- three days that can be boarded: leaving out days and stopping early loses nothing.
  pub find_trip-optimal :
      (route : Route) (day0 day1 day2 : ServiceDay)
      → All (InBounds route) (day0 ∷ day1 ∷ day2 ∷ [])
      → Ordered route (day0 ∷ day1 ∷ day2 ∷ [])
      → IsOption td req route_idx route_stop prev_time route.n_trips
          (find_trip td req route_idx route_stop prev_time route day0 day1 day2)
        × All
            (Beats route
              (find_trip td req route_idx route_stop prev_time route day0 day1 day2).time)
            (day0 ∷ day1 ∷ day2 ∷ [])
  unfolding find_trip
  find_trip-optimal route day0 day1 day2 b o = (
    scan_days-IsOption route (day0 ∷ day1 ∷ day2 ∷ []) (start_best req.arrive_by) (inl refl),
    scan_days-Beats route (day0 ∷ day1 ∷ day2 ∷ []) (start_best req.arrive_by) b o
        (inl refl, (inl refl, (inl refl, tt))),
  )

  pub find_trip-IsOption :
      (route : Route) (day0 day1 day2 : ServiceDay)
      → IsOption td req route_idx route_stop prev_time route.n_trips
          (find_trip td req route_idx route_stop prev_time route day0 day1 day2)
  unfolding find_trip
  find_trip-IsOption route day0 day1 day2 =
      scan_days-IsOption route (day0 ∷ day1 ∷ day2 ∷ []) (start_best req.arrive_by) (inl refl)
