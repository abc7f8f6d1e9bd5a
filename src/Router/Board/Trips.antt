-- ===== src/Router/Board/Trips.antt =====
-- The rides of one day that a search for a trip considers.
use rrrr.Prelude.{
  ℕ, ◌+◌, ◌≤◌, ◌<◌, ◌≡◌, ◌≢◌, ◌⊎◌, refl, true, some, List, [], ◌∷◌, ◌==◌, ◌&&◌, range_from, zero,
  suc, arith, inl, inr, Bool-cases, ==_iff, ap, ◌∙◌,
}
use rrrr.Rtime.{unreached}
use rrrr.Tdata.{Tdata}
use rrrr.Router.{ServiceDay, RouterRequest}
use rrrr.Router.Board.{Best, start_best, banned_trips, can_run, time_of, consider_trip, scan_trips}
use rrrr.Router.Board.Order.{
  NoWorse, NoWorse-refl, trans-NoWorse, pick, pick-improves, pick-covers, pick-cases,
}

module _ {F : Type 0} (td : Tdata) (req : RouterRequest F)
    (route_idx route_stop prev_time : ℕ) where
  -- A ride that may be boarded: the trip runs on the day and leaves the stop (or reaches it, in
  -- an arrive-by search) on the right side of the time at which one is there.
  pub record Eligible (day : ServiceDay) (trip : ℕ) : Type 0 where
    pub runs : can_run td req route_idx route_stop prev_time day trip ≡ true
    pub reached : time_of td req route_idx route_stop prev_time day trip ≢ unreached
    pub catches :
        NoWorse req.arrive_by prev_time (time_of td req route_idx route_stop prev_time day trip)

  pub banned_trips_lem :
      (n trip : ℕ) (best : Best)
      → banned_trips td req route_idx route_stop prev_time n trip best ≡ best
  unfolding banned_trips
  banned_trips_lem zero trip best = refl
  banned_trips_lem (suc n) trip best =
      elim (Bool-cases (route_idx == req.banned_trip_route && trip == req.banned_trip_offset)) [
        | inl p ↦ rw p (banned_trips_lem n trip best)
        | inr p ↦ rw p (banned_trips_lem n trip best)
      ]

  -- Nothing found, or an eligible ride of one of the first `n` trips.
  abbrev pub IsOption : ℕ → Best → Type 0
  IsOption n best =
      (best ≡ start_best req.arrive_by)
      ⊎ ((day : ServiceDay) × (best.serviceday ≡ some day)
          × (best.trip < n)
          × Eligible day best.trip
          × (best.time ≡ time_of td req route_idx route_stop prev_time day best.trip))

  abbrev option : ServiceDay → ℕ → Best
  option day t = record {
    trip = t;
    time = time_of td req route_idx route_stop prev_time day t;
    serviceday = some day;
  }

  consider_trip-eq-pick :
      (day : ServiceDay) (t : ℕ) (best : Best)
      → consider_trip td req route_idx route_stop prev_time day t best
        ≡ pick
            (can_run td req route_idx route_stop prev_time day t)
            req.arrive_by
            prev_time
            (option day t)
            best
  unfolding consider_trip pick
  consider_trip-eq-pick day t best = rw (banned_trips_lem req.n_banned_trips t best)

  consider_trip-improves :
      (day : ServiceDay) (t : ℕ) (best : Best)
      → NoWorse req.arrive_by
          (consider_trip td req route_idx route_stop prev_time day t best).time
          best.time
  consider_trip-improves day t best =
      rw (consider_trip-eq-pick day t best) (pick-improves _ _ _ _ _)

  consider_trip-covers :
      (day : ServiceDay) (t : ℕ) (best : Best)
      → Eligible day t
      → NoWorse req.arrive_by
          (consider_trip td req route_idx route_stop prev_time day t best).time
          (time_of td req route_idx route_stop prev_time day t)
  consider_trip-covers day t best e =
      rw (consider_trip-eq-pick day t best, e.runs)
        (pick-covers req.arrive_by prev_time (option day t) best e.reached e.catches)

  consider_trip-IsOption :
      (n : ℕ) (day : ServiceDay) (t : ℕ) (best : Best)
      → t < n
      → IsOption n best
      → IsOption n (consider_trip td req route_idx route_stop prev_time day t best)
  consider_trip-IsOption n day t best lt h =
      rw (consider_trip-eq-pick day t best)
        (elim (pick-cases (can_run td req route_idx route_stop prev_time day t) req.arrive_by
          prev_time (option day t) best) [
            | inl same ↦ rw same h
            | inr new ↦ rw new.0 (
                inr
                  (day, refl, lt, record { runs = new.1; reached = new.2; catches = new.3 }, refl))
          ])

  pub NoWorse-trans :
      (a b c : ℕ)
      → NoWorse req.arrive_by a b
      → NoWorse req.arrive_by b c
      → NoWorse req.arrive_by a c
  NoWorse-trans a b c h k = trans-NoWorse req.arrive_by a b c h k

  pub scan_trips-improves :
      (day : ServiceDay) (trips : List ℕ) (best : Best)
      → NoWorse req.arrive_by
          (scan_trips td req route_idx route_stop prev_time day trips best).time
          best.time
  unfolding scan_trips
  scan_trips-improves day [] best = NoWorse-refl req.arrive_by best.time
  scan_trips-improves day (t ∷ trips) best =
      NoWorse-trans _ _ _
        (scan_trips-improves day trips
          (consider_trip td req route_idx route_stop prev_time day t best))
        (consider_trip-improves day t best)

  -- The best after a scan is at least as good as every eligible trip of the day.
  pub scan_trips-covers :
      (day : ServiceDay) (n i t : ℕ) (best : Best)
      → i ≤ t
      → t < i + n
      → Eligible day t
      → NoWorse req.arrive_by
          (scan_trips td req route_idx route_stop prev_time day (range_from i n) best).time
          (time_of td req route_idx route_stop prev_time day t)
  unfolding scan_trips
  scan_trips-covers day zero i t best lo hi e = absurd (omega arith)
  scan_trips-covers day (suc n) i t best lo hi e =
      let best' = consider_trip td req route_idx route_stop prev_time day i best in
      elim (Bool-cases (i == t)) [
        | inl p ↦
            let q : i ≡ t = (==_iff i t).0 p in
            NoWorse-trans _ _ _ (scan_trips-improves day (range_from (i + 1) n) best')
              (rw (← q) (consider_trip-covers day i best (rw q e)))
        | inr p ↦ scan_trips-covers day n (i + 1) t best' (ground arith) (omega arith) e
      ]

  pub scan_trips-IsOption :
      (m n : ℕ) (day : ServiceDay) (i : ℕ) (best : Best)
      → i + n ≤ m
      → IsOption m best
      → IsOption m (scan_trips td req route_idx route_stop prev_time day (range_from i n) best)
  unfolding scan_trips
  scan_trips-IsOption m zero day i best le h = h
  scan_trips-IsOption m (suc n) day i best le h =
      scan_trips-IsOption m n day (i + 1) _ (omega arith)
        (consider_trip-IsOption m day i best (omega arith) h)

  pub scan_trips-cases :
      (m n : ℕ) (day : ServiceDay) (i : ℕ) (best : Best)
      → i + n ≤ m
      → (scan_trips td req route_idx route_stop prev_time day (range_from i n) best ≡ best)
        ⊎ ((t : ℕ) × (t < m)
            × Eligible day t
            × ((scan_trips td req route_idx route_stop prev_time day (range_from i n) best).time
                ≡ time_of td req route_idx route_stop prev_time day t))
  unfolding scan_trips
  scan_trips-cases m zero day i best le = inl refl
  scan_trips-cases m (suc n) day i best le =
      elim (scan_trips-cases m n day (i + 1)
        (consider_trip td req route_idx route_stop prev_time day i best) (omega arith)) [
          | inr later ↦ inr later
          | inl kept ↦
              elim (pick-cases (can_run td req route_idx route_stop prev_time day i) req.arrive_by
                prev_time (option day i) best) [
                  | inl same ↦ inl (kept ∙ consider_trip-eq-pick day i best ∙ same)
                  | inr new ↦ inr (
                    i,
                    omega arith,
                    record { runs = new.1; reached = new.2; catches = new.3 },
                    ap (λ (b : Best). b.time) (kept ∙ consider_trip-eq-pick day i best ∙ new.0),
                  )
                ]
        ]
