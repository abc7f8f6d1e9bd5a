-- ===== src/Router/Plan/Journey/Itineraries.antt =====
-- The itineraries that `router_result_to_plan` builds.
use rrrr.Prelude.{
  ℕ, zero, suc, ◌+◌, ◌-◌, ◌*◌, ◌≤◌, ◌<◌, ◌≡◌, ◌≢◌, refl, sym, subst, Bool, true, false, ◌==◌,
  if◌then◌else◌, range_from, down_from, update, update_self, update_ne, arith, ==_iff, Bool-cases,
  inl, inr,
}
use rrrr.Rtime.{no_index, unreached}
use rrrr.Tdata.{Tdata}
use rrrr.Router.{Router, RouterRequest, rrrr_max_rounds}
use rrrr.Router.Plan.{
  Leg, Itinerary, Plan, Trace, directed, follow, origin_leg, first_leg, target_stop, itinerary_with,
  add_itineraries, router_result_to_plan,
}
use rrrr.Router.Plan.Journey.{IsJourney, IsTraced, Covers, At, follow-Covers, last-IsJourney}

module _ {F : Type 0} (td : Tdata) (walk_sec : F → ℕ → ℕ → ℕ) (req : RouterRequest F) where
  -- The itinerary has a leg more than twice its rides, and leads from the one end of the request
  -- to the other.
  abbrev pub Connects : Itinerary → Type 0
  Connects itin =
      (itin.n_legs ≡ 2 * itin.n_rides + 1) × IsJourney req.from req.to itin.n_legs itin.legs

  start-Covers :
      (arrive : Bool) (x : ℕ) (stop : ℕ) (legs : ℕ → Leg)
      → let n = (x + 1) * 2 + 1 in
        let c : Trace = record { legs = legs; l = if arrive then 0 else n - 1; stop = stop } in
        At arrive n (x + 1) c.l × Covers arrive n stop c
  start-Covers true x stop legs =
      (omega arith, (λ i. stop, refl, refl, λ i lo hi. absurd (omega arith)))
  start-Covers false x stop legs =
      ((omega arith, omega arith), (λ i. stop, refl, refl, λ i lo hi. absurd (omega arith)))

  ends_lem :
      (arrive : Bool) (n : ℕ) (legs : ℕ → Leg)
      → let target = if arrive then req.from else req.to in
        let origin = if arrive then req.to else req.from in
        IsJourney (if arrive then target else origin) (if arrive then origin else target) n legs
        → IsJourney req.from req.to n legs
  ends_lem true n legs j = j
  ends_lem false n legs j = j

  first_leg_lem :
      (router : Router) (c : Trace)
      → req.start_trip_trip ≡ no_index
      → first_leg td walk_sec req router c
        ≡ update c.legs c.l (directed req.arrive_by (origin_leg td walk_sec req router c.stop))
  first_leg_lem router c off = rw off refl

  itinerary_with-Connects :
      (router : Router) (x : ℕ) (legs : ℕ → Leg)
      → req.start_trip_trip ≡ no_index
      → IsTraced td.n_stops router (down_from (x + 1)) (target_stop req)
      → Connects (itinerary_with td walk_sec req router x legs)
  unfolding itinerary_with
  itinerary_with-Connects router x legs off traced =
      let n = (x + 1) * 2 + 1 in
      let stop = target_stop req in
      let start : Trace = record {
        legs = legs;
        l = if req.arrive_by then 0 else n - 1;
        stop = stop;
      } in
      let begun = start-Covers req.arrive_by x stop legs in
      let c = follow td.n_stops router req.arrive_by (down_from (x + 1)) start in
      let done =
        follow-Covers td.n_stops router req.arrive_by n stop (x + 1) start (omega arith) traced
          begun.0 begun.1 in
      let leg = origin_leg td walk_sec req router c.stop in
      let journey =
        ends_lem req.arrive_by n (update c.legs c.l (directed req.arrive_by leg))
          (last-IsJourney req.arrive_by n stop leg c refl refl done.0 done.1) in
      (omega arith, subst (IsJourney req.from req.to n) (sym (first_leg_lem router c off)) journey)

  -- An itinerary connects the ends of the request, and has from 1 to `hi` rides, more than those
  -- before it.
  abbrev pub IsEntry : ℕ → (ℕ → Itinerary) → ℕ → Type 0
  IsEntry hi f k =
      Connects (f k)
      × (0 < (f k).n_rides)
      × ((f k).n_rides ≤ hi)
      × ((j : ℕ) → j < k → (f j).n_rides < (f k).n_rides)

  abbrev pub IsPlan : ℕ → Plan F → Type 0
  IsPlan hi plan = (k : ℕ) → k < plan.n_itineraries → IsEntry hi plan.itineraries k

  IsEntry-self :
      (f : ℕ → Itinerary) (n x : ℕ) (v : Itinerary)
      → Connects v
      → v.n_rides ≡ x + 1
      → ((k : ℕ) → k < n → IsEntry x f k)
      → IsEntry (x + 1) (update f n v) n
  IsEntry-self f n x v con rides h = rw (update_self f n v) (
    con,
    omega arith,
    omega arith,
    λ j lt.
        let e = h j lt in
        rw (update_ne f n j v (λ q. absurd (omega arith))) (omega (arith, e.2, rides)),
  )

  IsEntry-ne :
      (f : ℕ → Itinerary) (n x k : ℕ) (v : Itinerary)
      → k < n
      → IsEntry x f k
      → IsEntry (x + 1) (update f n v) k
  IsEntry-ne f n x k v lt (a, b, c, d) =
      rw (update_ne f n k v (λ q. absurd (omega arith)))
        (a, b, omega arith, λ j up. rw (update_ne f n j v (λ q. absurd (omega arith))) (d j up))

  abbrev pub add : Router → ℕ → Plan F → Plan F
  add router x plan = record plan {
    n_itineraries = plan.n_itineraries + 1;
    itineraries =
        update plan.itineraries plan.n_itineraries
          (itinerary_with td walk_sec req router x (plan.itineraries plan.n_itineraries).legs);
  }

  IsPlan-later : (hi : ℕ) (plan : Plan F) → IsPlan hi plan → IsPlan (hi + 1) plan
  IsPlan-later hi plan h k lt = let (a, b, c, d) = h k lt in (a, b, omega arith, d)

  itinerary_with-n_rides :
      (router : Router) (x : ℕ) (legs : ℕ → Leg)
      → (itinerary_with td walk_sec req router x legs).n_rides ≡ x + 1
  unfolding itinerary_with
  itinerary_with-n_rides router x legs = refl

  IsPlan-add :
      (router : Router) (x : ℕ) (plan : Plan F)
      → Connects
          (itinerary_with td walk_sec req router x (plan.itineraries plan.n_itineraries).legs)
      → IsPlan x plan
      → IsPlan (x + 1) (add router x plan)
  IsPlan-add router x plan con h k lt =
      let n = plan.n_itineraries in
      let f = plan.itineraries in
      let v = itinerary_with td walk_sec req router x (f n).legs in
      elim (Bool-cases (k == n)) [
        | inl q ↦
            subst (IsEntry (x + 1) (update f n v)) (sym ((==_iff k n).0 q))
              (IsEntry-self f n x v con (itinerary_with-n_rides router x (f n).legs) h)
        | inr q ↦ let below : k < n = ground arith in IsEntry-ne f n x k v below (h k below)
      ]

  -- Every round from `i` on that reached the target can be traced back.
  abbrev pub AreTraced : Router → ℕ → ℕ → Type 0
  AreTraced router i hi =
      (x : ℕ)
      → i ≤ x
      → x < hi
      → (router.states x (target_stop req)).walk_time ≢ unreached
      → IsTraced td.n_stops router (down_from (x + 1)) (target_stop req)

  add_itineraries-IsPlan :
      (router : Router) (m i hi : ℕ) (plan : Plan F)
      → req.start_trip_trip ≡ no_index
      → i + m ≡ hi
      → AreTraced router i hi
      → IsPlan i plan
      → IsPlan hi (add_itineraries td walk_sec req router (range_from i m) plan)
  unfolding add_itineraries
  add_itineraries-IsPlan router zero i hi plan off e traced h =
      subst (λ n. IsPlan n plan) (omega arith) h
  add_itineraries-IsPlan router (suc m) i hi plan off e traced h =
      elim (Bool-cases ((router.states i (target_stop req)).walk_time == unreached)) [
        | inl q ↦ rw q (
            add_itineraries-IsPlan router m (i + 1) hi plan off (omega arith) traced'
              (IsPlan-later i plan h))
        | inr q ↦ rw q (
            add_itineraries-IsPlan router m (i + 1) hi (add router i plan) off (omega arith) traced'
              (IsPlan-add router i plan
                (itinerary_with-Connects router i (plan.itineraries plan.n_itineraries).legs off
                  (traced i (omega arith) (omega arith) (ground arith)))
                h))
      ]
    where
      traced' : AreTraced router (i + 1) hi
      traced' x lo up reached = traced x (omega arith) up reached

  -- Each itinerary of the plan of a search that does not start on board has legs that lead from
  -- the request's origin to its destination, each from the stop where the one before it ends, with
  -- walks at the even places and a leg more than twice its rides; it has from one to six rides, and
  -- more of them than every itinerary before it. The condition is that every round that reached the
  -- stop the search was for can be traced back to the origin, through stops in range and states
  -- that were reached.
  pub router_result_to_plan-IsEntry :
      (plan : Plan F) (router : Router) (k : ℕ)
      → req.start_trip_trip ≡ no_index
      → AreTraced router 0 rrrr_max_rounds
      → k < (router_result_to_plan td walk_sec req plan router).n_itineraries
      → IsEntry rrrr_max_rounds (router_result_to_plan td walk_sec req plan router).itineraries k
  unfolding router_result_to_plan
  router_result_to_plan-IsEntry plan router k off traced lt =
      add_itineraries-IsPlan router rrrr_max_rounds 0 rrrr_max_rounds
        (record plan { req = req; n_itineraries = 0 }) off refl traced
        (λ j up. absurd (omega arith)) k lt
