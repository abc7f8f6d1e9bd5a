-- ===== src/Router/Plan/Traced.antt =====
-- A search and its plan together: `router_route`, then `router_result_to_plan`.
use rrrr.Prelude.{
  ℕ, zero, suc, ◌+◌, ◌-◌, ◌^◌, ◌<◌, ◌≡◌, ◌∙◌, refl, sym, subst, Bool, true, some, arith, ltb,
  if◌then◌else◌, inl, inr, Bool-cases, lt→ltb, down_from, if_all,
}
use rrrr.Prelude.Effects.{Holds}
use rrrr.Rtime.{no_index}
use rrrr.Tdata.{Tdata}
use rrrr.Router.{Router, RouterRequest, rrrr_max_rounds}
use rrrr.Router.Search.{set_servicedays, clear, n_rounds, search_from, router_route}
use rrrr.Router.Search.Invariant.{IsWellFormed, InRange}
use rrrr.Router.Search.Reached.{IsScratch, route-at_stop, router_route-IsInWindow}
use rrrr.Router.Search.Trace.{WasReached, Linked, Fresh, Searching}
use rrrr.Router.Search.Trace.Start.{search_from-Searching}
use rrrr.Router.Plan.{Plan, target_stop, router_result_to_plan}
use rrrr.Router.Plan.Journey.{IsTraced}
use rrrr.Router.Plan.Journey.Itineraries.{AreTraced, IsEntry, router_result_to_plan-IsEntry}

-- Linked rows can be followed back to the first.
Linked-IsTraced :
    (n : ℕ) (r : Router) (k stop : ℕ)
    → ((j : ℕ) → j < k → Linked n r.states j)
    → stop < n
    → WasReached r.states k stop
    → IsTraced n r (down_from k) stop
Linked-IsTraced n r zero stop linked lt reached = tt
Linked-IsTraced n r (suc k) stop linked lt reached =
    let (late, back, was) = linked k (omega arith) stop lt reached in
    (omega arith, reached, late, Linked-IsTraced n r k _ (λ j up. linked j (omega arith)) back was)

module _ {F : Type 0} (td : Tdata) (walk_sec : F → ℕ → ℕ → ℕ) (past : ℕ → ℕ)
    (req : RouterRequest F) where
  Searching-AreTraced :
      (origin n : ℕ) (r : Router)
      → 0 < n
      → target_stop req < td.n_stops
      → Searching td origin n r
      → AreTraced td walk_sec req r 0 rrrr_max_rounds
  Searching-AreTraced origin n r some_round lt s x lo hi reached = elim (Bool-cases (ltb x n)) [
    | inl q ↦
        let next : suc x ≡ x + 1 = omega arith in
        subst (λ k. IsTraced td.n_stops r (down_from k) (target_stop req)) next
          (Linked-IsTraced td.n_stops r (suc x) (target_stop req)
            (λ j up. s.linked j (ground arith)) lt reached)
    | inr q ↦ elim (s.fresh x (target_stop req) (ground arith) hi lt) [
      | inl e ↦ absurd (reached e)
      | inr e ↦ absurd (omega (arith, e.0))
    ]
  ]

  clear-Fresh : (r : Router) (origin : ℕ) → Fresh td origin 0 (clear td walk_sec past req r).states
  unfolding clear
  clear-Fresh r origin j s le lj ls = rw (lt→ltb j 6 lj, lt→ltb s td.n_stops ls) (inl refl)

  searched :
      (now : ℕ) (r : Router)
      → IsWellFormed td
      → InRange td req
      → IsScratch td r
      → let origin = if req.arrive_by then req.to else req.from in
        Holds
          (λ result. Searching td origin (n_rounds td walk_sec past req) result.2)
          (search_from td walk_sec past req
            (clear td walk_sec past req (set_servicedays td walk_sec past req now r)))
  unfolding set_servicedays clear
  searched now r wf ok scratch =
      let origin = if req.arrive_by then req.to else req.from in
      let begun = clear td walk_sec past req (set_servicedays td walk_sec past req now r) in
      search_from-Searching td walk_sec past req wf origin begun
        (ground (arith, ok.from_lt, wf.few_stops)) scratch.stops refl
        (clear-Fresh (set_servicedays td walk_sec past req now r) origin)

-- On a well-formed timetable, with a scratch space of its size and a request in range that does not
-- begin on board and asks for fewer than 2^32 - 1 transfers, `router_route` succeeds, and each
-- itinerary of the plan that `router_result_to_plan` makes of what it leaves has legs that lead
-- from the request's origin to its destination, each from the stop where the one before it ends,
-- with walks at the even places and a leg more than twice its rides; it has from one to six rides,
-- and more of them than every itinerary before it.
pub router_result_to_plan-router_route :
    {F : Type 0} (td : Tdata) (walk_sec : F → ℕ → ℕ → ℕ) (past : ℕ → ℕ) (req : RouterRequest F)
    (now : ℕ) (r : Router) (plan : Plan F)
    → IsWellFormed td
    → InRange td req
    → IsScratch td r
    → req.start_trip_trip ≡ no_index
    → req.max_transfers < 2 ^ 32 - 1
    → (r' : Router) × (router_route td walk_sec past now req r ≡ some (true, req, r'))
      × ((k : ℕ)
          → k < (router_result_to_plan td walk_sec req plan r').n_itineraries
          → IsEntry td walk_sec req rrrr_max_rounds
              (router_result_to_plan td walk_sec req plan r').itineraries
              k)
router_result_to_plan-router_route {F} td walk_sec past req now r plan wf ok scratch at_stop few =
    let (r', e, _) = router_route-IsInWindow td walk_sec past req now r wf ok scratch at_stop in
    let origin = if req.arrive_by then req.to else req.from in
    let s : Searching td origin (n_rounds td walk_sec past req) r' =
      subst
        (Holds (λ (result : Bool × RouterRequest F × Router).
          Searching td origin (n_rounds td walk_sec past req) result.2))
        (sym (route-at_stop td walk_sec past req now r at_stop) ∙ e)
        (searched td walk_sec past req now r wf ok scratch) in
    (
      r',
      e,
      λ k lt.
          router_result_to_plan-IsEntry td walk_sec req plan r' k at_stop
            (Searching-AreTraced td walk_sec past req origin (n_rounds td walk_sec past req) r'
              (ground arith)
              (if_all (λ t. t < td.n_stops) req.arrive_by req.from req.to ok.from_lt ok.to_lt) s)
            lt,
    )
