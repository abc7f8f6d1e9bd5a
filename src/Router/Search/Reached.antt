-- ===== src/Router/Search/Reached.antt =====
-- A search from a stop runs to its end, and leaves only times within its window.
use rrrr.Prelude.{
  ℕ, zero, suc, ◌+◌, ◌≤◌, ◌<◌, ◌≡◌, refl, true, false, some, arith, update-all, inl, inr, ◌==◌,
  ◌&&◌, not, if◌then◌else◌, range_from, All, if_all, lt→ltb, ◌∙◌,
}
use rrrr.Prelude.Effects.{
  for_each, Ensures, Ensures-bind, Ensures-if, Ensures-for_each-All, Ensures-some,
}
use rrrr.Rtime.{no_index, onboard, unreached, agency_unfiltered}
use rrrr.BitSet.{elements}
use rrrr.Tdata.{Tdata}
use rrrr.Router.{Router, RouterRequest, rrrr_max_rounds}
use rrrr.Router.Board.Order.{NoWorse-refl}
use rrrr.Router.Transfers.{unflag_banned_stops, apply_transfers}
use rrrr.Router.Search.{
  round_route, router_round, set_servicedays, clear, origin_states, set_origin, start_at_stop,
  n_rounds, run_rounds, search_from, router_route,
}
use rrrr.Router.Search.Invariant.{
  IsWellFormed, InRange, Window, StateIn, IsSized, Inv, set_state-all,
}
use rrrr.Router.Search.Invariant.Sets.{bitset_set-IsSized, bitset_reset-IsSized}
use rrrr.Router.Search.Invariant.Riding.{ride_route-Inv}
use rrrr.Router.Search.Invariant.Walking.{
  elements-lt, unflag_banned_stops-Inv, apply_transfers-Inv, initialize_transfers-Inv,
}

-- The scratch space of a router for this timetable: its bitsets are valid and large enough.
pub record IsScratch (td : Tdata) (r : Router) : Type 0 where
  pub stops : IsSized td.n_stops r.updated_stops
  pub routes : IsSized td.n_routes r.updated_routes

module _ {F : Type 0} (td : Tdata) (walk_sec : F → ℕ → ℕ → ℕ) (past : ℕ → ℕ) (req : RouterRequest F)
    (wf : IsWellFormed td) (ok : InRange td req) where
  round_route-Inv :
      (round route_idx : ℕ) (r : Router)
      → round < rrrr_max_rounds
      → Inv td req r
      → Ensures (Inv td req) (round_route td walk_sec past req round route_idx r)
  unfolding round_route
  round_route-Inv round route_idx r lt inv =
      Ensures-if (Inv td req)
        (not (req.agency == agency_unfiltered)
          && not (req.agency == (td.routes route_idx).agency_index))
        _ _ (λ _. inv) (λ _. ride_route-Inv td req round route_idx wf lt r inv)

  origin_states-In :
      (r : Router)
      → Window req req.time
      → Inv td req r
      → (k s : ℕ) → k < rrrr_max_rounds
      → s < td.n_stops
      → StateIn req (origin_states td walk_sec past req r k s)
  origin_states-In r w inv k s lk ls =
      set_state-all (StateIn req) r.states 1 r.origin k s
        (record (r.states 1 r.origin) {
          time = req.time;
          back_stop = no_index;
          back_route = no_index;
          back_trip = no_index;
          board_time = unreached;
        })
        (w, (inv.states 1 r.origin (omega arith) inv.origin).1) (inv.states k s lk ls)

  set_origin-Inv :
      (r : Router) → Inv td req r → Ensures (Inv td req) (set_origin td walk_sec past req r)
  unfolding set_origin
  set_origin-Inv r inv =
      let lt = inv.origin in
      let w : Window req req.time = inr (ok.time_le, NoWorse-refl req.arrive_by req.time) in
      Ensures-bind (IsSized td.n_stops) (Inv td req) _ _
        (bitset_set-IsSized td.n_stops _ r.origin
          (bitset_reset-IsSized td.n_stops r.updated_stops inv.stops) lt)
        λ bs sized. record {
          stops = sized;
          routes = inv.routes;
          origin = inv.origin;
          best = λ s ls. update-all (Window req) r.best_time r.origin s req.time w (inv.best s ls);
          states = λ k s lk ls.
              set_state-all (StateIn req) (origin_states td walk_sec past req r) 0 r.origin k s
                (record (origin_states td walk_sec past req r 0 r.origin) { time = req.time })
                (w, (origin_states-In r w inv 0 r.origin (omega arith) lt).1)
                (origin_states-In r w inv k s lk ls);
        }

  router_round-Inv :
      (round : ℕ) (r : Router)
      → round < rrrr_max_rounds
      → Inv td req r
      → Ensures (Inv td req) (router_round td walk_sec past req round r)
  unfolding router_round
  router_round-Inv round r lt inv =
      Ensures-bind (All (λ i. i < td.n_routes)) (Inv td req) (elements r.updated_routes past) _
        (elements-lt td req wf ok td.n_routes r.updated_routes past wf.few_routes inv.routes)
        λ routes lts.
          Ensures-bind (Inv td req) (Inv td req)
            (for_each routes (round_route td walk_sec past req round) r) _
            (Ensures-for_each-All (λ i. i < td.n_routes) (Inv td req) _
              (λ route r' _ inv'. round_route-Inv round route r' lt inv') routes r lts inv)
            λ r1 inv1.
              Ensures-bind (Inv td req) (Inv td req) (unflag_banned_stops td req r1) _
                (unflag_banned_stops-Inv td req wf ok r1 inv1)
                λ r2 inv2.
                  Ensures-bind (Inv td req) (Inv td req)
                    (apply_transfers td req walk_sec past round r2) _
                    (apply_transfers-Inv td req wf ok round lt walk_sec past r2 inv2)
                    λ r3 inv3.
                      Ensures-if (Inv td req) (round == 0) _ _
                        (λ _.
                          initialize_transfers-Inv td req wf ok 1 (omega arith) r3.origin r3
                            inv3.origin inv3)
                        (λ _. inv3)

  start_at_stop-Inv :
      (r : Router) → Inv td req r → Ensures (Inv td req) (start_at_stop td walk_sec past req r)
  unfolding start_at_stop
  start_at_stop-Inv r inv =
      Ensures-bind (Inv td req) (Inv td req) (set_origin td walk_sec past req r) _
        (set_origin-Inv r inv)
        λ r1 inv1.
          Ensures-bind (Inv td req) (Inv td req) (unflag_banned_stops td req r1) _
            (unflag_banned_stops-Inv td req wf ok r1 inv1)
            λ r2 inv2. apply_transfers-Inv td req wf ok 1 (omega arith) walk_sec past r2 inv2

  rounds-lt : (n i : ℕ) → i + n ≤ rrrr_max_rounds → All (λ k. k < rrrr_max_rounds) (range_from i n)
  rounds-lt zero i h = tt
  rounds-lt (suc n) i h = (omega arith, rounds-lt n (i + 1) (omega arith))

  run_rounds-Inv :
      (r : Router) → Inv td req r → Ensures (Inv td req) (run_rounds td walk_sec past req r)
  unfolding run_rounds
  run_rounds-Inv r inv =
      Ensures-for_each-All (λ k. k < rrrr_max_rounds) (Inv td req) _
        (λ round r' lt inv'. router_round-Inv round r' lt inv')
        (range_from 0 (n_rounds td walk_sec past req)) r
        (rounds-lt (n_rounds td walk_sec past req) 0 (ground arith)) inv

  clear-Inv :
      (now : ℕ) (r : Router)
      → IsScratch td r
      → Inv td req (clear td walk_sec past req (set_servicedays td walk_sec past req now r))
  unfolding clear set_servicedays
  clear-Inv now r scratch = record {
    stops = scratch.stops;
    routes = scratch.routes;
    origin = if_all (λ s. s < td.n_stops) req.arrive_by req.to req.from ok.to_lt ok.from_lt;
    best = λ s ls. rw (lt→ltb s td.n_stops ls) (inl refl);
    states = λ k s lk ls. rw (lt→ltb k 6 lk, lt→ltb s td.n_stops ls) (inl refl, inl refl);
  }

  search_from-Inv :
      (r : Router)
      → Inv td req r
      → Ensures
          (λ result. (result.0 ≡ true) × (result.1 ≡ req) × Inv td req result.2)
          (search_from td walk_sec past req r)
  unfolding search_from
  search_from-Inv r inv =
      Ensures-bind (Inv td req) _
        (if req.from == onboard then some r else start_at_stop td walk_sec past req r) _
        (Ensures-if (Inv td req) (req.from == onboard) _ _ (λ _. inv)
          (λ _. start_at_stop-Inv r inv))
        λ r1 inv1.
          Ensures-bind (Inv td req) _ (run_rounds td walk_sec past req r1) _
            (run_rounds-Inv r1 inv1) λ r2 inv2. (refl, refl, inv2)

pub route-at_stop :
    {F : Type 0} (td : Tdata) (walk_sec : F → ℕ → ℕ → ℕ) (past : ℕ → ℕ) (req : RouterRequest F)
    (now : ℕ) (r : Router)
    → req.start_trip_trip ≡ no_index
    → router_route td walk_sec past now req r
      ≡ search_from td walk_sec past req
          (clear td walk_sec past req (set_servicedays td walk_sec past req now r))
unfolding router_route
route-at_stop td walk_sec past req now r at_stop =
    let e : (not (req.start_trip_route == no_index) && not (req.start_trip_trip == no_index))
        ≡ false =
      ground arith in
    rw e

-- What a search leaves: every time of every stop, in every round, is UNREACHED or within the
-- window of the search.
abbrev pub IsInWindow : {F : Type 0} → Tdata → RouterRequest F → Router → Type 0
IsInWindow td req r =
    ((s : ℕ) → s < td.n_stops → Window req (r.best_time s))
    × ((k s : ℕ) → k < rrrr_max_rounds → s < td.n_stops → StateIn req (r.states k s))

-- On a well-formed timetable, with a scratch space of its size and a request in range that does
-- not begin on board, `router_route` returns `true` and the request unchanged, at any time of day
-- and whatever the scratch space held before. Each time that it leaves (best times, and the ride
-- and walk times of all rounds) is UNREACHED or lies between the time of the request and three
-- days: not before it, or when arriving by not after it.
pub router_route-IsInWindow :
    {F : Type 0} (td : Tdata) (walk_sec : F → ℕ → ℕ → ℕ) (past : ℕ → ℕ) (req : RouterRequest F)
    (now : ℕ) (r : Router)
    → IsWellFormed td
    → InRange td req
    → IsScratch td r
    → req.start_trip_trip ≡ no_index
    → (r' : Router) × (router_route td walk_sec past now req r ≡ some (true, req, r'))
      × IsInWindow td req r'
router_route-IsInWindow td walk_sec past req now r wf ok scratch at_stop =
    let begun = clear td walk_sec past req (set_servicedays td walk_sec past req now r) in
    let ((b, q, r'), e, (eb, eq, inv)) = Ensures-some _ (search_from td walk_sec past req begun) (
      search_from-Inv td walk_sec past req wf ok begun
        (clear-Inv td walk_sec past req wf ok now r scratch)) in
    (r', route-at_stop td walk_sec past req now r at_stop ∙ e ∙ cc (eb, eq), (inv.best, inv.states))
