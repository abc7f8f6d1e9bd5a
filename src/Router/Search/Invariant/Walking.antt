-- ===== src/Router/Search/Invariant/Walking.antt =====
-- The transfers of a round keep the invariant of a search, and none of them exits.
use rrrr.Prelude.{
  ℕ, ◌+◌, ◌^◌, ◌≤◌, ◌<◌, ◌≡◌, refl, Bool, true, false, some, arith, update-all, inl, inr, ◌==◌,
  ◌&&◌, not, ltb, if◌then◌else◌, range_from, All, subst, sym,
}
use rrrr.Prelude.Effects.{
  ◌>>=◌, for_each, Ensures, Ensures-bind, Ensures-if, Ensures-for_each, Ensures-for_each-All,
}
use rrrr.Rtime.{unreached, rtime_three_days}
use rrrr.BitSet.{BitSet, bitset_reset, elements}
use rrrr.BitSet.Elements.{members-lt, elements-members}
use rrrr.Tdata.{Tdata}
use rrrr.Router.{Router, RouterRequest, rrrr_max_rounds}
use rrrr.Router.Board.Order.{NoWorse}
use rrrr.Router.Ride.{set_state}
use rrrr.Router.Transfers.{
  is_wanted, flag_route, flag_routes_for_stop, unflag_banned_routes, unflag_banned_stops,
  transfers_from, forget_walk, initialize_transfers, time_after_walk, transfer_duration_at, takes,
  walk_to, apply_transfer, stay_at, transfers_at, apply_transfers,
}
use rrrr.Router.Search.Invariant.{
  IsWellFormed, InRange, Window, StateIn, IsSized, Inv, set_state-all,
}
use rrrr.Router.Search.Invariant.Sets.{
  bitset_set-IsSized, bitset_unset-IsSized, bitset_reset-IsSized,
}

and_left : (a b : Bool) → (a && b) ≡ true → a ≡ true
and_left a b h = ground arith

and_right : (a b : Bool) → (a && b) ≡ true → b ≡ true
and_right a b h = ground arith

walked :
    (arrive : Bool) (start from to : ℕ)
    → (from ≤ rtime_three_days) × NoWorse arrive start from
    → not (ltb rtime_three_days to) ≡ true
    → not (if arrive then ltb from to else ltb to from) ≡ true
    → (to ≤ rtime_three_days) × NoWorse arrive start to
walked true start from to w h k = ground arith
walked false start from to w h k = ground arith

within :
    {F : Type 0} (req : RouterRequest F) {t : ℕ}
    → Window req t
    → (t == unreached) ≡ false
    → (t ≤ rtime_three_days) × NoWorse req.arrive_by req.time t
within req (inl e) h = absurd (ground arith)
within req (inr w) h = w

module _ {F : Type 0} (td : Tdata) (req : RouterRequest F) (wf : IsWellFormed td)
    (ok : InRange td req) where
  -- The loop over a bitset visits things in range.
  pub elements-lt :
      (n : ℕ) (bs : BitSet) (past : ℕ → ℕ)
      → n + 64 < 2 ^ 32
      → IsSized n bs
      → Ensures (All (λ i. i < n)) (elements bs past)
  elements-lt n bs past few s =
      let fits : bs.capacity + 64 < 2 ^ 32 = omega (arith, s.size) in
      subst (Ensures (All (λ i. i < n))) (sym (elements-members bs past s.valid fits))
        (members-lt bs bs.capacity 0 n (omega (arith, s.size)))

  flag_route-Inv :
      (routes : ℕ → ℕ)
      → ((i : ℕ) → routes i < td.n_routes)
      → (i : ℕ) (r : Router) → Inv td req r
      → Ensures (Inv td req) (flag_route td req routes i r)
  unfolding flag_route
  flag_route-Inv routes lt i r inv =
      Ensures-if (Inv td req) (is_wanted td req r (routes i)) _ _
        (λ _.
          Ensures-bind (IsSized td.n_routes) (Inv td req) _
            (λ flagged. some (record r { updated_routes = flagged }))
            (bitset_set-IsSized td.n_routes r.updated_routes (routes i) inv.routes (lt i))
            λ bs sized. record {
              stops = inv.stops;
              routes = sized;
              origin = inv.origin;
              best = inv.best;
              states = inv.states;
            })
        (λ _. inv)

  pub flag_routes_for_stop-Inv :
      (stop : ℕ) (r : Router)
      → Inv td req r
      → Ensures (Inv td req) (flag_routes_for_stop td req stop r)
  unfolding flag_routes_for_stop
  flag_routes_for_stop-Inv stop r inv =
      Ensures-for_each (Inv td req) _
        (flag_route-Inv _ (λ i. wf.stop_routes_lt ((td.stops stop).stop_routes_offset + i))) _ r inv

  pub unflag_banned_routes-Inv :
      (r : Router) → Inv td req r → Ensures (Inv td req) (unflag_banned_routes td req r)
  unfolding unflag_banned_routes for_each
  unflag_banned_routes-Inv r inv = elim ok.banned_route_lt [
    | inl e ↦ rw (e, Ensures) inv
    | inr lt ↦
        Ensures-for_each (Inv td req) _
          (λ _ r' inv'.
            Ensures-bind (IsSized td.n_routes) (Inv td req) _
              (λ routes. some (record r' { updated_routes = routes }))
              (bitset_unset-IsSized td.n_routes r'.updated_routes req.banned_route inv'.routes lt)
              λ bs sized. record {
                stops = inv'.stops;
                routes = sized;
                origin = inv'.origin;
                best = inv'.best;
                states = inv'.states;
              })
          (range_from 0 req.n_banned_routes) r inv
  ]

  pub unflag_banned_stops-Inv :
      (r : Router) → Inv td req r → Ensures (Inv td req) (unflag_banned_stops td req r)
  unfolding unflag_banned_stops for_each
  unflag_banned_stops-Inv r inv = elim ok.banned_stop_lt [
    | inl e ↦ rw (e, Ensures) inv
    | inr lt ↦
        Ensures-for_each (Inv td req) _
          (λ _ r' inv'.
            Ensures-bind (IsSized td.n_stops) (Inv td req) _
              (λ stops. some (record r' { updated_stops = stops }))
              (bitset_unset-IsSized td.n_stops r'.updated_stops req.banned_stop inv'.stops lt)
              λ bs sized. record {
                stops = sized;
                routes = inv'.routes;
                origin = inv'.origin;
                best = inv'.best;
                states = inv'.states;
              })
          (range_from 0 req.n_banned_stops) r inv
  ]

  module _ (round : ℕ) (round_lt : round < rrrr_max_rounds) where
    -- A new walk time in the window.
    walk_state :
        (r : Router) (stop t from : ℕ)
        → stop < td.n_stops
        → Window req t
        → Inv td req r
        → (k s : ℕ) → k < rrrr_max_rounds
        → s < td.n_stops
        → StateIn req (
            set_state r.states round stop
              (record (r.states round stop) { walk_time = t; walk_from = from })
              k
              s)
    walk_state r stop t from lt w inv k s lk ls =
        set_state-all (StateIn req) r.states round stop k s _
          ((inv.states round stop round_lt lt).0, w) (inv.states k s lk ls)

    forget_walk-Inv :
        (stop : ℕ) (r : Router)
        → stop < td.n_stops
        → Inv td req r
        → Ensures (Inv td req) (forget_walk td req round stop r)
    forget_walk-Inv stop r lt inv = record {
      stops = inv.stops;
      routes = inv.routes;
      origin = inv.origin;
      best = inv.best;
      states = λ k s lk ls.
          set_state-all (StateIn req) r.states round stop k s _
            ((inv.states round stop round_lt lt).0, inl refl) (inv.states k s lk ls);
    }

    pub initialize_transfers-Inv :
        (stop : ℕ) (r : Router)
        → stop < td.n_stops
        → Inv td req r
        → Ensures (Inv td req) (initialize_transfers td req round stop r)
    unfolding initialize_transfers
    initialize_transfers-Inv stop r lt inv =
        Ensures-for_each (Inv td req) (λ t. forget_walk td req round (td.transfer_target_stops t))
          (λ t r' inv'. forget_walk-Inv (td.transfer_target_stops t) r' (wf.targets_lt t) inv')
          (transfers_from td req stop) _ (forget_walk-Inv stop r lt inv)

    module _ (walk_sec : F → ℕ → ℕ → ℕ) where
      flag_and_unflag :
          (stop : ℕ) (r : Router)
          → Inv td req r
          → Ensures
              (Inv td req)
              (flag_routes_for_stop td req stop r >>= λ r'. unflag_banned_routes td req r')
      flag_and_unflag stop r inv =
          Ensures-bind (Inv td req) (Inv td req) (flag_routes_for_stop td req stop r)
            (λ r'. unflag_banned_routes td req r') (flag_routes_for_stop-Inv stop r inv)
            (λ r' inv'. unflag_banned_routes-Inv r' inv')

      walk_to-Inv :
          (stop_from stop_to time_to : ℕ) (r : Router)
          → stop_to < td.n_stops
          → Window req time_to
          → Inv td req r
          → Ensures (Inv td req) (walk_to td req walk_sec round stop_from stop_to time_to r)
      unfolding walk_to
      walk_to-Inv stop_from stop_to time_to r lt w inv = flag_and_unflag stop_to _ (record {
        stops = inv.stops;
        routes = inv.routes;
        origin = inv.origin;
        best = λ s ls. update-all (Window req) r.best_time stop_to s time_to w (inv.best s ls);
        states = walk_state r stop_to time_to stop_from lt w inv;
      })

      apply_transfer-Inv :
          (stop_from time_from tr : ℕ) (r : Router)
          → (time_from ≤ rtime_three_days) × NoWorse req.arrive_by req.time time_from
          → Inv td req r
          → Ensures (Inv td req) (apply_transfer td req walk_sec round stop_from time_from tr r)
      unfolding apply_transfer takes
      apply_transfer-Inv stop_from time_from tr r w inv =
          let time_to =
            time_after_walk td req walk_sec time_from (transfer_duration_at td req walk_sec tr) in
          let stop_to = td.transfer_target_stops tr in
          Ensures-if (Inv td req) (takes td req walk_sec r time_from time_to stop_to) _ _
            (λ h.
              walk_to-Inv stop_from stop_to time_to r (wf.targets_lt tr)
                (inr (
                  walked req.arrive_by req.time time_from time_to w (and_left _ _ (and_left _ _ h))
                    (and_right _ _ (and_left _ _ h))))
                inv)
            (λ _. inv)

      stay_at-Inv :
          (stop_from time_from : ℕ) (r : Router)
          → stop_from < td.n_stops
          → Window req time_from
          → Inv td req r
          → Ensures (Inv td req) (stay_at td req walk_sec round stop_from time_from r)
      unfolding stay_at
      stay_at-Inv stop_from time_from r lt w inv =
          Ensures-if (Inv td req) (time_from == r.best_time stop_from) _ _
            (λ _. flag_and_unflag stop_from _ (record {
              stops = inv.stops;
              routes = inv.routes;
              origin = inv.origin;
              best = inv.best;
              states = walk_state r stop_from time_from stop_from lt w inv;
            }))
            (λ _. inv)

      transfers_at-Inv :
          (stop_from : ℕ) (r : Router)
          → stop_from < td.n_stops
          → Inv td req r
          → Ensures (Inv td req) (transfers_at td req walk_sec round stop_from r)
      unfolding transfers_at
      transfers_at-Inv stop_from r lt inv =
          let time_from = (r.states round stop_from).time in
          let w : Window req time_from = (inv.states round stop_from round_lt lt).0 in
          Ensures-if (Inv td req) (time_from == unreached) _ _ (λ _. inv)
            λ reached.
              Ensures-bind (Inv td req) (Inv td req)
                (stay_at td req walk_sec round stop_from time_from r) _
                (stay_at-Inv stop_from time_from r lt w inv)
                λ r' inv'.
                  Ensures-for_each (Inv td req) _
                    (λ tr r'' inv''.
                      apply_transfer-Inv stop_from time_from tr r'' (within req w reached) inv'')
                    (transfers_from td req stop_from) r' inv'

      pub apply_transfers-Inv :
          (past : ℕ → ℕ) (r : Router)
          → Inv td req r
          → Ensures (Inv td req) (apply_transfers td req walk_sec past round r)
      unfolding apply_transfers
      apply_transfers-Inv past r inv =
          Ensures-bind (All (λ i. i < td.n_stops)) (Inv td req) (elements r.updated_stops past) _
            (elements-lt td.n_stops r.updated_stops past wf.few_stops inv.stops)
            λ stops lts.
              Ensures-bind (Inv td req) (Inv td req)
                (for_each stops (transfers_at td req walk_sec round)
                  (record r { updated_routes = bitset_reset r.updated_routes }))
                (λ r'. some (record r' { updated_stops = bitset_reset r'.updated_stops }))
                (Ensures-for_each-All (λ i. i < td.n_stops) (Inv td req) _
                  (λ stop r' lt inv'. transfers_at-Inv stop r' lt inv') stops _ lts
                  (record {
                    stops = inv.stops;
                    routes = bitset_reset-IsSized td.n_routes r.updated_routes inv.routes;
                    origin = inv.origin;
                    best = inv.best;
                    states = inv.states;
                  }))
                λ r' inv'. record {
                  stops = bitset_reset-IsSized td.n_stops r'.updated_stops inv'.stops;
                  routes = inv'.routes;
                  origin = inv'.origin;
                  best = inv'.best;
                  states = inv'.states;
                }
