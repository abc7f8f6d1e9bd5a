-- ===== src/Router/Search/Trace/Riding.antt =====
-- The rides of a round keep the chain of states.
use rrrr.Prelude.{
  ℕ, zero, suc, ◌-◌, ◌<◌, ◌≡◌, ◌≢◌, ◌⊎◌, ◌∙◌, refl, sym, ap, subst, Bool, true, false, Option, none,
  some, arith, ◌==◌, ◌&&◌, not, if◌then◌else◌, ltb, Bool-cases, ==_iff, inl, inr, if_all,
  map_option, All-any,
}
use rrrr.Prelude.Effects.{Holds, Holds-bind, Holds-if, Holds-all, Holds-for_each}
use rrrr.Rtime.{no_index, onboard, unreached}
use rrrr.BitSet.{BitSet, bitset_set}
use rrrr.BitSet.Laws.{Assigns, bitset_set-Assigns, contains}
use rrrr.Tdata.{Tdata, Route, tdata_stops_for_route}
use rrrr.Router.{Router, RouterState, RouterRequest}
use rrrr.Router.Board.{Best}
use rrrr.Router.Ride.{
  Ride, start_ride, set_state, hard_ban, ride_time, attempt_board, board, accepts, alight,
  forbidden, stay, at_stop, visit_stop, ride_route, route_stops_in_order,
}
use rrrr.Router.Search.Invariant.{IsWellFormed}
use rrrr.Router.Search.Trace.{
  set_state-cases, set_state-row, set_state_self, WasReached, Rode, Linked, IsStart, Searching,
}

-- A state that agrees with the old one on walking keeps all walk times.
walks_kept :
    (states : ℕ → ℕ → RouterState) (round stop k s : ℕ) (state : RouterState)
    → state.walk_time ≡ (states round stop).walk_time
    → (set_state states round stop state k s).walk_time ≡ (states k s).walk_time
walks_kept states round stop k s state e =
    set_state-cases (λ st. st.walk_time ≡ (states k s).walk_time) states round stop k s state
      (λ p q. e ∙ ap (λ x. (states x stop).walk_time) p ∙ ap (λ x. (states k x).walk_time) q) refl

WasReached-kept :
    (states states' : ℕ → ℕ → RouterState) (k b : ℕ)
    → ((i s : ℕ) → (states' i s).walk_time ≡ (states i s).walk_time)
    → WasReached states k b
    → WasReached states' k b
WasReached-kept states states' zero b same h = tt
WasReached-kept states states' (suc k) b same h = λ e. h (sym (same k b) ∙ e)

-- A row that stays, with the walk times of all rounds, keeps its rides and its links.
Rode-kept :
    (n : ℕ) (states states' : ℕ → ℕ → RouterState) (k s : ℕ)
    → ((i s : ℕ) → (states' i s).walk_time ≡ (states i s).walk_time)
    → states' k s ≡ states k s
    → Rode n states k s
    → Rode n states' k s
Rode-kept n states states' k s same e (t, b, w) =
    subst (λ st. (st.time ≢ unreached) × (st.back_stop < n) × WasReached states' k st.back_stop)
      (sym e) (t, b, WasReached-kept states states' k _ same w)

Linked-kept :
    (n : ℕ) (states states' : ℕ → ℕ → RouterState) (k : ℕ)
    → ((i s : ℕ) → (states' i s).walk_time ≡ (states i s).walk_time)
    → states' k ≡ states k
    → Linked n states k
    → Linked n states' k
Linked-kept n states states' k same e h s lt reached =
    let row = λ (x : ℕ). ap (λ (g : ℕ → RouterState). g x) e in
    let ride = h s lt (λ q. reached (same k s ∙ q)) in
    subst (λ (st : RouterState). Rode n states' k st.walk_from) (sym (row s))
      (Rode-kept n states states' k _ same (row _) ride)

last_reached :
    (round : ℕ) (r : Router) (stop : ℕ)
    → (r.states (if round == 0 then 1 else round - 1) stop).walk_time ≢ unreached
    → WasReached r.states round stop
last_reached zero r stop h = tt
last_reached (suc k) r stop h =
    let e : (if suc k == 0 then 1 else suc k - 1) ≡ k = ground arith in
    subst (λ j. (r.states j stop).walk_time ≢ unreached) e h

and_left : (a b : Bool) → (a && b) ≡ true → a ≡ true
and_left a b h = ground arith

module _ {F : Type 0} (td : Tdata) (origin : ℕ) (req : RouterRequest F) (round route_idx : ℕ)
    (wf : IsWellFormed td) where
  -- Not on board, or boarded at a stop reached in the round before.
  abbrev Boarded : Router → Ride → Type 0
  Boarded r ride =
      ride.trip ≢ no_index
      → (ride.board_stop < td.n_stops) × WasReached r.states round ride.board_stop

  hard_ban-Boarded :
      (r : Router) (n stop : ℕ) (ride : Ride)
      → Boarded r ride
      → Boarded r (hard_ban td req round route_idx n stop ride)
  unfolding hard_ban
  hard_ban-Boarded r zero stop ride h = h
  hard_ban-Boarded r (suc n) stop ride h = hard_ban-Boarded r n stop _ (
      if_all (Boarded r) (stop == req.banned_stop_hard) (record ride { trip = no_index }) ride
        (λ off. absurd (off refl)) h)

  -- A search for a trip is made only where the stop was reached in the round before.
  attempt_board-reached :
      (route_stop stop prev_time : ℕ) (ride : Ride)
      → Holds
          (λ attempt. attempt ≡ true → prev_time ≢ unreached)
          (attempt_board td req round route_idx route_stop stop prev_time ride)
  unfolding attempt_board
  attempt_board-reached route_stop stop prev_time ride =
      Holds-if _ (prev_time == unreached) _ _ (λ _ e. cc)
        (λ p. Holds-all (λ attempt. attempt ≡ true → prev_time ≢ unreached) _ (λ a e. ground arith))

  board-Boarded :
      (r : Router) (stop : ℕ) (best : Best) (ride : Ride)
      → stop < td.n_stops
      → WasReached r.states round stop
      → Boarded r ride
      → Boarded r (board td req round route_idx stop best ride)
  unfolding board
  board-Boarded r stop best ride lt reached h =
      if_all (Boarded r) (best.trip == no_index) ride (if too_early then ride else boarded) h
        (if_all (Boarded r) too_early ride boarded h (λ _. (lt, reached)))
    where
      too_early : Bool
      too_early =
          (if req.arrive_by then ltb req.time best.time else ltb best.time req.time)
          && not (req.from == onboard)

      boarded : Ride
      boarded = record {
        trip = best.trip;
        board_stop = stop;
        board_time = best.time;
        board_serviceday = best.serviceday;
      }

  abbrev Visiting : Router × Ride → Type 0
  Visiting (r, ride) = Searching td origin round r × Boarded r ride

  alight-Searching :
      (r : Router) (stop time : ℕ) (ride : Ride)
      → time ≢ unreached
      → ride.trip ≢ no_index
      → Searching td origin round r
      → Boarded r ride
      → Holds (λ r'. Visiting (r', ride)) (alight td req round route_idx r stop time ride)
  unfolding alight
  alight-Searching r stop time ride late aboard s h =
      Holds-bind (λ bs. Assigns r.updated_stops stop true (some bs)) (λ r'. Visiting (r', ride))
        (bitset_set r.updated_stops stop) _
        (holds (bitset_set r.updated_stops stop)
          (bitset_set-Assigns r.updated_stops stop s.sized.valid))
        λ bs (lt, valid, size, members). (
          record {
            sized = record { valid = valid; size = size ∙ s.sized.size };
            here = s.here;
            linked = λ j up.
                Linked-kept td.n_stops r.states states' j same
                  (set_state-row r.states round stop j state (λ e. absurd (omega arith)))
                  (s.linked j up);
            fresh = λ j x le lj lx.
                subst (λ t. (t ≡ unreached) ⊎ ((round ≡ 0) × (j ≡ 1) × IsStart td origin x))
                  (sym (same j x)) (s.fresh j x le lj lx);
            rode = λ x lx c. elim (Bool-cases (stop == x)) [
              | inl q ↦
                  let at : stop ≡ x = (==_iff stop x).0 q in
                  let (b, w) = h aboard in
                  subst (λ y. Rode td.n_stops states' round y) at
                    (subst
                      (λ (st : RouterState).
                        (st.time ≢ unreached)
                        × (st.back_stop < td.n_stops)
                        × WasReached states' round st.back_stop)
                      (sym (set_state_self r.states round stop state))
                      (late, b, WasReached-kept r.states states' round ride.board_stop same w))
              | inr q ↦
                  Rode-kept td.n_stops r.states states' round x same
                    (set_state-cases (λ st. st ≡ r.states round x) r.states round stop round x state
                      (λ _ e. absurd (ground arith)) refl)
                    (s.rode x lx (old bs x q c (members x)))
            ];
          },
          λ on.
              let (b, w) = h on in
              (b, WasReached-kept r.states states' round ride.board_stop same w),
        )
    where
      state : RouterState
      state = record (r.states round stop) {
        time = time;
        back_route = route_idx;
        back_trip = ride.trip;
        back_stop = ride.board_stop;
        board_time = ride.board_time;
      }

      states' : ℕ → ℕ → RouterState
      states' = set_state r.states round stop state

      same : (i x : ℕ) → (states' i x).walk_time ≡ (r.states i x).walk_time
      same i x = walks_kept r.states round stop i x state refl

      old :
          (bs : BitSet) (x : ℕ)
          → (stop == x) ≡ false
          → contains bs x ≡ true
          → contains bs x ≡ (if stop == x then true else contains r.updated_stops x)
          → contains r.updated_stops x ≡ true
      old bs x q c e = ground arith

      holds :
          (o : Option BitSet)
          → Assigns r.updated_stops stop true o
          → Holds (λ bs. Assigns r.updated_stops stop true (some bs)) o
      holds none a = tt
      holds (some bs) a = a

  accepts-reached :
      (r : Router) (stop time : ℕ)
      → accepts td req round route_idx r stop time ≡ true
      → time ≢ unreached
  unfolding accepts
  accepts-reached r stop time h =
      let e =
        and_left (not (time == unreached)) _
          (and_left _ _ (and_left _ _ (and_left _ _ (and_left _ _ h)))) in
      ground arith

  stay-Visiting :
      (route_stop stop : ℕ) (r : Router) (ride : Ride)
      → Visiting (r, ride)
      → Holds Visiting (stay td req round route_idx route_stop stop r ride)
  unfolding stay
  stay-Visiting route_stop stop r ride (s, h) =
      Holds-if Visiting (ride.trip == no_index) _ _ (λ _. (s, h))
        λ on.
          Holds-bind (λ _. Unit) Visiting
            (ride_time td req round route_idx route_stop (not req.arrive_by) ride) _
            (Holds-all _ _ (λ _. tt))
            λ time _.
              Holds-bind (λ r'. Visiting (r', ride)) Visiting
                (if accepts td req round route_idx r stop time
                  then alight td req round route_idx r stop time ride
                  else some r)
                (λ r'. some (r', ride))
                (Holds-if (λ r'. Visiting (r', ride)) (accepts td req round route_idx r stop time) _
                  _
                  (λ a.
                    alight-Searching r stop time ride (accepts-reached r stop time a) (ground arith)
                      s h)
                  (λ _. (s, h)))
                (λ r' v. v)

  at_stop-Visiting :
      (route : Route) (route_stop stop prev_time : ℕ) (r : Router) (ride : Ride) (attempt : Bool)
      → stop < td.n_stops
      → (attempt ≡ true → WasReached r.states round stop)
      → Visiting (r, ride)
      → Holds Visiting
          (at_stop td req round route_idx route route_stop stop prev_time r ride attempt)
  unfolding at_stop
  at_stop-Visiting route route_stop stop prev_time r ride attempt lt reached (s, h) =
      Holds-if Visiting (forbidden td req round route_idx route_stop attempt ride) _ _ (λ _. (s, h))
        λ _.
          Holds-if Visiting attempt _ _ (λ a. (s, board-Boarded r stop _ ride lt (reached a) h))
            (λ _. stay-Visiting route_stop stop r ride (s, h))

  visit_stop-Visiting :
      (route : Route) (route_stop : ℕ) (v : Router × Ride)
      → Visiting v
      → Holds Visiting (visit_stop td req round route_idx route route_stop v)
  unfolding visit_stop
  visit_stop-Visiting route route_stop (r, ride) (s, h) =
      let stop = tdata_stops_for_route td route_idx route_stop in
      let ride' = hard_ban td req round route_idx req.n_banned_stops_hard stop ride in
      let last_round = if round == 0 then 1 else round - 1 in
      let prev_time = (r.states last_round stop).walk_time in
      Holds-bind (λ attempt. attempt ≡ true → prev_time ≢ unreached) Visiting
        (attempt_board td req round route_idx route_stop stop prev_time ride') _
        (attempt_board-reached route_stop stop prev_time ride')
        λ attempt reached.
          at_stop-Visiting route route_stop stop prev_time r ride' attempt (wf.route_stops_lt _)
            (λ a. last_reached round r stop (reached a))
            (s, hard_ban-Boarded r req.n_banned_stops_hard stop ride h)

  pub ride_route-Searching :
      (r : Router)
      → Searching td origin round r
      → Holds (Searching td origin round) (ride_route td req round route_idx r)
  unfolding ride_route
  ride_route-Searching r s = drop_ride _ (
      Holds-for_each (λ _. Unit) Visiting (visit_stop td req round route_idx (td.routes route_idx))
        (λ route_stop v _. visit_stop-Visiting (td.routes route_idx) route_stop v)
        (route_stops_in_order td req round route_idx (td.routes route_idx)) (r, start_ride)
        (All-any (route_stops_in_order td req round route_idx (td.routes route_idx)))
        (s, λ on. absurd (on refl)))
    where
      drop_ride :
          (o : Option (Router × Ride))
          → Holds Visiting o
          → Holds (Searching td origin round) (map_option (λ v. v.0) o)
      drop_ride none h = tt
      drop_ride (some v) h = h.0
