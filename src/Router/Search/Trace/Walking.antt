-- ===== src/Router/Search/Trace/Walking.antt =====
-- The transfers of a round: a property of the states that each walk from a stop of the set keeps is
-- kept by them all.
use rrrr.Prelude.{
  ℕ, zero, suc, ◌+◌, ◌-◌, ◌^◌, ◌≤◌, ◌<◌, ◌≡◌, ◌≢◌, ◌⊎◌, ◌∙◌, refl, sym, ap, subst, true, Option,
  none, some, arith, ◌==◌, Bool-cases, inl, inr, All, All-any, range_from,
}
use rrrr.Prelude.Effects.{◌>>=◌, for_each, Holds, Holds-bind, Holds-if, Holds-all, Holds-for_each}
use rrrr.Rtime.{unreached}
use rrrr.BitSet.{BitSet, bitset_set, bitset_unset, bitset_reset, elements}
use rrrr.BitSet.Laws.{contains}
use rrrr.BitSet.Elements.{members, elements-members}
use rrrr.Tdata.{Tdata, tdata_routes_for_stop}
use rrrr.Router.{Router, RouterState, RouterRequest}
use rrrr.Router.Ride.{set_state}
use rrrr.Router.Transfers.{
  is_wanted, flag_route, flag_routes_for_stop, unflag_banned_routes, transfers_from, takes, walk_to,
  apply_transfer, time_after_walk, transfer_duration_at, stay_at, transfers_at, apply_transfers,
}
use rrrr.Router.Search.Invariant.{IsSized}
use rrrr.Router.Search.Trace.{set_state-cases, IsTransfer}

-- The members of a set that its loop visits.
All-members :
    (bs : BitSet) (n lo hi : ℕ)
    → lo + n ≤ hi
    → All (λ i. (i < hi) × (contains bs i ≡ true)) (members bs n lo)
All-members bs zero lo hi h = tt
All-members bs (suc n) lo hi h = elim (Bool-cases (contains bs lo)) [
  | inl p ↦ rw p ((omega arith, p), All-members bs n (lo + 1) hi (omega arith))
  | inr p ↦ rw p (All-members bs n (lo + 1) hi (omega arith))
]

pub All-range : (n lo hi : ℕ) → n ≤ hi - lo → All (λ t. (lo ≤ t) × (t < hi)) (range_from lo n)
All-range n lo hi h = go n lo refl_le h
  where
    refl_le : lo ≤ lo
    refl_le = omega arith

    go : (m i : ℕ) → lo ≤ i → m ≤ hi - i → All (λ t. (lo ≤ t) × (t < hi)) (range_from i m)
    go zero i le up = tt
    go (suc m) i le up = ((le, omega arith), go m (i + 1) (omega arith) (omega arith))

-- Nothing but the flagged routes differs.
abbrev pub Same : Router → Router → Type 0
Same r r' = (r'.states ≡ r.states) × (r'.updated_stops ≡ r.updated_stops) × (r'.origin ≡ r.origin)

module _ {F : Type 0} (td : Tdata) (req : RouterRequest F) where
  flag_routes_for_stop-Same :
      (stop : ℕ) (r0 r : Router) → Same r0 r → Holds (Same r0) (flag_routes_for_stop td req stop r)
  unfolding flag_routes_for_stop flag_route
  flag_routes_for_stop-Same stop r0 r same =
      let (n, routes) = tdata_routes_for_stop td stop in
      Holds-for_each (λ _. Unit) (Same r0) (flag_route td req routes)
        (λ i r' _ h.
          Holds-if (Same r0) (is_wanted td req r' (routes i)) _ _
            (λ _.
              Holds-bind (λ _. Unit) (Same r0) (bitset_set r'.updated_routes (routes i))
                (λ flagged. some (record r' { updated_routes = flagged })) (Holds-all _ _ (λ _. tt))
                (λ _ _. h))
            (λ _. h))
        (range_from 0 n) r (All-any (range_from 0 n)) same

  unflag_banned_routes-Same :
      (r0 r : Router) → Same r0 r → Holds (Same r0) (unflag_banned_routes td req r)
  unfolding unflag_banned_routes
  unflag_banned_routes-Same r0 r same =
      Holds-for_each (λ _. Unit) (Same r0) _
        (λ i r' _ h.
          Holds-bind (λ _. Unit) (Same r0) (bitset_unset r'.updated_routes req.banned_route)
            (λ routes. some (record r' { updated_routes = routes })) (Holds-all _ _ (λ _. tt))
            (λ _ _. h))
        (range_from 0 req.n_banned_routes) r (All-any (range_from 0 req.n_banned_routes)) same

  module _ (walk_sec : F → ℕ → ℕ → ℕ) (round : ℕ) (bs : BitSet) (origin : ℕ)
      (P : (ℕ → ℕ → RouterState) → Type 0)
      (keep : (states : ℕ → ℕ → RouterState) (from to t : ℕ)
        → from < td.n_stops
        → contains bs from ≡ true
        → (states round from).time ≢ unreached
        → (to ≡ from) ⊎ IsTransfer td origin from to
        → P states
        → P (
            set_state states round to
              (record (states round to) { walk_time = t; walk_from = from }))) where
    -- What holds between two transfers from the stop `from`, whose time is `time_from`.
    abbrev Going : ℕ → ℕ → Router → Type 0
    Going from time_from r =
        P r.states
        × (r.updated_stops ≡ bs)
        × (r.origin ≡ origin)
        × ((r.states round from).time ≡ time_from)

    flag_and_unflag :
        (from time_from stop : ℕ) (r : Router)
        → Going from time_from r
        → Holds
            (Going from time_from)
            (flag_routes_for_stop td req stop r >>= unflag_banned_routes td req)
    flag_and_unflag from time_from stop r g =
        Holds-bind (Same r) (Going from time_from) (flag_routes_for_stop td req stop r)
          (unflag_banned_routes td req) (flag_routes_for_stop-Same stop r r (refl, refl, refl))
          λ r' same. moved (unflag_banned_routes td req r') (unflag_banned_routes-Same r r' same)
      where
        moved : (o : Option Router) → Holds (Same r) o → Holds (Going from time_from) o
        moved none h = tt
        moved (some r') h = (
          subst P (sym (h.0)) g.0,
          h.1 ∙ g.1,
          h.2 ∙ g.2,
          ap (λ (f : ℕ → ℕ → RouterState). (f round from).time) (h.0) ∙ g.3,
        )

    -- One walk is stored.
    stored :
        (from time_from to t : ℕ) (r : Router)
        → from < td.n_stops
        → contains bs from ≡ true
        → time_from ≢ unreached
        → (to ≡ from) ⊎ IsTransfer td origin from to
        → Going from time_from r
        → let states' =
            set_state r.states round to
              (record (r.states round to) { walk_time = t; walk_from = from }) in
          P states' × ((states' round from).time ≡ time_from)
    stored from time_from to t r lt c late way g = (
      keep r.states from to t lt c (λ e. late (sym (g.3) ∙ e)) way g.0,
      set_state-cases (λ st. st.time ≡ time_from) r.states round to round from _
          (λ _ e. ap (λ x. (r.states round x).time) e ∙ g.3) (g.3),
    )

    apply_transfer-Going :
        (from time_from tr : ℕ) (r : Router)
        → from < td.n_stops
        → contains bs from ≡ true
        → time_from ≢ unreached
        → ((td.stops from).transfers_offset ≤ tr) × (tr < (td.stops (from + 1)).transfers_offset)
        → Going from time_from r
        → Holds (Going from time_from) (apply_transfer td req walk_sec round from time_from tr r)
    unfolding apply_transfer walk_to
    apply_transfer-Going from time_from tr r lt c late (lo, hi) g =
        let to = td.transfer_target_stops tr in
        let time_to =
          time_after_walk td req walk_sec time_from (transfer_duration_at td req walk_sec tr) in
        Holds-if (Going from time_from) (takes td req walk_sec r time_from time_to to) _ _
          (λ _.
            let (p, e) = stored from time_from to time_to r lt c late (inr (tr, lo, hi, refl)) g in
            flag_and_unflag from time_from to _ (p, g.1, g.2, e))
          (λ _. g)

    stay_at-Going :
        (from time_from : ℕ) (r : Router)
        → from < td.n_stops
        → contains bs from ≡ true
        → time_from ≢ unreached
        → Going from time_from r
        → Holds (Going from time_from) (stay_at td req walk_sec round from time_from r)
    unfolding stay_at
    stay_at-Going from time_from r lt c late g =
        Holds-if (Going from time_from) (time_from == r.best_time from) _ _
          (λ _.
            let (p, e) = stored from time_from from time_from r lt c late (inl refl) g in
            flag_and_unflag from time_from from _ (p, g.1, g.2, e))
          (λ _. g)

    abbrev Between : Router → Type 0
    Between r = P r.states × (r.updated_stops ≡ bs) × (r.origin ≡ origin)

    transfers_at-Between :
        (from : ℕ) (r : Router)
        → from < td.n_stops
        → contains bs from ≡ true
        → Between r
        → Holds Between (transfers_at td req walk_sec round from r)
    unfolding transfers_at
    transfers_at-Between from r lt c b =
        let time_from = (r.states round from).time in
        Holds-if Between (time_from == unreached) _ _ (λ _. b)
          λ late.
            Holds-bind (Going from time_from) Between
              (stay_at td req walk_sec round from time_from r)
              (λ r'.
                for_each (transfers_from td req from)
                  (apply_transfer td req walk_sec round from time_from) r')
              (stay_at-Going from time_from r lt c (ground arith) (b.0, b.1, b.2, refl))
              λ r' g. between time_from _ (
                Holds-for_each
                  (λ tr.
                    ((td.stops from).transfers_offset ≤ tr)
                    × (tr < (td.stops (from + 1)).transfers_offset))
                  (Going from time_from) _
                  (λ tr r'' in_range g'.
                    apply_transfer-Going from time_from tr r'' lt c (ground arith) in_range g')
                  (transfers_from td req from) r' in_ranges g)
      where
        between : (time : ℕ) (o : Option Router) → Holds (Going from time) o → Holds Between o
        between time none h = tt
        between time (some r) h = (h.0, h.1, h.2)

        in_ranges :
            All
              (λ tr.
                ((td.stops from).transfers_offset ≤ tr)
                × (tr < (td.stops (from + 1)).transfers_offset))
              (transfers_from td req from)
        in_ranges =
            All-range _ (td.stops from).transfers_offset (td.stops (from + 1)).transfers_offset
              (omega arith)

    pub apply_transfers-keeps :
        (past : ℕ → ℕ) (r : Router)
        → td.n_stops + 64 < 2 ^ 32
        → IsSized td.n_stops bs
        → Between r
        → Holds
            (λ r'. P r'.states × (r'.updated_stops ≡ bitset_reset bs) × (r'.origin ≡ origin))
            (apply_transfers td req walk_sec past round r)
    unfolding apply_transfers
    apply_transfers-keeps past r few sized b =
        Holds-bind (All (λ i. (i < td.n_stops) × (contains bs i ≡ true))) _
          (elements r.updated_stops past) _
          (subst
            (λ set.
              Holds (All (λ i. (i < td.n_stops) × (contains bs i ≡ true))) (elements set past))
            (sym (b.1))
            (subst (Holds (All (λ i. (i < td.n_stops) × (contains bs i ≡ true))))
              (sym (elements-members bs past sized.valid (omega (arith, sized.size))))
              (All-members bs bs.capacity 0 td.n_stops (omega (arith, sized.size)))))
          λ stops all.
            Holds-bind Between _
              (for_each stops (transfers_at td req walk_sec round)
                (record r { updated_routes = bitset_reset r.updated_routes }))
              (λ r'. some (record r' { updated_stops = bitset_reset r'.updated_stops }))
              (Holds-for_each (λ i. (i < td.n_stops) × (contains bs i ≡ true)) Between _
                (λ from r' at b'. transfers_at-Between from r' at.0 at.1 b') stops _ all b)
              λ r' b'. (b'.0, ap bitset_reset (b'.1), b'.2)
