-- ===== src/Router/Search/Trace/Start.antt =====
-- The start of a search from a stop, and the search as a whole: what it reaches can be traced back.
use rrrr.Prelude.{
  ℕ, zero, ◌≡◌, ◌⊎◌, ◌∙◌, refl, sym, ap, subst, Bool, true, false, Option, none, some, arith, ◌==◌,
  if◌then◌else◌, inl, inr, ==_iff,
}
use rrrr.Prelude.Effects.{Holds, Holds-bind}
use rrrr.Rtime.{onboard, unreached}
use rrrr.BitSet.{BitSet, bitset_set, bitset_reset}
use rrrr.BitSet.Laws.{Assigns, bitset_set-Assigns, bitset_reset_lem, contains}
use rrrr.Tdata.{Tdata}
use rrrr.Router.{Router, RouterState, RouterRequest}
use rrrr.Router.Ride.{set_state}
use rrrr.Router.Transfers.{unflag_banned_stops, apply_transfers}
use rrrr.Router.Search.{origin_states, set_origin, start_at_stop, n_rounds, run_rounds, search_from}
use rrrr.Router.Search.Invariant.{IsWellFormed, IsSized}
use rrrr.Router.Search.Invariant.Sets.{bitset_reset-IsSized}
use rrrr.Router.Search.Trace.{set_state-cases, IsTransfer, IsStart, Fresh, Searching}
use rrrr.Router.Search.Trace.Walking.{apply_transfers-keeps}
use rrrr.Router.Search.Trace.Rows.{Shrinks, unflag_banned_stops-Shrinks}
use rrrr.Router.Search.Trace.Rounds.{rounds-Searching}

not_both : (b : Bool) → b ≡ false → b ≡ true → ⊥
not_both b e f = absurd (ground arith)

only : (b c d : Bool) → b ≡ (if c then true else d) → d ≡ false → b ≡ true → c ≡ true
only b c d e f g = ground arith

module _ {F : Type 0} (td : Tdata) (walk_sec : F → ℕ → ℕ → ℕ) (past : ℕ → ℕ) (req : RouterRequest F)
    (wf : IsWellFormed td) (origin : ℕ) where
  -- No stop is reached by walking but in round 1, at the start; and the only stop flagged is the
  -- origin.
  abbrev Begun : Router → Type 0
  Begun r =
      Fresh td origin 0 r.states
      × (r.origin ≡ origin)
      × IsSized td.n_stops r.updated_stops
      × ((s : ℕ) → contains r.updated_stops s ≡ true → s ≡ origin)

  set_origin-Begun :
      (r : Router)
      → IsSized td.n_stops r.updated_stops
      → r.origin ≡ origin
      → Fresh td origin 0 r.states
      → Holds Begun (set_origin td walk_sec past req r)
  unfolding set_origin
  set_origin-Begun r sized here fresh =
      let empty = bitset_reset-IsSized td.n_stops r.updated_stops sized in
      Holds-bind (λ bs. Assigns (bitset_reset r.updated_stops) r.origin true (some bs)) Begun
        (bitset_set (bitset_reset r.updated_stops) r.origin) _
        (holds (bitset_set (bitset_reset r.updated_stops) r.origin)
          (bitset_set-Assigns (bitset_reset r.updated_stops) r.origin empty.valid))
        λ bs (lt, valid, size, members). (
          λ j s le lj ls.
              subst (λ t. (t ≡ unreached) ⊎ ((zero ≡ zero) × (j ≡ 1) × IsStart td origin s))
                (sym (kept j s)) (fresh j s le lj ls),
          here,
          record { valid = valid; size = size ∙ empty.size },
          λ s c.
              sym (
                (==_iff r.origin s).0
                  (only _ _ _ (members s) ((bitset_reset_lem r.updated_stops sized.valid).2 s) c))
              ∙ here,
        )
    where
      holds :
          (o : Option BitSet)
          → Assigns (bitset_reset r.updated_stops) r.origin true o
          → Holds (λ bs. Assigns (bitset_reset r.updated_stops) r.origin true (some bs)) o
      holds none a = tt
      holds (some bs) a = a

      at_origin :
          (j s : ℕ)
          → (origin_states td walk_sec past req r j s).walk_time ≡ (r.states j s).walk_time
      at_origin j s =
          set_state-cases (λ st. st.walk_time ≡ (r.states j s).walk_time) r.states 1 r.origin j s _
            (λ p q.
              ap (λ x. (r.states x r.origin).walk_time) p ∙ ap (λ x. (r.states j x).walk_time) q)
            refl

      kept :
          (j s : ℕ)
          → (set_state
              (origin_states td walk_sec past req r)
              0
              r.origin
              (record (origin_states td walk_sec past req r 0 r.origin) { time = req.time })
              j
              s).walk_time
            ≡ (r.states j s).walk_time
      kept j s =
          set_state-cases (λ st. st.walk_time ≡ (r.states j s).walk_time)
            (origin_states td walk_sec past req r) 0 r.origin j s _
            (λ p q.
              at_origin 0 r.origin
              ∙ ap (λ x. (r.states x r.origin).walk_time) p
              ∙ ap (λ x. (r.states j x).walk_time) q)
            (at_origin j s)

  -- The walks from the origin, stored in round 1, are those of the start.
  walk-Fresh :
      (states : ℕ → ℕ → RouterState) (from to t : ℕ)
      → from ≡ origin
      → (to ≡ from) ⊎ IsTransfer td origin from to
      → Fresh td origin 0 states
      → Fresh td origin 0
          (set_state states 1 to (record (states 1 to) { walk_time = t; walk_from = from }))
  walk-Fresh states from to t here way fresh j s le lj ls =
      set_state-cases
        (λ st. (st.walk_time ≡ unreached) ⊎ ((zero ≡ zero) × (j ≡ 1) × IsStart td origin s)) states
        1 to j s _
        (λ p q. inr (
          refl,
          sym p,
          elim way [
            | inl e ↦ inl (sym q ∙ e ∙ here)
            | inr (t', lo, hi, at) ↦
                inr (subst (λ x. IsTransfer td origin x s) here (t', lo, hi, at ∙ q))
          ],
        ))
        (fresh j s le lj ls)

  -- Before round 0.
  start_at_stop-Searching :
      (r : Router)
      → IsSized td.n_stops r.updated_stops
      → r.origin ≡ origin
      → Fresh td origin 0 r.states
      → Holds (Searching td origin 0) (start_at_stop td walk_sec past req r)
  unfolding start_at_stop
  start_at_stop-Searching r sized here fresh =
      Holds-bind Begun (Searching td origin 0) (set_origin td walk_sec past req r) _
        (set_origin-Begun r sized here fresh)
        λ r1 b1.
          Holds-bind (Shrinks td.n_stops r1) (Searching td origin 0) (unflag_banned_stops td req r1)
            (apply_transfers td req walk_sec past 1) (unflag_banned_stops-Shrinks td req r1 b1.2)
            λ r2 less. walked r1 r2 b1 less (apply_transfers td req walk_sec past 1 r2) (
              apply_transfers-keeps td req walk_sec 1 r2.updated_stops origin (Fresh td origin 0)
                (λ states from to t lt c late way h.
                  walk-Fresh states from to t (b1.3 from (less.3 from c)) way h)
                past r2 wf.few_stops less.2
                (subst (Fresh td origin 0) (sym (less.0)) b1.0, refl, less.1 ∙ b1.1))
    where
      walked :
          (r1 r2 : Router)
          → Begun r1
          → Shrinks td.n_stops r1 r2
          → (o : Option Router)
          → Holds
              (λ r'.
                Fresh td origin 0 r'.states
                × (r'.updated_stops ≡ bitset_reset r2.updated_stops)
                × (r'.origin ≡ origin))
              o
          → Holds (Searching td origin 0) o
      walked r1 r2 b1 less none h = tt
      walked r1 r2 b1 less (some r') (fresh', empty, here') = record {
        sized =
            subst (IsSized td.n_stops) (sym empty)
              (bitset_reset-IsSized td.n_stops r2.updated_stops less.2);
        here = here';
        linked = λ j lt. absurd (omega arith);
        fresh = fresh';
        rode = λ x lx c. absurd (
            not_both _ ((bitset_reset_lem r2.updated_stops (less.2).valid).2 x)
              (subst (λ b. contains b x ≡ true) empty c));
      }

  pub search_from-Searching :
      (r : Router)
      → (req.from == onboard) ≡ false
      → IsSized td.n_stops r.updated_stops
      → r.origin ≡ origin
      → Fresh td origin 0 r.states
      → Holds
          (λ result. Searching td origin (n_rounds td walk_sec past req) result.2)
          (search_from td walk_sec past req r)
  unfolding search_from run_rounds
  search_from-Searching r at_stop sized here fresh =
      let n = n_rounds td walk_sec past req in
      rw at_stop (
        Holds-bind (Searching td origin 0)
          (λ (result : Bool × RouterRequest F × Router). Searching td origin n result.2)
          (start_at_stop td walk_sec past req r) _ (start_at_stop-Searching r sized here fresh)
          λ r1 s1.
            Holds-bind (Searching td origin n)
              (λ (result : Bool × RouterRequest F × Router). Searching td origin n result.2)
              (run_rounds td walk_sec past req r1) _
              (rounds-Searching td walk_sec past req wf origin n 0 n r1 (omega arith) (ground arith)
                s1)
              λ r2 s2. s2)
