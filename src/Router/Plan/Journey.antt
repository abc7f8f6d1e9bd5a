-- ===== src/Router/Plan/Journey.antt =====
-- The legs that the loop over the rounds in `router_result_to_plan` fills in.
pub mod Itineraries
use rrrr.Prelude.{
  ℕ, zero, suc, ◌+◌, ◌-◌, ◌*◌, ◌%◌, ◌≤◌, ◌<◌, ◌≡◌, ◌≢◌, ◌∙◌, refl, sym, subst, Bool, true, false,
  List, [], ◌∷◌, ltb, ◌==◌, not, ◌||◌, if◌then◌else◌, range_from, down_from, update, update_self,
  update_ne, arith, ==_iff, Bool-cases, inl, inr,
}
use rrrr.Rtime.{no_index, unreached, walk}
use rrrr.Tdata.{Tdata}
use rrrr.Router.{Router, RouterRequest, rrrr_max_rounds}
use rrrr.Router.Plan.{
  Leg, Itinerary, Plan, Trace, directed, next_place, put, leg_swap, walk_leg, ride_leg, turn,
  follow,
}

-- The legs `lo`, ..., `hi - 1` lead along the stops `s lo`, ..., `s hi`, and those at the even
-- places are walks.
abbrev pub Along : (ℕ → ℕ) → ℕ → ℕ → (ℕ → Leg) → Type 0
Along s lo hi legs =
    (i : ℕ)
    → lo ≤ i
    → i < hi
    → ((legs i).s0 ≡ s i) × ((legs i).s1 ≡ s (i + 1)) × (i % 2 ≡ 0 → (legs i).route ≡ walk)

-- `n` legs that lead from one stop to another.
abbrev pub IsJourney : ℕ → ℕ → ℕ → (ℕ → Leg) → Type 0
IsJourney from to n legs = (s : ℕ → ℕ) × (s 0 ≡ from) × (s n ≡ to) × Along s 0 n legs

-- What the places that a search has filled, up to the place `l`, look like: it works from the
-- target on, upwards when arriving by, else downwards.
abbrev pub Covers : Bool → ℕ → ℕ → Trace → Type 0
Covers true n target c = (s : ℕ → ℕ) × (s 0 ≡ target) × (s c.l ≡ c.stop) × Along s 0 c.l c.legs
Covers false n target c =
    (s : ℕ → ℕ) × (s n ≡ target) × (s (c.l + 1) ≡ c.stop) × Along s (c.l + 1) n c.legs

-- A leg put at the top of a stretch, or at the bottom.
Along-up :
    (s : ℕ → ℕ) (l : ℕ) (legs : ℕ → Leg) (leg : Leg)
    → Along s 0 l legs
    → leg.s0 ≡ s l
    → (l % 2 ≡ 0 → leg.route ≡ walk)
    → Along (update s (l + 1) leg.s1) 0 (l + 1) (update legs l leg)
Along-up s l legs leg h e w i lo hi = elim (Bool-cases (i == l)) [
  | inl q ↦
      let at_l : i ≡ l = (==_iff i l).0 q in
      rw
        (
          at_l,
          update_self legs l leg,
          update_self s (l + 1) leg.s1,
          update_ne s (l + 1) l leg.s1 (ground arith),
        )
        (e, refl, w)
  | inr q ↦
      rw
        (
          update_ne legs l i leg (ground arith),
          update_ne s (l + 1) i leg.s1 (ground arith),
          update_ne s (l + 1) (i + 1) leg.s1 (ground arith),
        )
        (h i lo (ground arith))
]

Along-down :
    (s : ℕ → ℕ) (l n : ℕ) (legs : ℕ → Leg) (leg : Leg)
    → Along s (l + 1) n legs
    → leg.s1 ≡ s (l + 1)
    → (l % 2 ≡ 0 → leg.route ≡ walk)
    → Along (update s l leg.s0) l n (update legs l leg)
Along-down s l n legs leg h e w i lo hi = elim (Bool-cases (i == l)) [
  | inl q ↦
      let at_l : i ≡ l = (==_iff i l).0 q in
      rw
        (
          at_l,
          update_self legs l leg,
          update_self s l leg.s0,
          update_ne s l (l + 1) leg.s0 (ground arith),
        )
        (refl, e, w)
  | inr q ↦
      rw
        (
          update_ne legs l i leg (ground arith),
          update_ne s l i leg.s0 (ground arith),
          update_ne s l (i + 1) leg.s0 (ground arith),
        )
        (h i (ground arith) hi)
]

-- A forward search has a place for another leg, below those it has filled.
abbrev pub HasRoom : Bool → ℕ → ℕ → Type 0
HasRoom true n l = Unit
HasRoom false n l = (0 < l) × (l < n)

abbrev pub put_trace : Bool → Leg → Trace → Trace
put_trace arrive leg c =
    let (legs, l) = put arrive leg (c.legs, c.l) in record { legs = legs; l = l; stop = leg.s0 }

put_trace-Covers :
    (arrive : Bool) (n target : ℕ) (leg : Leg) (c : Trace)
    → leg.s1 ≡ c.stop
    → (c.l % 2 ≡ 0 → leg.route ≡ walk)
    → HasRoom arrive n c.l
    → Covers arrive n target c
    → Covers arrive n target (put_trace arrive leg c)
put_trace-Covers true n target leg c e w room (s, first, last, along) = (
  update s (c.l + 1) leg.s0,
  update_ne s (c.l + 1) 0 leg.s0 (λ q. absurd (omega arith)) ∙ first,
  update_self s (c.l + 1) leg.s0,
  Along-up s c.l c.legs (leg_swap leg) along (e ∙ sym last) w,
)
put_trace-Covers false n target leg c e w room (s, first, last, along) =
    let back : c.l ≡ c.l - 1 + 1 = omega arith in
    let s' = update s c.l leg.s0 in
    (
      s',
      update_ne s c.l n leg.s0 (λ q. absurd (omega arith)) ∙ first,
      subst (λ l. s' l ≡ leg.s0) back (update_self s c.l leg.s0),
      subst (λ l. Along s' l n (update c.legs c.l leg)) back
          (Along-down s c.l n c.legs leg along (e ∙ sym last) w),
    )

next_place-odd :
    (arrive : Bool) (n l : ℕ) → l % 2 ≡ 0 → HasRoom arrive n l → next_place arrive l % 2 ≢ 0
next_place-odd true n l even room odd = absurd (omega arith)
next_place-odd false n l even room odd = absurd (omega arith)

-- The place is where a search stands that has `k` rounds left.
abbrev pub At : Bool → ℕ → ℕ → ℕ → Type 0
At true n k l = l + 2 * k + 1 ≡ n
At false n k l = (l ≡ 2 * k) × (2 * k < n)

At-HasRoom :
    (arrive : Bool) (n k l : ℕ)
    → At arrive n (suc k) l
    → HasRoom arrive n l × HasRoom arrive n (next_place arrive l)
At-HasRoom true n k l h = (tt, tt)
At-HasRoom false n k l h = ((omega arith, omega arith), (omega arith, omega arith))

At-next :
    (arrive : Bool) (n k l : ℕ)
    → At arrive n (suc k) l
    → At arrive n k (next_place arrive (next_place arrive l))
At-next true n k l h = omega arith
At-next false n k l h = (omega arith, omega arith)

At-even : (arrive : Bool) (n k l : ℕ) → n % 2 ≡ 1 → At arrive n k l → l % 2 ≡ 0
At-even true n k l odd h = omega arith
At-even false n k l odd h = omega arith

-- The last leg completes the journey.
last-IsJourney :
    (arrive : Bool) (n target : ℕ) (leg : Leg) (c : Trace)
    → leg.s1 ≡ c.stop
    → leg.route ≡ walk
    → At arrive n 0 c.l
    → Covers arrive n target c
    → IsJourney
        (if arrive then target else leg.s0)
        (if arrive then leg.s0 else target)
        n
        (update c.legs c.l (directed arrive leg))
last-IsJourney true n target leg c e w at (s, first, last, along) =
    let top : c.l + 1 ≡ n = omega arith in
    let s' = update s (c.l + 1) leg.s0 in
    let up = Along-up s c.l c.legs (leg_swap leg) along (e ∙ sym last) (λ q. w) in
    (
      s',
      update_ne s (c.l + 1) 0 leg.s0 (λ q. absurd (omega arith)) ∙ first,
      subst (λ l. s' l ≡ leg.s0) top (update_self s (c.l + 1) leg.s0),
      subst (λ l. Along s' 0 l (update c.legs c.l (leg_swap leg))) top up,
    )
last-IsJourney false n target leg c e w at (s, first, last, along) =
    let s' = update s c.l leg.s0 in
    let bottom : c.l ≡ 0 = omega arith in
    let down = Along-down s c.l n c.legs leg along (e ∙ sym last) (λ q. w) in
    (
      s',
      subst (λ l. s' l ≡ leg.s0) bottom (update_self s c.l leg.s0),
      update_ne s c.l n leg.s0 (λ q. absurd (omega arith)) ∙ first,
      subst (λ l. Along s' l n (update c.legs c.l leg)) bottom down,
    )

module _ (n_stops : ℕ) (router : Router) where
  -- The loop over these rounds goes on to the end from this stop: at each round the stop is in
  -- range and reached by walking, from a stop reached by riding.
  abbrev pub IsTraced : List ℕ → ℕ → Type 0
  IsTraced [] stop = Unit
  IsTraced (round ∷ rounds) stop =
      let ride_stop = (router.states round stop).walk_from in
      (stop ≤ n_stops)
      × ((router.states round stop).walk_time ≢ unreached)
      × ((router.states round ride_stop).time ≢ unreached)
      × IsTraced rounds (router.states round ride_stop).back_stop

  turn-Covers :
      (arrive : Bool) (n target round : ℕ) (c : Trace)
      → c.l % 2 ≡ 0
      → HasRoom arrive n c.l
      → HasRoom arrive n (next_place arrive c.l)
      → Covers arrive n target c
      → Covers arrive n target (turn n_stops router arrive round c)
  turn-Covers arrive n target round c even room room' h =
      let walk_l = walk_leg n_stops router round c.stop in
      let ride_l = ride_leg n_stops router round walk_l.s0 in
      put_trace-Covers arrive n target ride_l (put_trace arrive walk_l c) refl
        (λ q. absurd (next_place-odd arrive n c.l even room q)) room'
        (put_trace-Covers arrive n target walk_l c refl (λ q. refl) room h)

  turn-l :
      (arrive : Bool) (round : ℕ) (c : Trace)
      → (turn n_stops router arrive round c).l ≡ next_place arrive (next_place arrive c.l)
  turn-l arrive round c = refl

  follow-cons :
      (arrive : Bool) (round : ℕ) (rounds : List ℕ) (c : Trace)
      → IsTraced (round ∷ rounds) c.stop
      → follow n_stops router arrive (round ∷ rounds) c
        ≡ follow n_stops router arrive rounds (turn n_stops router arrive round c)
  unfolding follow
  follow-cons arrive round rounds c (h0, h1, h2, h3) =
      let in_range : ltb n_stops c.stop ≡ false = ground arith in
      let walked : ((router.states round c.stop).walk_time == unreached) ≡ false = ground arith in
      let rode : ((router.states round (router.states round c.stop).walk_from).time == unreached)
          ≡ false =
        ground arith in
      rw (in_range, walked, rode) refl

  follow-Covers :
      (arrive : Bool) (n target k : ℕ) (c : Trace)
      → n % 2 ≡ 1
      → IsTraced (down_from k) c.stop
      → At arrive n k c.l
      → Covers arrive n target c
      → let c' = follow n_stops router arrive (down_from k) c in
        At arrive n 0 c'.l × Covers arrive n target c'
  unfolding follow
  follow-Covers arrive n target zero c odd traced at h = (at, h)
  follow-Covers arrive n target (suc k) c odd traced at h =
      let room = At-HasRoom arrive n k c.l at in
      let next =
        follow-Covers arrive n target k (turn n_stops router arrive k c) odd traced.3
          (At-next arrive n k c.l at)
          (turn-Covers arrive n target k c (At-even arrive n (suc k) c.l odd at) room.0 room.1 h) in
      subst (λ c'. At arrive n 0 c'.l × Covers arrive n target c')
        (sym (follow-cons arrive k (down_from k) c traced)) next
