-- ===== src/Router/Request/Laws.antt =====
-- What reversing and advancing a request do.
use rrrr.Prelude.{
  ℕ, zero, suc, ◌+◌, ◌-◌, ◌≤◌, ◌<◌, ◌≡◌, ◌≢◌, ◌⊎◌, refl, Bool, true, false, arith, inl, inr,
  Bool-cases, leb, ◌==◌, not, if◌then◌else◌, range_from, sym, subst, ==_iff,
}
use rrrr.Rtime.{no_index, unreached}
use rrrr.Router.{Router, RouterRequest, rrrr_max_rounds}
use rrrr.Router.Request.{
  o_transfers, reached_round, reverse_at, reverse_stop, router_request_reverse,
}

module _ (router : Router) (stop : ℕ) where
  -- The stop was reached in round `r`.
  abbrev pub WasReached : ℕ → Type 0
  WasReached r = (router.states r stop).walk_time ≢ unreached

  -- The stop was reached in no round from `i` up to `hi`.
  abbrev pub NotReached : ℕ → ℕ → Type 0
  NotReached i hi = (r : ℕ) → i ≤ r → r < hi → (router.states r stop).walk_time ≡ unreached

  -- The first of the rounds in which the stop was reached, or the last of them.
  abbrev pub Extreme : Bool → ℕ → ℕ → ℕ → Type 0
  Extreme true i hi r = NotReached i r
  Extreme false i hi r = NotReached (r + 1) hi

  -- What the loop over `n` rounds from `i` on returns, with `round` found before.
  abbrev pub Chosen : ℕ → ℕ → ℕ → ℕ → ℕ → Type 0
  Chosen optimise i hi round r =
      ((r ≡ round) × NotReached i hi)
      ⊎ ((i ≤ r) × (r < hi) × WasReached r × Extreme (optimise == o_transfers) i hi r)

  NotReached-cons :
      (i hi : ℕ)
      → (router.states i stop).walk_time ≡ unreached
      → NotReached (i + 1) hi
      → NotReached i hi
  NotReached-cons i hi h rest r lo lt = elim (Bool-cases (i == r)) [
    | inl e ↦
        let e' : i ≡ r = (==_iff i r).0 e in
        subst (λ r. (router.states r stop).walk_time ≡ unreached) e' h
    | inr e ↦ rest r (ground arith) lt
  ]

  Extreme-cons :
      (b : Bool) (i hi r : ℕ)
      → (router.states i stop).walk_time ≡ unreached
      → Extreme b (i + 1) hi r
      → Extreme b i hi r
  Extreme-cons true i hi r h e = NotReached-cons i r h e
  Extreme-cons false i hi r h e = e

  module _ (optimise : ℕ) where
    skip-Chosen :
        (i hi round r : ℕ)
        → (router.states i stop).walk_time ≡ unreached
        → Chosen optimise (i + 1) hi round r
        → Chosen optimise i hi round r
    skip-Chosen i hi round r h (inl c) = inl (c.0, NotReached-cons i hi h c.1)
    skip-Chosen i hi round r h (inr c) =
        inr (omega arith, c.1, c.2, Extreme-cons (optimise == o_transfers) i hi r h c.3)

    -- A later round replaces the one found, unless the first one is wanted.
    last-Chosen :
        (i hi round r : ℕ)
        → WasReached i
        → i < hi
        → (optimise == o_transfers) ≡ false
        → Chosen optimise (i + 1) hi i r
        → Chosen optimise i hi round r
    last-Chosen i hi round r h lt q (inl c) =
        rw (c.0) (inr (omega arith, lt, h, rw (q, Extreme) c.1))
    last-Chosen i hi round r h lt q (inr c) =
        inr (omega arith, c.1, c.2, rw (q, Extreme) (rw (q, Extreme) at (c.3)))

    -- One turn of the loop: the round is skipped, taken, or taken for now.
    step-Chosen :
        (i hi round last skip : ℕ)
        → i < hi
        → Chosen optimise (i + 1) hi round skip
        → Chosen optimise (i + 1) hi i last
        → Chosen optimise i hi round (
            if (router.states i stop).walk_time == unreached
            then skip
            else (if optimise == o_transfers then i else last))
    step-Chosen i hi round last skip lt s l =
        elim (Bool-cases ((router.states i stop).walk_time == unreached)) [
          | inl p ↦
              subst
                (λ b.
                  Chosen optimise i hi round
                    (if b then skip else (if optimise == o_transfers then i else last)))
                (sym p) (skip-Chosen i hi round skip ((==_iff _ _).0 p) s)
          | inr p ↦
              subst
                (λ b.
                  Chosen optimise i hi round
                    (if b then skip else (if optimise == o_transfers then i else last)))
                (sym p) (taken (ground arith))
        ]
      where
        by_optimise :
            (b : Bool)
            → (optimise == o_transfers) ≡ b
            → WasReached i
            → Chosen optimise i hi round (if b then i else last)
        by_optimise true q h = inr (
          omega arith,
          lt,
          h,
          subst (λ b. Extreme b i hi i) (sym q) (λ r lo up. absurd (omega arith)),
        )
        by_optimise false q h = last-Chosen i hi round last h lt q l

        taken :
            WasReached i → Chosen optimise i hi round (if optimise == o_transfers then i else last)
        taken h = by_optimise (optimise == o_transfers) refl h

    pub reached_round-Chosen :
        (n i hi round : ℕ)
        → i + n ≡ hi
        → Chosen optimise i hi round (reached_round router optimise stop (range_from i n) round)
    unfolding reached_round
    reached_round-Chosen zero i hi round e = inl (refl, λ r lo lt. absurd (omega arith))
    reached_round-Chosen (suc n) i hi round e =
        step-Chosen i hi round _ _ (omega arith)
          (reached_round-Chosen n (i + 1) hi round (omega arith))
          (reached_round-Chosen n (i + 1) hi i (omega arith))

-- The last round that reversing looks at, and the outcomes of reversing.
abbrev pub n_reversed : {F : Type 0} → RouterRequest F → ℕ
n_reversed req =
    (if leb rrrr_max_rounds req.max_transfers then rrrr_max_rounds - 1 else req.max_transfers) + 1

module _ {F : Type 0} (router : Router) (req : RouterRequest F) where
  abbrev pub Fails : Bool × RouterRequest F → Type 0
  Fails out = (out ≡ (false, req)) × NotReached router (reverse_stop req) 0 (n_reversed req)

  abbrev pub ReversesAt : ℕ → Bool × RouterRequest F → Type 0
  ReversesAt round out =
      (round < n_reversed req)
      × WasReached router (reverse_stop req) round
      × Extreme router (reverse_stop req) (req.optimise == o_transfers) 0 (n_reversed req) round
      × (out.0 ≡ true)
      × (out.1.max_transfers ≡ round)
      × (out.1.time ≡ (router.states round (reverse_stop req)).walk_time)
      × (out.1.time_cutoff ≡ req.time)
      × (out.1.arrive_by ≡ not req.arrive_by)

  n_reversed-lt : n_reversed req ≤ rrrr_max_rounds
  n_reversed-lt = ground arith

  reverse_at-Fails : (round : ℕ) → round ≡ no_index → reverse_at router req round ≡ (false, req)
  reverse_at-Fails round e = rw e refl

  reverse_at-succeeds :
      (round : ℕ)
      → (round == no_index) ≡ false
      → let out = reverse_at router req round in
        (out.0 ≡ true)
        × (out.1.max_transfers ≡ round)
        × (out.1.time ≡ (router.states round (reverse_stop req)).walk_time)
        × (out.1.time_cutoff ≡ req.time)
        × (out.1.arrive_by ≡ not req.arrive_by)
  reverse_at-succeeds round e = rw e (refl, refl, refl, refl, refl)

  reverse_at-outcome :
      (round : ℕ)
      → Chosen router (reverse_stop req) req.optimise 0 (n_reversed req) no_index round
      → Fails (reverse_at router req round) ⊎ ((r : ℕ) × ReversesAt r (reverse_at router req round))
  reverse_at-outcome round (inl c) = inl (reverse_at-Fails round (c.0), c.1)
  reverse_at-outcome round (inr c) =
      let h : (round == no_index) ≡ false = found (n_reversed-lt) c.1 in
      let ok = reverse_at-succeeds round h in
      inr (round, (c.1, c.2, c.3, ok.0, ok.1, ok.2, ok.3, ok.4))
    where
      found :
          n_reversed req ≤ rrrr_max_rounds → round < n_reversed req → (round == no_index) ≡ false
      found a b = ground arith

  reverse_lem :
      router_request_reverse router req
      ≡ reverse_at router req (
          reached_round router req.optimise
            (reverse_stop req)
            (range_from 0 (n_reversed req))
            no_index)
  unfolding router_request_reverse
  reverse_lem = refl

  -- Reversing a request fails, and leaves the request as it was, exactly when the stop that the
  -- search was for (the origin when arriving by, else the destination) was reached by walking in no
  -- round up to the requested number of transfers, at most five. Otherwise it takes the first such
  -- round when optimising transfers, else the last, which becomes the number of transfers; the old
  -- time becomes the cutoff, the time in that round the new time, and the direction is turned.
  pub router_request_reverse-outcome :
      Fails (router_request_reverse router req)
      ⊎ ((round : ℕ) × ReversesAt round (router_request_reverse router req))
  router_request_reverse-outcome =
      subst (λ out. Fails out ⊎ ((round : ℕ) × ReversesAt round out)) (sym reverse_lem)
        (reverse_at-outcome _ (
          reached_round-Chosen router (reverse_stop req) req.optimise (n_reversed req) 0
            (n_reversed req) no_index (omega arith)))
