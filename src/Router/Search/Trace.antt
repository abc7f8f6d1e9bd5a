-- ===== src/Router/Search/Trace.antt =====
-- The chain of states behind a stop that a search reached: what each round of a search keeps, so
-- that every stop it reaches can be traced back to the origin.
pub mod Riding
pub mod Walking
pub mod Rows
pub mod Start
pub mod Rounds
use rrrr.Prelude.{
  ℕ, zero, suc, ◌+◌, ◌-◌, ◌≤◌, ◌<◌, ◌≡◌, ◌≢◌, ◌⊎◌, refl, sym, ap, ◌∙◌, subst, true, arith, ◌==◌,
  Bool-cases, ==_iff, inl, inr, update, update_self, update_ne, List, range_from,
}
use rrrr.Rtime.{unreached}
use rrrr.BitSet.Laws.{contains}
use rrrr.Tdata.{Tdata}
use rrrr.Router.{Router, RouterState, rrrr_max_rounds}
use rrrr.Router.Ride.{set_state}
use rrrr.Router.Search.Invariant.{IsSized}

-- What holds of the states elsewhere, and of a new one at its place, holds after it is stored.
pub set_state-cases :
    (P : RouterState → Type 0) (states : ℕ → ℕ → RouterState) (round stop k s : ℕ)
    (state : RouterState)
    → (round ≡ k → stop ≡ s → P state)
    → P (states k s)
    → P (set_state states round stop state k s)
set_state-cases P states round stop k s state p q = elim (Bool-cases (round == k)) [
  | inl e ↦
      let at_k : round ≡ k = (==_iff round k).0 e in
      subst (λ t. P (set_state states round stop state t s)) at_k
        (subst (λ (g : ℕ → RouterState). P (g s)) (sym (update_self states round _))
          (in_row at_k (subst (λ t. P (states t s)) (sym at_k) q)))
  | inr e ↦
      subst (λ (g : ℕ → RouterState). P (g s)) (sym (update_ne states round k _ (ground arith))) q
]
  where
    in_row : round ≡ k → P (states round s) → P (update (states round) stop state s)
    in_row at_k old = elim (Bool-cases (stop == s)) [
      | inl e ↦
          let at_s : stop ≡ s = (==_iff stop s).0 e in
          subst (λ t. P (update (states round) stop state t)) at_s
            (subst P (sym (update_self (states round) stop state)) (p at_k at_s))
      | inr e ↦ subst P (sym (update_ne (states round) stop s state (ground arith))) old
    ]

-- The rows of the other rounds are not touched.
pub set_state-row :
    (states : ℕ → ℕ → RouterState) (round stop k : ℕ) (state : RouterState)
    → round ≢ k
    → set_state states round stop state k ≡ states k
set_state-row states round stop k state ne = update_ne states round k _ ne

pub set_state_self :
    (states : ℕ → ℕ → RouterState) (round stop : ℕ) (state : RouterState)
    → set_state states round stop state round stop ≡ state
set_state_self states round stop state =
    ap (λ (g : ℕ → RouterState). g stop)
      (update_self states round (update (states round) stop state))
    ∙ update_self (states round) stop state

-- The stop was reached by walking in the round before, if there is one.
abbrev pub WasReached : (ℕ → ℕ → RouterState) → ℕ → ℕ → Type 0
WasReached states zero stop = Unit
WasReached states (suc k) stop = (states k stop).walk_time ≢ unreached

-- The ride to a stop in a round: it took a time, and began at a stop reached in the round before.
abbrev pub Rode : ℕ → (ℕ → ℕ → RouterState) → ℕ → ℕ → Type 0
Rode n states k stop =
    ((states k stop).time ≢ unreached)
    × ((states k stop).back_stop < n)
    × WasReached states k (states k stop).back_stop

-- Each stop reached by walking in a round was reached from a stop to which one rode.
abbrev pub Linked : ℕ → (ℕ → ℕ → RouterState) → ℕ → Type 0
Linked n states k =
    (stop : ℕ)
    → stop < n
    → (states k stop).walk_time ≢ unreached
    → Rode n states k (states k stop).walk_from

module _ (td : Tdata) (origin : ℕ) where
  -- A transfer from one stop leads to another.
  abbrev pub IsTransfer : ℕ → ℕ → Type 0
  IsTransfer from to =
      (t : ℕ) × ((td.stops from).transfers_offset ≤ t)
      × (t < (td.stops (from + 1)).transfers_offset)
      × (td.transfer_target_stops t ≡ to)

  -- The stops whose state of round 1 holds the start of the search.
  abbrev pub IsStart : ℕ → Type 0
  IsStart stop = (stop ≡ origin) ⊎ IsTransfer origin stop

  -- No stop has been reached by walking in the rounds from `k` on, but for the start of the search
  -- that round 1 holds before round 0.
  abbrev pub Fresh : ℕ → (ℕ → ℕ → RouterState) → Type 0
  Fresh k states =
      (j stop : ℕ)
      → k ≤ j
      → j < rrrr_max_rounds
      → stop < td.n_stops
      → ((states j stop).walk_time ≡ unreached) ⊎ ((k ≡ 0) × (j ≡ 1) × IsStart stop)

  pub record Searching (k : ℕ) (r : Router) : Type 0 where
    pub sized : IsSized td.n_stops r.updated_stops
    pub here : r.origin ≡ origin
    pub linked : (j : ℕ) → j < k → Linked td.n_stops r.states j
    pub fresh : Fresh k r.states
    pub rode :
        (stop : ℕ)
        → stop < td.n_stops
        → contains r.updated_stops stop ≡ true
        → Rode td.n_stops r.states k stop
