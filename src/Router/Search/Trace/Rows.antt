-- ===== src/Router/Search/Trace/Rows.antt =====
-- The steps of a round after its rides: `unflag_banned_stops`, `apply_transfers` and
-- `initialize_transfers`, in terms of the rows of states that they write.
use rrrr.Prelude.{
  ℕ, zero, suc, ◌+◌, ◌-◌, ◌≤◌, ◌<◌, ◌≡◌, ◌≢◌, ◌⊎◌, ◌∙◌, refl, sym, ap, subst, true, false, Option,
  none, some, arith, ◌==◌, if◌then◌else◌, inl, inr, Bool-cases, ==_iff, All-any, range_from,
}
use rrrr.Prelude.Effects.{for_each, Holds, Holds-bind, Holds-for_each}
use rrrr.Rtime.{unreached}
use rrrr.BitSet.{BitSet, bitset_unset}
use rrrr.BitSet.Laws.{Assigns, bitset_unset-Assigns, contains}
use rrrr.Tdata.{Tdata}
use rrrr.Router.{Router, RouterState, RouterRequest, rrrr_max_rounds}
use rrrr.Router.Ride.{set_state}
use rrrr.Router.Transfers.{unflag_banned_stops, forget_walk, initialize_transfers}
use rrrr.Router.Search.Invariant.{IsSized}
use rrrr.Router.Search.Trace.{
  set_state-cases, set_state-row, set_state_self, WasReached, Rode, Linked, IsTransfer, IsStart,
}

-- Fewer stops are flagged, and nothing else differs in the states.
abbrev pub Shrinks : ℕ → Router → Router → Type 0
Shrinks n r r' =
    (r'.states ≡ r.states)
    × (r'.origin ≡ r.origin)
    × IsSized n r'.updated_stops
    × ((s : ℕ) → contains r'.updated_stops s ≡ true → contains r.updated_stops s ≡ true)

module _ {F : Type 0} (td : Tdata) (req : RouterRequest F) where
  pub unflag_banned_stops-Shrinks :
      (r : Router)
      → IsSized td.n_stops r.updated_stops
      → Holds (Shrinks td.n_stops r) (unflag_banned_stops td req r)
  unfolding unflag_banned_stops
  unflag_banned_stops-Shrinks r sized =
      Holds-for_each (λ _. Unit) (Shrinks td.n_stops r) _
        (λ i r' _ h.
          Holds-bind (λ bs. Assigns r'.updated_stops req.banned_stop false (some bs))
            (Shrinks td.n_stops r) (bitset_unset r'.updated_stops req.banned_stop)
            (λ stops. some (record r' { updated_stops = stops }))
            (holds r'.updated_stops (bitset_unset r'.updated_stops req.banned_stop)
              (bitset_unset-Assigns r'.updated_stops req.banned_stop (h.2).valid))
            λ bs (lt, valid, size, members). (
              h.0,
              h.1,
              record { valid = valid; size = size ∙ (h.2).size },
              λ s c. h.3 s (less bs r'.updated_stops s c (members s)),
            ))
        (range_from 0 req.n_banned_stops) r (All-any (range_from 0 req.n_banned_stops))
        (refl, refl, sized, λ s c. c)
    where
      holds :
          (bs : BitSet) (o : Option BitSet)
          → Assigns bs req.banned_stop false o
          → Holds (λ bs'. Assigns bs req.banned_stop false (some bs')) o
      holds bs none a = tt
      holds bs (some bs') a = a

      less :
          (bs old : BitSet) (s : ℕ)
          → contains bs s ≡ true
          → contains bs s ≡ (if req.banned_stop == s then false else contains old s)
          → contains old s ≡ true
      less bs old s c e = ground arith

-- A ride stays where its state's time and the stop it began at stay, as do the walks of the round
-- before.
Rode-moved :
    (n : ℕ) (states states' : ℕ → ℕ → RouterState) (k s : ℕ)
    → ((b : ℕ) → WasReached states k b → WasReached states' k b)
    → (states' k s).time ≡ (states k s).time
    → (states' k s).back_stop ≡ (states k s).back_stop
    → Rode n states k s
    → Rode n states' k s
Rode-moved n states states' k s below et eb (t, b, w) = (
  (λ e. t (sym et ∙ e)),
  subst (λ x. x < n) (sym eb) b,
  subst (WasReached states' k) (sym eb) (below _ w),
)

-- One walk stored in row `round` of the states.
module _ (n : ℕ) (states : ℕ → ℕ → RouterState) (round to t from : ℕ) where
  abbrev walked : ℕ → ℕ → RouterState
  walked = set_state states round to (record (states round to) { walk_time = t; walk_from = from })

  walked-WasReached : (j : ℕ) → j ≤ round → (b : ℕ) → WasReached states j b → WasReached walked j b
  walked-WasReached zero le b h = tt
  walked-WasReached (suc i) le b h =
      subst (λ (g : ℕ → RouterState). (g b).walk_time ≢ unreached)
        (sym (set_state-row states round to i _ (λ e. absurd (omega arith)))) h

  walked-Rode : (k s : ℕ) → k ≤ round → Rode n states k s → Rode n walked k s
  walked-Rode k s le h =
      Rode-moved n states walked k s (walked-WasReached k le)
        (set_state-cases (λ st. st.time ≡ (states k s).time) states round to k s _
          (λ p q. ap (λ x. (states x to).time) p ∙ ap (λ x. (states k x).time) q) refl)
        (set_state-cases (λ st. st.back_stop ≡ (states k s).back_stop) states round to k s _
          (λ p q. ap (λ x. (states x to).back_stop) p ∙ ap (λ x. (states k x).back_stop) q) refl)
        h

  walked-Linked :
      (k : ℕ) → k ≤ round → Rode n states round from → Linked n states k → Linked n walked k
  walked-Linked k le rode h s lt =
      set_state-cases (λ st. st.walk_time ≢ unreached → Rode n walked k st.walk_from) states round
        to k s _
        (λ p q reached.
          subst (λ x. Rode n walked x from) p (walked-Rode round from (omega arith) rode))
        (λ reached. walked-Rode k _ le (h s lt reached))

  walked-unreached :
      (j s : ℕ)
      → round < j
      → (states j s).walk_time ≡ unreached
      → (walked j s).walk_time ≡ unreached
  walked-unreached j s lt e =
      subst (λ (g : ℕ → RouterState). (g s).walk_time ≡ unreached)
        (sym (set_state-row states round to j _ (λ q. absurd (omega arith)))) e

module _ (td : Tdata) (origin : ℕ) where
  -- What the transfers of round `k` keep: the stops of the set were ridden to, and the rows up to
  -- `k` are linked.
  abbrev pub Walks : ℕ → BitSet → (ℕ → ℕ → RouterState) → Type 0
  Walks k bs states =
      ((j : ℕ) → j ≤ k → Linked td.n_stops states j)
      × ((j s : ℕ)
          → k < j
          → j < rrrr_max_rounds
          → s < td.n_stops
          → ((states j s).walk_time ≡ unreached) ⊎ ((k ≡ 0) × (j ≡ 1) × IsStart td origin s))
      × ((s : ℕ) → s < td.n_stops → contains bs s ≡ true → Rode td.n_stops states k s)

  pub walked-Walks :
      (k : ℕ) (bs : BitSet) (states : ℕ → ℕ → RouterState) (from to t : ℕ)
      → from < td.n_stops
      → contains bs from ≡ true
      → (states k from).time ≢ unreached
      → (to ≡ from) ⊎ IsTransfer td origin from to
      → Walks k bs states
      → Walks k bs
          (set_state states k to (record (states k to) { walk_time = t; walk_from = from }))
  walked-Walks k bs states from to t lt c late way (linked, fresh, rode) = (
    λ j le. walked-Linked td.n_stops states k to t from j le (rode from lt c) (linked j le),
    λ j s up lj ls. elim (fresh j s up lj ls) [
      | inl e ↦ inl (walked-unreached td.n_stops states k to t from j s up e)
      | inr e ↦ inr e
    ],
    λ s ls cs. walked-Rode td.n_stops states k to t from k s (omega arith) (rode s ls cs),
  )

  -- What holds while the walks of round 1 at the start are forgotten: those left are in `X`.
  abbrev pub Forgetting : (ℕ → Type 0) → BitSet → Router → Type 0
  Forgetting X bs r =
      (r.updated_stops ≡ bs)
      × (r.origin ≡ origin)
      × Linked td.n_stops r.states 0
      × ((j s : ℕ)
          → 0 < j
          → j < rrrr_max_rounds
          → s < td.n_stops
          → ((r.states j s).walk_time ≡ unreached) ⊎ ((j ≡ 1) × X s))

module _ {F : Type 0} (td : Tdata) (req : RouterRequest F) (origin : ℕ) (bs : BitSet) where
  forget_walk-Forgetting :
      (X Y : ℕ → Type 0) (stop : ℕ) (r : Router)
      → ((s : ℕ) → X s → (s ≡ stop) ⊎ Y s)
      → Forgetting td origin X bs r
      → Holds (Forgetting td origin Y bs) (forget_walk td req 1 stop r)
  forget_walk-Forgetting X Y stop r split (same, here, linked, fresh) = (
    same,
    here,
    subst
        (λ (row : ℕ → RouterState).
          (s : ℕ)
          → s < td.n_stops
          → (row s).walk_time ≢ unreached
          → ((row (row s).walk_from).time ≢ unreached)
            × ((row (row s).walk_from).back_stop < td.n_stops)
            × Unit {0})
        (sym (set_state-row r.states 1 stop 0 state (λ e. absurd (omega arith)))) linked,
    λ j s up lj ls. elim (fresh j s up lj ls) [
      | inl e ↦ inl (cleared j s e)
      | inr (first, x) ↦ elim (split s x) [
        | inl at ↦ inl (
            rw (first, at)
              (ap (λ (st : RouterState). st.walk_time) (set_state_self r.states 1 stop state)))
        | inr y ↦ inr (first, y)
      ]
    ],
  )
    where
      state : RouterState
      state = record (r.states 1 stop) { walk_time = unreached }

      cleared :
          (j s : ℕ)
          → (r.states j s).walk_time ≡ unreached
          → (set_state r.states 1 stop state j s).walk_time ≡ unreached
      cleared j s e =
          set_state-cases (λ st. st.walk_time ≡ unreached) r.states 1 stop j s state (λ p q. refl) e

  -- The targets of the transfers from `i` on.
  abbrev Left : ℕ → ℕ → ℕ → Type 0
  Left i hi s = (t : ℕ) × (i ≤ t) × (t < hi) × (td.transfer_target_stops t ≡ s)

  forget_targets :
      (m i hi : ℕ) (r : Router)
      → m ≡ hi - i
      → Forgetting td origin (Left i hi) bs r
      → Holds
          (Forgetting td origin (λ _. ⊥) bs)
          (for_each (range_from i m) (λ t. forget_walk td req 1 (td.transfer_target_stops t)) r)
  unfolding for_each
  forget_targets zero i hi r e h = (
    h.0,
    h.1,
    h.2,
    λ j s up lj ls. elim (h.3 j s up lj ls) [
      | inl q ↦ inl q
      | inr (first, (t, lo, up', at)) ↦ absurd (omega arith)
    ],
  )
  forget_targets (suc m) i hi r e h =
      Holds-bind (Forgetting td origin (Left (i + 1) hi) bs) (Forgetting td origin (λ _. ⊥) bs)
        (forget_walk td req 1 (td.transfer_target_stops i) r)
        (for_each (range_from (i + 1) m) (λ t. forget_walk td req 1 (td.transfer_target_stops t)))
        (forget_walk-Forgetting (Left i hi) (Left (i + 1) hi) (td.transfer_target_stops i) r split
          h)
        λ r' h'. forget_targets m (i + 1) hi r' (omega arith) h'
    where
      split : (s : ℕ) → Left i hi s → (s ≡ td.transfer_target_stops i) ⊎ Left (i + 1) hi s
      split s (t, lo, up, at) = elim (Bool-cases (t == i)) [
        | inl q ↦ inl (sym at ∙ ap td.transfer_target_stops ((==_iff t i).0 q))
        | inr q ↦ inr (t, ground arith, up, at)
      ]

  -- Once round 0 is over, the walks from the start are forgotten.
  pub initialize_transfers-Forgetting :
      (r : Router)
      → Forgetting td origin (IsStart td origin) bs r
      → Holds (Forgetting td origin (λ _. ⊥) bs) (initialize_transfers td req 1 origin r)
  unfolding initialize_transfers
  initialize_transfers-Forgetting r h =
      let lo = (td.stops origin).transfers_offset in
      let hi = (td.stops (origin + 1)).transfers_offset in
      Holds-bind (Forgetting td origin (Left lo hi) bs) (Forgetting td origin (λ _. ⊥) bs)
        (forget_walk td req 1 origin r)
        (for_each (range_from lo (hi - lo))
          (λ t. forget_walk td req 1 (td.transfer_target_stops t)))
        (forget_walk-Forgetting (IsStart td origin) (Left lo hi) origin r (λ s x. x) h)
        λ r' h'. forget_targets (hi - lo) lo hi r' refl h'
