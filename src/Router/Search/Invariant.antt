-- ===== src/Router/Search/Invariant.antt =====
-- What every function of a search keeps, and that none of them exits: the bitsets stay valid, and
-- every time stored for a stop is UNREACHED or within the window of the search.
pub mod Sets
pub mod Riding
pub mod Walking
use rrrr.Prelude.{
  ℕ, zero, suc, ◌+◌, ◌≤◌, ◌<◌, ◌^◌, ◌≡◌, ◌⊎◌, refl, sym, subst, Bool, true, false, Option, none,
  some, arith, update, update-all, update_self, update_ne, ◌≢◌, inl, inr, Bool-cases, ==_iff, ◌==◌,
}
use Prim.Native.Nat.{compare, Ordering}
use rrrr.Rtime.{unreached, rtime_three_days}
use rrrr.BitSet.{BitSet}
use rrrr.BitSet.Laws.{IsValid}
use rrrr.Tdata.{Tdata}
use rrrr.Router.{Router, RouterState, RouterRequest, rrrr_max_rounds}
use rrrr.Router.Board.Order.{NoWorse}
use rrrr.Router.Ride.{set_state}

-- The indexes of a timetable point into its arrays.
pub record IsWellFormed (td : Tdata) : Type 0 where
  pub few_stops : td.n_stops + 64 < 2 ^ 32
  pub few_routes : td.n_routes + 64 < 2 ^ 32
  pub route_stops_lt : (i : ℕ) → td.route_stops i < td.n_stops
  pub stop_routes_lt : (i : ℕ) → td.stop_routes i < td.n_routes
  pub targets_lt : (i : ℕ) → td.transfer_target_stops i < td.n_stops

-- A request in range: its time is no reserved value, and its stops and bans exist.
pub record InRange {F : Type 0} (td : Tdata) (req : RouterRequest F) : Type 0 where
  pub time_le : req.time ≤ rtime_three_days
  pub from_lt : req.from < td.n_stops
  pub to_lt : req.to < td.n_stops
  pub banned_route_lt : (req.n_banned_routes ≡ 0) ⊎ (req.banned_route < td.n_routes)
  pub banned_stop_lt : (req.n_banned_stops ≡ 0) ⊎ (req.banned_stop < td.n_stops)

-- UNREACHED, or not before the time of the search (not after it, when arriving by), and not in the
-- reserved range.
abbrev pub Window : {F : Type 0} → RouterRequest F → ℕ → Type 0
Window req t = (t ≡ unreached) ⊎ ((t ≤ rtime_three_days) × NoWorse req.arrive_by req.time t)

-- A bitset of the router is valid and has one bit for each of `n` things.
pub record IsSized (n : ℕ) (bs : BitSet) : Type 0 where
  pub valid : IsValid bs
  pub size : bs.capacity ≡ n

abbrev pub StateIn : {F : Type 0} → RouterRequest F → RouterState → Type 0
StateIn req s = Window req s.time × Window req s.walk_time

pub record Inv {F : Type 0} (td : Tdata) (req : RouterRequest F) (r : Router) : Type 0 where
  pub stops : IsSized td.n_stops r.updated_stops
  pub routes : IsSized td.n_routes r.updated_routes
  pub origin : r.origin < td.n_stops
  pub best : (s : ℕ) → s < td.n_stops → Window req (r.best_time s)
  pub states : (k s : ℕ) → k < rrrr_max_rounds → s < td.n_stops → StateIn req (r.states k s)

-- What holds of the states and of a new one holds of the states after it is stored.
pub set_state-all :
    (P : RouterState → Type 0) (states : ℕ → ℕ → RouterState) (round stop k s : ℕ)
    (state : RouterState)
    → P state
    → P (states k s)
    → P (set_state states round stop state k s)
set_state-all P states round stop k s state p q = elim (Bool-cases (round == k)) [
  | inl e ↦
      let e' : round ≡ k = (==_iff round k).0 e in
      subst (λ t. P (set_state states round stop state t s)) e'
        (subst (λ (g : ℕ → RouterState). P (g s)) (sym (update_self states round _))
          (update-all P (states round) stop s state p (subst (λ t. P (states t s)) (sym e') q)))
  | inr e ↦
      subst (λ (g : ℕ → RouterState). P (g s)) (sym (update_ne states round k _ (ground arith))) q
]
