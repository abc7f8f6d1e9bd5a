-- ===== src/Router.antt =====
-- router.h and router.c: the RAPTOR search. This file has the structures; the functions are in
-- the children, in the order in which a search calls them.
pub mod Stoptime
pub mod Board
pub mod Ride
pub mod Transfers
pub mod Search
pub mod Setup
pub mod Request
pub mod Plan
pub mod Tests
use rrrr.Prelude.{ℕ, ◌^◌, Bool}
use rrrr.BitSet.{BitSet}

-- RRRR_MAX_ROUNDS (config.h)
abbrev pub rrrr_max_rounds : ℕ
rrrr_max_rounds = 6

-- `router_state_t`
pub record RouterState : Type 0 where
  pub back_stop : ℕ
  pub back_route : ℕ
  pub back_trip : ℕ
  pub time : ℕ
  pub board_time : ℕ
  pub walk_from : ℕ
  pub walk_time : ℕ

-- `serviceday_t`
pub record ServiceDay : Type 0 where
  pub midnight : ℕ
  pub mask : ℕ
  pub apply_realtime : Bool

-- `router_t`, but for the pointer to the timetable, which the functions take as an argument.
-- `states` is indexed by round and stop. `servicedays[3]` is three fields.
pub record Router : Type 0 where
  pub best_time : ℕ → ℕ
  pub states : ℕ → ℕ → RouterState
  pub updated_stops : BitSet
  pub updated_routes : BitSet
  pub origin : ℕ
  pub target : ℕ
  pub day_mask : ℕ
  pub serviceday0 : ServiceDay
  pub serviceday1 : ServiceDay
  pub serviceday2 : ServiceDay

-- `router_request_t`. `F` is the type of the floating-point walking speed.
pub record RouterRequest (F : Type 0) : Type 0 where
  pub from : ℕ
  pub to : ℕ
  pub via : ℕ
  pub start_trip_route : ℕ
  pub start_trip_trip : ℕ
  pub time : ℕ
  pub time_cutoff : ℕ
  pub walk_speed : F
  pub walk_slack : ℕ
  pub arrive_by : Bool
  pub time_rounded : Bool
  pub max_transfers : ℕ
  pub day_mask : ℕ
  pub mode : ℕ
  pub agency : ℕ
  pub trip_attributes : ℕ
  pub optimise : ℕ
  pub n_banned_routes : ℕ
  pub n_banned_stops : ℕ
  pub n_banned_stops_hard : ℕ
  pub n_banned_trips : ℕ
  pub banned_route : ℕ
  pub banned_stop : ℕ
  pub banned_trip_route : ℕ
  pub banned_trip_offset : ℕ
  pub banned_stop_hard : ℕ
  pub intermediatestops : Bool
