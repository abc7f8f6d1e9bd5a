-- ===== src/Router/Stoptime.antt =====
-- `tdata_depart`, `tdata_arrive` and `tdata_stoptime` of router.c.
pub mod Laws
use rrrr.Prelude.{ℕ, ◌+◌, ◌%◌, ◌^◌, Bool, ltb, if◌then◌else◌}
use rrrr.Rtime.{unreached}
use rrrr.Tdata.{Tdata, Trip, StopTime}
use rrrr.Router.{ServiceDay}

module _ (td : Tdata) (trip : Trip) (route_stop : ℕ) where
  unfoldable pub tdata_depart : ℕ
  tdata_depart =
      (trip.begin_time + (td.stop_times (trip.stop_times_offset + route_stop)).departure) % 2 ^ 16

  pub tdata_arrive : ℕ
  tdata_arrive =
      (trip.begin_time + (td.stop_times (trip.stop_times_offset + route_stop)).arrival) % 2 ^ 16

  -- Adding the bit pattern of the signed delay modulo 2 ^ 16 adds the delay.
  unfoldable pub tdata_stoptime : Bool → ServiceDay → ℕ
  unfolding tdata_depart tdata_arrive
  tdata_stoptime arrive serviceday =
      let time = if arrive then tdata_arrive else tdata_depart in
      let time_adjusted = (time + serviceday.midnight) % 2 ^ 16 in
      if ltb time_adjusted time
      then unreached
      else (if serviceday.apply_realtime
          then (time_adjusted + trip.realtime_delay) % 2 ^ 16
          else time_adjusted)
