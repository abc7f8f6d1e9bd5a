-- ===== src/Router/Stoptime/Laws.antt =====
-- The overflow check of `tdata_stoptime` catches every wrap of the scheduled time.
use rrrr.Prelude.{ℕ, ◌+◌, ◌%◌, ◌^◌, ◌<◌, ◌≡◌, Bool, true, false, arith, ltb, if◌then◌else◌}
use rrrr.Rtime.{unreached}
use rrrr.Tdata.{Tdata, Trip}
use rrrr.Router.{ServiceDay}
use rrrr.Router.Stoptime.{tdata_depart, tdata_arrive, tdata_stoptime}

-- The time of the trip at the stop, counted from midnight of its service day.
abbrev pub scheduled : Tdata → Trip → ℕ → Bool → ℕ
scheduled td trip route_stop arrive =
    if arrive then tdata_arrive td trip route_stop else tdata_depart td trip route_stop

-- On any service day that begins at a router time, the stop time is UNREACHED if the scheduled
-- time plus the midnight passes the range of a router time; otherwise it is that sum, to which a
-- signed 16-bit delay (`delay`, or `2 ^ 16 - delay` below zero) is added on real-time days.
pub tdata_stoptime_lem :
    (td : Tdata) (trip : Trip) (route_stop : ℕ) (arrive : Bool) (day : ServiceDay)
    → day.midnight < 2 ^ 16
    → tdata_stoptime td trip route_stop arrive day ≡ (
        let sum = scheduled td trip route_stop arrive + day.midnight in
        if ltb sum (2 ^ 16)
        then (if day.apply_realtime then (sum + trip.realtime_delay) % 2 ^ 16 else sum)
        else unreached)
unfolding tdata_stoptime
tdata_stoptime_lem td trip route_stop true day h = ground arith
tdata_stoptime_lem td trip route_stop false day h = ground arith
