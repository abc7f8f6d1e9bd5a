-- ===== src/Router/Request.antt =====
-- router.c: setting up, reversing and advancing a request.
pub mod Laws
use rrrr.Prelude.{
  ℕ, zero, suc, ◌+◌, ◌-◌, ◌*◌, ◌/◌, ◌%◌, ◌^◌, Bool, true, false, Option, none, some, List, [], ◌∷◌,
  ltb, leb, ◌==◌, not, ◌&&◌, ◌||◌, if◌then◌else◌, range_from,
}
use rrrr.Rtime.{no_index, unreached, agency_unfiltered, rtime_one_day, sec_in_one_day}
use rrrr.Router.{Router, RouterRequest, rrrr_max_rounds}

-- `o_transfers`, `o_all` and `m_all`
abbrev pub o_transfers : ℕ
o_transfers = 2

abbrev pub o_all : ℕ
o_all = 255

abbrev pub m_all : ℕ
m_all = 255

-- The loop of `router_request_reverse` over the rounds `r` on, with the `round` found so far.
unfoldable pub reached_round : Router → ℕ → ℕ → List ℕ → ℕ → ℕ
reached_round router optimise stop [] round = round
reached_round router optimise stop (r ∷ rs) round =
    let last = reached_round router optimise stop rs r in
    let skip = reached_round router optimise stop rs round in
    if (router.states r stop).walk_time == unreached
    then skip
    else (if optimise == o_transfers then r else last)

-- The day of `router_request_from_epoch`, `(mktime(&origin_tm) - calendar_start_time) /
-- SEC_IN_ONE_DAY` in a uint32_t; a day past 31 wraps to the first four weeks.
abbrev pub calendar_day : ℕ → ℕ → ℕ
calendar_day midnight start =
    let cal_day = (midnight + 2 ^ 64 - start) % 2 ^ 64 / sec_in_one_day % 2 ^ 32 in
    if ltb 31 cal_day then cal_day % 28 else cal_day

module _ {F : Type 0} where
  -- `router_request_initialize`; `speed` is the constant 1.5.
  unfoldable pub router_request_initialize : F → RouterRequest F → RouterRequest F
  router_request_initialize speed req = record req {
    walk_speed = speed;
    walk_slack = 0;
    from = no_index;
    to = no_index;
    via = no_index;
    time = unreached;
    time_cutoff = unreached;
    arrive_by = true;
    time_rounded = false;
    max_transfers = rrrr_max_rounds - 1;
    mode = m_all;
    agency = agency_unfiltered;
    trip_attributes = 0;
    optimise = o_all;
    n_banned_routes = 0;
    n_banned_stops = 0;
    n_banned_trips = 0;
    n_banned_stops_hard = 0;
    banned_route = no_index;
    banned_stop = no_index;
    banned_trip_route = no_index;
    banned_trip_offset = no_index;
    banned_stop_hard = no_index;
    start_trip_route = no_index;
    start_trip_trip = no_index;
    intermediatestops = false;
  }

  -- `router_request_from_epoch`, from the router time and the second of `epoch_to_rtime`.
  unfoldable pub router_request_from_epoch : ℕ → ℕ → ℕ → ℕ → RouterRequest F → RouterRequest F
  router_request_from_epoch rtime tm_sec mktime calendar_start req = record req {
    time = rtime;
    time_rounded = not (tm_sec % 4 == 0);
    day_mask = 2 ^ calendar_day mktime calendar_start;
  }

  -- `router_request_next`: a minute later (15 units of 4 seconds).
  unfoldable pub router_request_next : RouterRequest F → RouterRequest F
  router_request_next req =
      let time = (req.time + 15) % 2 ^ 16 in
      let next_day = leb 21600 time in
      record req {
        time = if next_day then time - 21600 else time;
        day_mask = if next_day then (req.day_mask + 1) % 2 ^ 32 else req.day_mask;
        time_cutoff = unreached;
        time_rounded = false;
        max_transfers = rrrr_max_rounds - 1;
      }

  abbrev pub reverse_rounds : RouterRequest F → List ℕ
  reverse_rounds req = range_from 0 (
      (if leb rrrr_max_rounds req.max_transfers then rrrr_max_rounds - 1 else req.max_transfers)
      + 1)

  abbrev pub reverse_stop : RouterRequest F → ℕ
  reverse_stop req = if req.arrive_by then req.from else req.to

  -- The rest of `router_request_reverse`, after the loop has found `round`.
  abbrev pub reverse_at : Router → RouterRequest F → ℕ → Bool × RouterRequest F
  reverse_at router req round = if round == no_index then (false, req) else (
    true,
    record req {
      max_transfers = round;
      time_cutoff = req.time;
      time = (router.states round (reverse_stop req)).walk_time;
      arrive_by = not req.arrive_by;
    },
  )

  unfoldable pub router_request_reverse : Router → RouterRequest F → Bool × RouterRequest F
  router_request_reverse router req =
      reverse_at router req
        (reached_round router req.optimise (reverse_stop req) (reverse_rounds req) no_index)

  -- `range_check`. `too_slow` is the comparison of the walking speed with 0.1; the test that the
  -- unsigned time is below 0 never succeeds.
  unfoldable pub range_check : ℕ → (F → Bool) → RouterRequest F → Bool
  range_check n_stops too_slow req =
      not (too_slow req.walk_speed) && not (leb n_stops req.from) && not (leb n_stops req.to)
