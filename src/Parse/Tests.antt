-- ===== src/Parse/Tests.antt =====
-- Runs of parse.c and instances of its theorems.
use rrrr.Prelude.{ℕ, ◌≡◌, refl, false, true, none, some, [], ◌∷◌, ◌==◌, arith}
use rrrr.Prelude.Bits.{test_bit}
use rrrr.Rtime.{no_index, unreached}
use rrrr.Router.{RouterRequest}
use rrrr.Parse.{Library, opt_m, opt_x, parse_request, mode_token}
use rrrr.Parse.Laws.{any, names_mode, parse_request-names_mode}

-- Two tokens, of which each reads as 7.
abbrev pub two_tokens : Library ℕ
two_tokens = record {
  strtok = λ _. "tram" ∷ "bus" ∷ [];
  strtol = λ _. 7;
  strtod = λ _. 1;
  date = λ _. 0;
  now = 0;
  localtime = λ _. record { tm_hour = 0; tm_min = 0; tm_sec = 0 };
  gmtime = λ _. record { tm_hour = 0; tm_min = 0; tm_sec = 0 };
  origin = λ _. 0;
  calendar_start = 0;
  randomize = λ req. req;
  closest = none;
}

abbrev pub empty_request : RouterRequest ℕ
empty_request = record {
  from = 0;
  to = 1;
  via = no_index;
  start_trip_route = no_index;
  start_trip_trip = no_index;
  time = unreached;
  time_cutoff = unreached;
  walk_speed = 1;
  walk_slack = 0;
  arrive_by = true;
  time_rounded = false;
  max_transfers = 5;
  day_mask = 1;
  mode = 255;
  agency = 65535;
  trip_attributes = 0;
  optimise = 255;
  n_banned_routes = 0;
  n_banned_stops = 0;
  n_banned_stops_hard = 0;
  n_banned_trips = 0;
  banned_route = no_index;
  banned_stop = no_index;
  banned_trip_route = no_index;
  banned_trip_offset = no_index;
  banned_stop_hard = no_index;
  intermediatestops = false;
}

modes_run :
    parse_request two_tokens empty_request opt_m "tram,bus"
    ≡ some (record empty_request { mode = 9 })
unfolding parse_request mode_token
modes_run = refl

parse_request-names_mode_example : (test_bit 9 3 == 1) ≡ any (names_mode 3) ("tram" ∷ "bus" ∷ [])
parse_request-names_mode_example =
    parse_request-names_mode two_tokens empty_request (record empty_request { mode = 9 }) "tram,bus"
      3 modes_run (omega arith)

ban_run :
    parse_request two_tokens empty_request opt_x "7,7"
    ≡ some (record empty_request { n_banned_routes = 1; banned_route = 7 })
unfolding parse_request
ban_run = refl
