-- ===== src/Parse/Query.antt =====
-- parse.c: `parse_request_from_qstring`. `string` is the C string of its characters, `strcasecmp`
-- tells whether the C library's `strcasecmp` returns 0, and `local` is `mktime` of the local time.
pub mod Laws
mod Tests
use rrrr.Prelude.{
  ℕ, ◌+◌, ◌%◌, ◌^◌, Bool, true, false, Option, none, some, List, [], ◌∷◌, ◌==◌, not, ◌&&◌,
  if◌then◌else◌, length, drop, String, same, map_option,
}
use rrrr.Prelude.Effects.{◌>>=◌, for_each}
use rrrr.Rtime.{unreached, epoch_to_rtime}
use rrrr.Router.{RouterRequest}
use rrrr.Router.Request.{router_request_from_epoch}
use rrrr.Parse.{
  Library, Opt, opt_a, opt_d, opt_D, opt_f, opt_t, opt_V, opt_s, opt_S, opt_o, opt_l, opt_L, opt_m,
  opt_A, opt_x, opt_y, opt_z, opt_Q, opt_w, parse_request,
}
use rrrr.Qstring.{Pair, qstring_pairs}

abbrev pub buflen : ℕ
buflen = 255

-- The options that the keys stand for.
abbrev pub options : List (String × Opt)
options =
    ("from-latlng", opt_l)
    ∷ ("to-latlng", opt_L)
    ∷ ("arrive", opt_a)
    ∷ ("depart", opt_d)
    ∷ ("date", opt_D)
    ∷ ("walk-slack", opt_s)
    ∷ ("walk-speed", opt_S)
    ∷ ("optimise", opt_o)
    ∷ ("from-idx", opt_f)
    ∷ ("to-idx", opt_t)
    ∷ ("via-idx", opt_V)
    ∷ ("mode", opt_m)
    ∷ ("start-trip-idx", opt_Q)
    ∷ ("bannend-routes-idx", opt_x)
    ∷ ("bannend-stops-idx", opt_y)
    ∷ ("bannend-stops-hard-idx", opt_w)
    ∷ ("bannend-trips-idx", opt_z)
    ∷ ("trip-attributes", opt_A)
    ∷ []

-- The chain of `strcmp(key, ...) == 0`.
abbrev pub find_option : List (String × Opt) → String → Option Opt
find_option [] key = none
find_option ((name, opt) ∷ rest) key = if same key name then some opt else find_option rest key

-- A C string ends at its first '\0'.
abbrev pub c_string : List ℕ → List ℕ
c_string [] = []
c_string (c ∷ cs) = if c == 0 then [] else c ∷ c_string cs

-- `if (qstring == NULL) qstring = ""`
abbrev pub given : Option (List ℕ) → List ℕ
given none = []
given (some q) = q

module _ {F : Type 0} (lib : Library F) (string : List ℕ → String)
    (strcasecmp : String → String → Bool) (local : ℕ) where
  -- A key that is no option shows the intermediate stops, or is skipped.
  abbrev pub apply_option :
      Option Opt → String → String → RouterRequest F → Option (RouterRequest F)
  apply_option (some opt) key val req = parse_request lib req opt val
  apply_option none key val req = some (
      if strcasecmp key "showIntermediateStops" && strcasecmp val "true"
      then record req { intermediatestops = true }
      else req)

  -- The body of the loop.
  unfoldable pub apply_pair : List ℕ × List ℕ → RouterRequest F → Option (RouterRequest F)
  apply_pair (key, val) req =
      apply_option (find_option options (string key)) (string key) (string val) req

  abbrev pub key_and_val : Pair → List ℕ × List ℕ
  key_and_val pair = (c_string pair.buf, c_string (drop pair.vbuf pair.buf))

  -- After the loop: the time is now if none was given, and is rounded upwards.
  unfoldable pub finish_request : RouterRequest F → RouterRequest F
  finish_request req0 =
      let (rtime, tm) = epoch_to_rtime lib.now lib.localtime lib.gmtime local in
      let req =
        if req0.time == unreached
        then router_request_from_epoch rtime tm.tm_sec (lib.origin local) lib.calendar_start req0
        else req0 in
      record req {
        time = if req.time_rounded && not req.arrive_by then (req.time + 1) % 2 ^ 16 else req.time;
        time_rounded = false;
      }

  -- `none` for the query is NULL; the result is always `true` with the request.
  unfoldable pub parse_request_from_qstring :
      RouterRequest F → Option (List ℕ) → Option (RouterRequest F)
  parse_request_from_qstring req qstring = do
    pairs ← qstring_pairs (length (given qstring) + 1) buflen (given qstring)
    req' ← for_each pairs (λ pair. apply_pair (key_and_val pair)) req
    some (finish_request req')
