-- ===== src/Parse.antt =====
-- parse.c: a request from options. The tokens of `strtok`, the numbers of `strtol` (a long, by its
-- 64-bit pattern) and of `strtod`, the calendar of the C library, the random request and the
-- nearest stop of a hash grid (where there is one) are arguments.
mod Laws
pub mod Query
mod Tests
use rrrr.Prelude.{
  ℕ, ◌+◌, ◌%◌, ◌^◌, Bool, true, false, Option, none, some, List, [], ◌∷◌, ltb, ◌==◌, not, ◌&&◌,
  if◌then◌else◌, bit_or, String, same,
}
use rrrr.Rtime.{Tm, no_index, unreached, epoch_to_rtime}
use rrrr.Router.{RouterRequest}
use rrrr.Router.Request.{o_transfers, o_all, m_all, router_request_from_epoch}

pub record Library (F : Type 0) : Type 0 where
  pub strtok : String → List String
  pub strtol : String → ℕ
  pub strtod : String → F
  -- `mktime` of the date that `strptime` reads
  pub date : String → ℕ
  pub now : ℕ
  pub localtime : ℕ → Tm
  pub gmtime : ℕ → Tm
  -- `mktime(&origin_tm)` of the date of an epoch time
  pub origin : ℕ → ℕ
  pub calendar_start : ℕ
  pub randomize : RouterRequest F → RouterRequest F
  pub closest : Option (F → F → ℕ)

-- The letters that `parse_request` knows, and any other value of `opt`.
pub data Opt : Type 0 where
  opt_a opt_d opt_r opt_D opt_f opt_t opt_V opt_s opt_S opt_o opt_l opt_L : Opt
  opt_m opt_A opt_x opt_y opt_z opt_Q opt_w opt_other : Opt

-- `if (strcmp(token, word) == 0) flags |= bit`
abbrev pub flag : String → String → ℕ → ℕ → ℕ
flag token word bit flags = if same token word then bit_or flags bit else flags

pub optimise_token : String → ℕ → ℕ
optimise_token token flags =
    let flags' = flag token "transfers" o_transfers (flag token "shortest" 1 flags) in
    if same token "all" then o_all else flags'

pub mode_token : String → ℕ → ℕ
mode_token token mode =
    let mode' = flag token "funicular" 128 (
      flag token "gondola" 64 (
        flag token "cablecar" 32 (
          flag token "ferry" 16 (
            flag token "bus" 8
              (flag token "rail" 4 (flag token "subway" 2 (flag token "tram" 1 mode))))))) in
    if same token "all" then m_all else mode'

pub attributes_token : String → ℕ → ℕ
attributes_token token flags =
    let flags' = flag token "wifi" 4 (flag token "toilet" 2 (flag token "accessible" 1 flags)) in
    if same token "none" then 0 else flags'

-- A loop over tokens.
abbrev pub fold : {S : Type 0} → (String → S → S) → List String → S → S
fold f [] s = s
fold f (token ∷ tokens) s = fold f tokens (f token s)

-- A long that is not negative
abbrev pub is_natural : ℕ → Bool
is_natural tmp = ltb tmp (2 ^ 63)

-- The loops of the bans: an index is stored in a uint32_t.
abbrev pub ban_token : {S : Type 0} → (String → ℕ) → (ℕ → S → S) → String → S → S
ban_token strtol ban token s =
    if not (same token "") && is_natural (strtol token) then ban (strtol token % 2 ^ 32) s else s

-- What the loops of `x`, `y` and `w` do with an index.
abbrev pub ban_route : {F : Type 0} → ℕ → RouterRequest F → RouterRequest F
ban_route i req = record req { banned_route = i; n_banned_routes = 1 }

abbrev pub ban_stop : {F : Type 0} → ℕ → RouterRequest F → RouterRequest F
ban_stop i req = record req { banned_stop = i; n_banned_stops = 1 }

abbrev pub ban_stop_hard : {F : Type 0} → ℕ → RouterRequest F → RouterRequest F
ban_stop_hard i req = record req { banned_stop_hard = i; n_banned_stops_hard = 1 }

-- The stop found, if one was, is stored.
abbrev pub store :
    {F : Type 0} → (ℕ → RouterRequest F) → RouterRequest F → Option ℕ → RouterRequest F
store set req none = req
store set req (some item) = set item

-- The loop of `Q`: the first token is a route, the last one after it a trip.
pub trip_token : (String → ℕ) → String → ℕ × ℕ → ℕ × ℕ
trip_token strtol token (route, trip) =
    if same token ""
    then (route, trip)
    else (if not (route == no_index)
        then (route, strtol token % 2 ^ 32)
        else (strtol token % 2 ^ 32, trip))

module _ {F : Type 0} (lib : Library F) where
  -- The loop of `z` over pairs of a route and a trip. `none` is the call of `strtol` with NULL
  -- where a trip is missing.
  pub ban_trips : List String → RouterRequest F → Option (RouterRequest F)
  ban_trips [] req = some req
  ban_trips (token ∷ []) req =
      if not (same token "") && is_natural (lib.strtol token) then none else some req
  ban_trips (token ∷ trip ∷ tokens) req =
      let tmp_route = lib.strtol token in
      let tmp_trip = lib.strtol trip in
      let banned : RouterRequest F =
        if is_natural tmp_trip
        then record req {
          banned_trip_route = tmp_route % 2 ^ 32;
          banned_trip_offset = tmp_trip % 2 ^ 32;
          n_banned_trips = 1;
        }
        else req in
      let after_pair = ban_trips tokens banned in
      let after_token = ban_trips (trip ∷ tokens) req in
      if not (same token "") && is_natural tmp_route then after_pair else after_token

  -- The stop nearest to the first two tokens, if there are two and a hash grid.
  abbrev pub find_nearest : Option (F → F → ℕ) → List String → Option ℕ
  find_nearest none tokens = none
  find_nearest (some find) (lat ∷ lon ∷ tokens) = some (find (lib.strtod lat) (lib.strtod lon))
  find_nearest (some find) (lat ∷ []) = none
  find_nearest (some find) [] = none

  abbrev pub nearest : List String → Option ℕ
  nearest tokens = find_nearest lib.closest tokens

  pub parse_request : RouterRequest F → Opt → String → Option (RouterRequest F)
  parse_request req opt_a optarg = some (record req { arrive_by = true })
  parse_request req opt_d optarg = some (record req { arrive_by = false })
  parse_request req opt_r optarg = some (lib.randomize req)
  parse_request req opt_D optarg =
      let epochtime = lib.date optarg in
      let (rtime, tm) = epoch_to_rtime lib.now lib.localtime lib.gmtime epochtime in
      some (router_request_from_epoch rtime tm.tm_sec (lib.origin epochtime) lib.calendar_start req)
  parse_request req opt_f optarg = some (record req { from = lib.strtol optarg % 2 ^ 32 })
  parse_request req opt_t optarg = some (record req { to = lib.strtol optarg % 2 ^ 32 })
  parse_request req opt_V optarg = some (record req { via = lib.strtol optarg % 2 ^ 32 })
  parse_request req opt_s optarg = some (record req { walk_slack = lib.strtol optarg % 2 ^ 8 })
  parse_request req opt_S optarg = some (record req { walk_speed = lib.strtod optarg })
  parse_request req opt_o optarg =
      some (record req { optimise = fold optimise_token (lib.strtok optarg) 0 })
  parse_request req opt_l optarg =
      some (store (λ item. record req { from = item }) req (nearest (lib.strtok optarg)))
  parse_request req opt_L optarg =
      some (store (λ item. record req { to = item }) req (nearest (lib.strtok optarg)))
  parse_request req opt_m optarg =
      some (record req { mode = fold mode_token (lib.strtok optarg) 0 })
  parse_request req opt_A optarg = some (record req {
    trip_attributes = fold attributes_token (lib.strtok optarg) req.trip_attributes;
  })
  parse_request req opt_x optarg =
      some (fold (ban_token lib.strtol ban_route) (lib.strtok optarg) req)
  parse_request req opt_y optarg =
      some (fold (ban_token lib.strtol ban_stop) (lib.strtok optarg) req)
  parse_request req opt_z optarg = ban_trips (lib.strtok optarg) req
  parse_request req opt_Q optarg =
      let (tmp_route, tmp_trip) =
        fold (trip_token lib.strtol) (lib.strtok optarg) (no_index, no_index) in
      some (
        if not (tmp_trip == no_index)
        then record req { start_trip_route = tmp_route; start_trip_trip = tmp_trip }
        else req)
  parse_request req opt_w optarg =
      some (fold (ban_token lib.strtol ban_stop_hard) (lib.strtok optarg) req)
  parse_request req opt_other optarg = some req
