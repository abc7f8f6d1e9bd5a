-- ===== src/Json/Render.antt =====
-- json.c: the rendering of a plan, as the calls of the writer that it makes, in their order.
--
-- What the C library prints is an argument (`Printer`). A signed number is its bit pattern.
pub mod Legs
pub mod Described
pub mod Documents
pub mod Nested
pub mod Plans
pub mod Rendered
pub mod Totals
mod Tests
use rrrr.Prelude.{
  ℕ, ◌+◌, ◌-◌, ◌*◌, ◌/◌, ◌%◌, ◌^◌, Bool, true, false, Option, none, some, List, [], ◌∷◌, ◌++◌, ◌==◌,
  leb, ltb, not, ◌&&◌, ◌||◌, if◌then◌else◌, bit_and, length, range_from, String,
}
use rrrr.Prelude.Codes.{codes}
use rrrr.Prelude.Effects.{◌>>=◌}
use rrrr.Rtime.{unreached, walk, sec_in_one_day, rtime_to_sec, btimetext, Clock}
use rrrr.Tdata.{
  Tdata, Trip, tdata_stops_for_route, tdata_trips_for_route, tdata_trip_attributes_for_route,
}
use rrrr.Tdata.Columns.{
  Columns, tdata_stop_attributes_for_index, tdata_route_id_for_index, tdata_stop_id_for_index,
  tdata_trip_id_for_route_trip_index, tdata_stop_name_for_index, tdata_platformcode_for_index,
  tdata_headsign_for_route, tdata_shortname_for_route, tdata_productcategory_for_route,
  tdata_agency_id_for_route, tdata_agency_name_for_route, tdata_agency_url_for_route,
}
use rrrr.Router.{RouterRequest}
use rrrr.Router.Request.{m_all}
use rrrr.Router.Plan.{Leg, Itinerary, Plan, transfer_distance}
use rrrr.Polyline.{Polyline, polyline_for_leg}
use rrrr.Json.{
  Call, call_kv, call_kd, call_kf, call_kl, call_kb, call_key_obj, call_key_arr, call_obj,
  call_end_obj, call_end_arr, Json, json_begin, json_length, perform_all,
}

-- `sprintf` with the formats of the writer and of `btimetext`, and `strftime` after `localtime_r`
-- with the formats %Y%m%d and %Y-%m-%d.
pub record Printer (F : Type 0) : Type 0 where
  pub print_d : ℕ → List ℕ
  pub print_l : ℕ → List ℕ
  pub print_f : F → List ℕ
  pub print_clock : Clock → List ℕ
  pub servicedate : ℕ → List ℕ
  pub date : ℕ → List ℕ

abbrev pub rtime_to_msec : ℕ → ℕ → ℕ
rtime_to_msec rtime date = (rtime * 4 + 2 ^ 64 - sec_in_one_day + date) * 1000 % 2 ^ 64

-- `endtime - starttime`, as an int64_t and passed as an int.
abbrev pub duration_msec : ℕ → ℕ → ℕ
duration_msec starttime endtime = (endtime + 2 ^ 64 - starttime) % 2 ^ 64 % 2 ^ 32

-- `tdata_delay_min`, the delay times 4 over 60, cut off as it is stored in an int64_t.
abbrev pub delay_min : ℕ → ℕ
delay_min delay =
    if leb (2 ^ 15) delay then (2 ^ 64 - (2 ^ 16 - delay) * 4 / 60) % 2 ^ 64 else delay * 4 / 60

abbrev pub text : String → Option (List ℕ) → Call
text key value = call_kv (some (codes key)) value

-- `(attributes & bit) ? "true" : NULL`
abbrev pub flag_text : ℕ → ℕ → Option (List ℕ)
flag_text attributes bit = if bit_and attributes bit == 0 then none else some (codes "true")

-- `(mode & bit) == bit`
abbrev pub has_mode : ℕ → ℕ → Bool
has_mode mode bit = bit_and mode bit == bit

-- The text of the mode of a route.
pub route_mode : ℕ → String
route_mode attributes =
    if has_mode attributes 1
    then "TRAM"
    else (if has_mode attributes 2
        then "SUBWAY"
        else (if has_mode attributes 4
            then "RAIL"
            else (if has_mode attributes 8
                then "BUS"
                else (if has_mode attributes 16
                    then "FERRY"
                    else (if has_mode attributes 32
                        then "CABLE_CAR"
                        else (if has_mode attributes 64
                            then "GONDOLA"
                            else (if has_mode attributes 128 then "FUNICULAR" else "INVALID")))))))

-- The text at `dst` after `dst = strcpy(dst, src)`: the pointer stays where it is.
abbrev pub strcpy : List ℕ → List ℕ → List ℕ
strcpy dst src = src

abbrev pub copy_mode : ℕ → ℕ → String → List ℕ → List ℕ
copy_mode mode bit name dst = if has_mode mode bit then strcpy dst (codes name) else dst

-- The text of the modes of a request, in the buffer `modes`.
pub modes_text : ℕ → List ℕ
modes_text mode =
    let after_tram = copy_mode mode 1 "TRAM," [] in
    let after_subway = copy_mode mode 2 "SUBWAY," after_tram in
    let after_rail = copy_mode mode 4 "RAIL," after_subway in
    let after_bus = copy_mode mode 8 "BUS," after_rail in
    let after_ferry = copy_mode mode 16 "FERRY," after_bus in
    let after_cablecar = copy_mode mode 32 "CABLE_CAR," after_ferry in
    let after_gondola = copy_mode mode 64 "GONDOLA," after_cablecar in
    let after_funicular = copy_mode mode 128 "FUNICULAR," after_gondola in
    strcpy after_funicular (codes "WALK")

module _ {F : Type 0} (pr : Printer F) where
  -- `timetext`
  pub timetext : ℕ → List ℕ
  timetext t = elim (btimetext t) [ none ↦ codes "   --   " | some clock ↦ pr.print_clock clock ]

  -- The time of a place, null where there is none.
  abbrev pub time_call : String → ℕ → ℕ → Call
  time_call key date t =
      if t == unreached
      then call_kv (some (codes key)) none
      else call_kl (some (codes key)) (pr.print_l (rtime_to_msec t date))

  module _ (td : Tdata) (cols : Columns F) (date : ℕ) where
    -- The calls of `json_place` after the first.
    unfoldable pub place_fields : ℕ → ℕ → ℕ → List Call
    place_fields arrival departure stop =
        text "name" (some (tdata_stop_name_for_index td cols stop))
        ∷ call_key_obj (some (codes "stopId"))
        ∷ text "agencyId" (some (codes "NL"))
        ∷ text "id" (some (tdata_stop_id_for_index td cols stop))
        ∷ call_end_obj
        ∷ text "stopCode" none
        ∷ text "platformCode" (tdata_platformcode_for_index td cols stop)
        ∷ call_kf (some (codes "lat")) (pr.print_f (cols.stop_coords stop).0)
        ∷ call_kf (some (codes "lon")) (pr.print_f (cols.stop_coords stop).1)
        ∷ text "wheelchairBoarding" (flag_text (tdata_stop_attributes_for_index cols stop) 1)
        ∷ text "visualAccessible" (flag_text (tdata_stop_attributes_for_index cols stop) 2)
        ∷ time_call "arrival" date arrival
        ∷ time_call "departure" date departure
        ∷ call_end_obj
        ∷ []

    unfoldable pub json_place : Option (List ℕ) → ℕ → ℕ → ℕ → List Call
    json_place key arrival departure stop = call_key_obj key ∷ place_fields arrival departure stop
