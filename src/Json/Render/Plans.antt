-- ===== src/Json/Render/Plans.antt =====
-- json.c: the rendering of an itinerary and of a plan (`json_itinerary`, `render_plan_json`), as
-- calls of the writer, and `req_to_date` of router.c.
use rrrr.Prelude.{
  ℕ, zero, suc, ◌+◌, ◌-◌, ◌*◌, ◌/◌, ◌%◌, ◌^◌, false, Option, none, some, List, [], ◌∷◌, ◌++◌, ◌==◌,
  not, if◌then◌else◌, bit_and, range_from,
}
use rrrr.Prelude.Codes.{codes}
use rrrr.Prelude.Effects.{◌>>=◌}
use rrrr.Rtime.{unreached, walk, sec_in_one_day}
use rrrr.Tdata.{Tdata}
use rrrr.Tdata.Columns.{Columns, tdata_stop_name_for_index}
use rrrr.Router.{RouterRequest}
use rrrr.Router.Request.{m_all}
use rrrr.Router.Plan.{Leg, Itinerary, Plan, transfer_distance}
use rrrr.Json.{
  Call, call_kd, call_kf, call_kl, call_kb, call_key_obj, call_key_arr, call_obj, call_end_obj,
  call_end_arr, Json, json_begin, perform_all,
}
use rrrr.Json.Render.{Printer, rtime_to_msec, duration_msec, text, modes_text, timetext, json_place}
use rrrr.Json.Render.Legs.{Geometry, json_leg}

-- `walktime`, `walkdistance`, `waitingtime` and `transittime`
pub record Totals : Type 0 where
  pub walktime : ℕ
  pub walkdistance : ℕ
  pub waitingtime : ℕ
  pub transittime : ℕ

abbrev pub no_totals : Totals
no_totals = record { walktime = 0; walkdistance = 0; waitingtime = 0; transittime = 0 }

module _ {F : Type 0} (pr : Printer F) (geo : Geometry F) (td : Tdata) (cols : Columns F)
    (walk_sec : F → ℕ → ℕ → ℕ) (req : RouterRequest F) (date : ℕ) where
  -- What a leg adds to the totals; `none` where the assertion fails that there is a transfer.
  unfoldable pub leg_totals : Leg → Totals → Option Totals
  leg_totals leg sums =
      let leg_duration = (leg.t1 + 2 ^ 32 - leg.t0) * 4 % 2 ^ 32 in
      let distance_add = transfer_distance td walk_sec req leg.s0 leg.s1 in
      if leg.route == walk
      then (if leg.s0 == leg.s1
          then some (record sums { waitingtime = (sums.waitingtime + leg_duration) % 2 ^ 32 })
          else (if distance_add == unreached
              then none
              else some (record sums {
                walktime = (sums.walktime + leg_duration) % 2 ^ 32;
                walkdistance = (sums.walkdistance + distance_add) % 2 ^ 32;
              })))
      else some (record sums { transittime = (sums.transittime + leg_duration) % 2 ^ 32 })

  -- The loop over the legs.
  unfoldable pub json_legs : (ℕ → Leg) → List ℕ → Totals → Option (List Call × Totals)
  json_legs legs [] sums = some ([], sums)
  json_legs legs (l ∷ ls) sums = do
    sums' ← leg_totals (legs l) sums
    (calls, last) ← json_legs legs ls sums'
    some (json_leg pr geo td cols req date (legs l) ++ calls, last)

  -- The calls of an itinerary, from those of its legs and the totals of the legs.
  unfoldable pub itinerary_calls : Itinerary → List Call × Totals → List Call
  itinerary_calls itin (legs, sums) =
      let starttime = rtime_to_msec (itin.legs 0).t0 date in
      let endtime = rtime_to_msec (itin.legs (itin.n_legs - 1)).t1 date in
      call_obj
        ∷ call_kd (some (codes "duration")) (pr.print_d (duration_msec starttime endtime))
        ∷ call_kl (some (codes "startTime")) (pr.print_l starttime)
        ∷ call_kl (some (codes "endTime")) (pr.print_l endtime)
        ∷ call_kd (some (codes "transfers")) (pr.print_d ((itin.n_legs / 2 + 2 ^ 32 - 1) % 2 ^ 32))
        ∷ call_key_arr (some (codes "legs"))
        ∷ legs
      ++ call_end_arr
        ∷ call_kd (some (codes "walkTime")) (pr.print_d sums.walktime)
        ∷ call_kd (some (codes "transitTime")) (pr.print_d sums.transittime)
        ∷ call_kd (some (codes "waitingTime")) (pr.print_d sums.waitingtime)
        ∷ call_kd (some (codes "walkDistance")) (pr.print_d sums.walkdistance)
        ∷ call_kb (some (codes "walkLimitExceeded")) false
        ∷ call_kd (some (codes "elevationLost")) (pr.print_d 0)
        ∷ call_kd (some (codes "elevationGained")) (pr.print_d 0)
        ∷ call_end_obj
        ∷ []

  unfoldable pub json_itinerary : Itinerary → Option (List Call)
  json_itinerary itin = do
    legs ← json_legs itin.legs (range_from 0 itin.n_legs) no_totals
    some (itinerary_calls itin legs)

  -- The loop over the itineraries.
  unfoldable pub json_itineraries : (ℕ → Itinerary) → List ℕ → Option (List Call)
  json_itineraries itineraries [] = some []
  json_itineraries itineraries (i ∷ is) = do
    calls ← json_itinerary (itineraries i)
    rest ← json_itineraries itineraries is
    some (calls ++ rest)

  -- The calls of `render_plan_json`, from those of the itineraries; `max_walk` is 2000.0.
  unfoldable pub plan_calls : F → List Call → List Call
  plan_calls max_walk itineraries =
      call_obj
        ∷ text "error" (some (codes "null"))
        ∷ call_key_obj (some (codes "requestParameters"))
        ∷ text "time" (some (timetext pr req.time))
        ∷ call_kb (some (codes "arriveBy")) req.arrive_by
        ∷ call_kf (some (codes "maxWalkDistance")) (pr.print_f max_walk)
        ∷ text "fromPlace" (some (tdata_stop_name_for_index td cols req.from))
        ∷ text "toPlace" (some (tdata_stop_name_for_index td cols req.to))
        ∷ text "date" (some (pr.date date))
        ∷ text "mode"
            (some (if req.mode == m_all then codes "TRANSIT,WALK" else modes_text req.mode))
        ∷ call_end_obj
        ∷ call_key_obj (some (codes "plan"))
        ∷ call_kl (some (codes "date")) (pr.print_l (date * 1000 % 2 ^ 64))
        ∷ json_place pr td cols date (some (codes "from")) unreached unreached req.from
      ++ json_place pr td cols date (some (codes "to")) unreached unreached req.to
      ++ call_key_arr (some (codes "itineraries")) ∷ itineraries
      ++ call_end_arr ∷ call_end_obj ∷ call_end_obj ∷ []

-- The position of the highest bit, by the loop `while (day_mask >>= 1) cal_day++` over 32 bits.
abbrev pub cal_day : ℕ → ℕ → ℕ
cal_day zero day_mask = 0
cal_day (suc fuel) day_mask =
    let rest = cal_day fuel (day_mask / 2) in if day_mask / 2 == 0 then 0 else rest + 1

-- `req_to_date`, but for the `struct tm`.
unfoldable pub req_to_date : {F : Type 0} → RouterRequest F → Tdata → Columns F → ℕ
req_to_date req td cols =
    let day = cal_day 32 req.day_mask in
    let summer = not (bit_and cols.dst_active (2 ^ day % 2 ^ 32) == 0) in
    (td.calendar_start_time + day * sec_in_one_day + 2 ^ 64 - (if summer then 3600 else 0)) % 2 ^ 64

module _ {F : Type 0} (pr : Printer F) (geo : Geometry F) (td : Tdata) (cols : Columns F)
    (walk_sec : F → ℕ → ℕ → ℕ) (max_walk : F) where
  -- The calls of `render_plan_json`.
  unfoldable pub render_calls : Plan F → Option (List Call)
  render_calls plan = do
    let date = req_to_date plan.req td cols
    itineraries ←
        json_itineraries pr geo td cols walk_sec plan.req date plan.itineraries
          (range_from 0 plan.n_itineraries)
    some (plan_calls pr geo td cols walk_sec plan.req date max_walk itineraries)

  -- `render_plan_json`: what is written in a buffer of `buflen` bytes; the result is its length.
  unfoldable pub render_plan_json : Plan F → ℕ → Option Json
  render_plan_json plan buflen = do
    calls ← render_calls plan
    some (perform_all calls (json_begin buflen))
