-- ===== src/Json/Render/Documents.antt =====
-- The calls for places and legs are nested as those of a document.
use rrrr.Prelude.{
  if◌then◌else◌, ℕ, sym, subst, append_assoc, Bool-cases, inl, inr, Bool, true, false, some, none,
  List, [], ◌∷◌, ◌&&◌, not, ◌++◌, String, ◌==◌,
}
use rrrr.Prelude.Codes.{codes}
use rrrr.Rtime.{unreached, walk}
use rrrr.Tdata.{Tdata, tdata_stops_for_route}
use rrrr.Tdata.Columns.{Columns}
use rrrr.Json.{Call, call_end_obj}
use rrrr.Json.Render.{Printer, json_place, place_fields, time_call}
use rrrr.Router.{RouterRequest}
use rrrr.Router.Plan.{Leg}
use rrrr.Json.Document.{by_obj, by_key_obj, object, Members, member, Elements, element}
use rrrr.Json.Render.Described.{
  time_value, place_members, passed, all_passed, passed_elements, leg_members,
}
use rrrr.Json.Render.Legs.{Geometry, json_leg, passed_places, passed_place, intermediate_stops}
use rrrr.Json.Render.Nested.{
  IsMembers, IsElements, end_lem, end_elements_lem, kv_lem, kd_lem, kf_lem, kl_lem, object_lem,
  array_lem, element_lem,
}

module _ {F : Type 0} (pr : Printer F) (td : Tdata) (cols : Columns F) (date : ℕ)
    {rest calls : List Call} {ms : Members} where
  time_call_lem :
      (key : String) (t : ℕ)
      → IsMembers ms rest calls
      → IsMembers
          (member (codes key) (time_value pr td cols date t) ms)
          rest
          (time_call pr key date t ∷ calls)
  time_call_lem key t h = elim (Bool-cases (t == unreached)) [
    | inl p ↦ rw p (kv_lem h)
    | inr p ↦ rw p (kl_lem h)
  ]

module _ {F : Type 0} (pr : Printer F) (date : ℕ) (td : Tdata) (cols : Columns F)
    {calls : List Call} where
  place_fields_lem :
      (arrival departure stop : ℕ)
      → IsMembers
          (place_members pr td cols date arrival departure stop)
          (call_end_obj ∷ calls)
          (place_fields pr td cols date arrival departure stop ++ calls)
  unfolding place_fields
  place_fields_lem arrival departure stop = kv_lem (
      object_lem (kv_lem (kv_lem end_lem)) (
        kv_lem (
          kv_lem (
            kf_lem (
              kf_lem (
                kv_lem (
                  kv_lem (
                    time_call_lem pr td cols date "arrival" arrival
                      (time_call_lem pr td cols date "departure" departure end_lem)))))))))

  pub place_lem :
      {rest : List Call} {ms : Members} (k : List ℕ) (arrival departure stop : ℕ)
      → IsMembers ms rest calls
      → IsMembers
          (member k (object (place_members pr td cols date arrival departure stop)) ms)
          rest
          (json_place pr td cols date (some k) arrival departure stop ++ calls)
  unfolding json_place
  place_lem k arrival departure stop = object_lem (place_fields_lem arrival departure stop)

  place_element_lem :
      {rest : List Call} {es : Elements} (arrival departure stop : ℕ)
      → IsElements es rest calls
      → IsElements
          (element by_key_obj (place_members pr td cols date arrival departure stop) es)
          rest
          (json_place pr td cols date none arrival departure stop ++ calls)
  unfolding json_place
  place_element_lem arrival departure stop =
      element_lem by_key_obj (place_fields_lem arrival departure stop)

module _ {F : Type 0} (pr : Printer F) (geo : Geometry F) (td : Tdata) (cols : Columns F)
    (req : RouterRequest F) (date : ℕ) where
  -- A place that is shown if the leg has begun.
  shown_lem :
      (rest : List Call) (leg : Leg) (v : Bool) (i : ℕ) (places : List Call) (js : List ℕ)
      → IsElements (all_passed pr geo td cols req date leg js) rest (places ++ rest)
      → IsElements
          (all_passed pr geo td cols req date leg (if v then i ∷ js else js))
          rest
          ((if v then passed_place pr geo td cols req date leg i ++ places else places) ++ rest)
  shown_lem rest leg true i places js h =
      subst (IsElements _ rest)
        (sym (append_assoc (passed_place pr geo td cols req date leg i) places rest))
        (place_element_lem pr date td cols _ _ (tdata_stops_for_route td leg.route i) h)
  shown_lem rest leg false i places js h = h

  passed_places_lem :
      (rest : List Call) (leg : Leg) (visible : Bool) (is : List ℕ)
      → IsElements
          (all_passed pr geo td cols req date leg (passed pr geo td cols req date leg visible is))
          rest
          (passed_places pr geo td cols req date leg visible is ++ rest)
  unfolding passed_places
  passed_places_lem rest leg visible [] = end_elements_lem
  passed_places_lem rest leg visible (i ∷ is) =
      let s = tdata_stops_for_route td leg.route i in
      let here = passed_places_lem rest leg true is in
      let later = passed_places_lem rest leg visible is in
      elim (Bool-cases (s == leg.s0)) [
        | inl p ↦ rw p here
        | inr p ↦ elim (Bool-cases (s == leg.s1)) [
          | inl q ↦ rw (p, q) end_elements_lem
          | inr q ↦ rw (p, q) (shown_lem rest leg visible i _ _ later)
        ]
      ]

  intermediate_stops_lem :
      {rest : List Call} (leg : Leg)
      → IsElements
          (passed_elements pr geo td cols req date leg)
          rest
          (intermediate_stops pr geo td cols req date leg ++ rest)
  intermediate_stops_lem {rest} leg =
      elim (Bool-cases (req.intermediatestops && not (leg.route == walk))) [
        | inl p ↦ rw p (passed_places_lem rest leg false _)
        | inr p ↦ rw p end_elements_lem
      ]

  pub leg_lem :
      {rest calls : List Call} {es : Elements} (leg : Leg)
      → IsElements es rest calls
      → IsElements
          (element by_obj (leg_members pr geo td cols req date leg) es)
          rest
          (json_leg pr geo td cols req date leg ++ calls)
  unfolding json_leg
  leg_lem {calls} leg h = simp (append_assoc) (
      element_lem by_obj
        (place_lem pr date td cols (codes "from") _ _ leg.s0 (
          place_lem pr date td cols (codes "to") _ _ leg.s1 (
            kv_lem (
              kl_lem (
                kl_lem (
                  kl_lem (
                    kl_lem (
                      kv_lem (
                        kv_lem (
                          kv_lem (
                            kv_lem (
                              kv_lem (
                                kv_lem (
                                  kv_lem (
                                    kv_lem (
                                      kv_lem (
                                        kv_lem (
                                          kv_lem (
                                            object_lem (kv_lem (kv_lem (kd_lem end_lem))) (
                                              array_lem (intermediate_stops_lem leg)
                                                (kd_lem end_lem)))))))))))))))))))))
        h)
