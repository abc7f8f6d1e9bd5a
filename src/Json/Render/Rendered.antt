-- ===== src/Json/Render/Rendered.antt =====
-- What json.c writes for a plan is the text of the plan's document.
use rrrr.Prelude.{ℕ, range_from, All, List, ◌++◌}
use rrrr.Tdata.{Tdata}
use rrrr.Tdata.Columns.{Columns}
use rrrr.Json.{Call}
use rrrr.Json.Render.{Printer}
use rrrr.Router.{RouterRequest}
use rrrr.Router.Plan.{Itinerary, Plan}
use rrrr.Json.Document.{by_obj, Members, Elements, element, Value, object}
use rrrr.Json.Render.Described.{itinerary_members, itineraries_elements, plan_members}
use rrrr.Json.Render.Legs.{Geometry}
use rrrr.Json.Render.Plans.{Totals, req_to_date}
use rrrr.Json.Render.Nested.{IsElements}
use rrrr.Json.Render.Totals.{HasTransfer}

module _ {F : Type 0} (pr : Printer F) (geo : Geometry F) (td : Tdata) (cols : Columns F)
    (walk_sec : F → ℕ → ℕ → ℕ) (req : RouterRequest F) (date : ℕ) where
  -- The calls of an itinerary, before those of the itineraries after it.
  abbrev IsItinerary : Itinerary → List Call → Type 0
  IsItinerary itin calls =
      (es : Elements) (rest following : List Call)
      → IsElements es rest following
      → IsElements (element by_obj (itinerary_members pr geo td cols walk_sec req date itin) es)
          rest (calls ++ following)

  abbrev AreItineraries : (ℕ → Itinerary) → List ℕ → List Call → Type 0
  AreItineraries itineraries is calls =
      (rest : List Call)
      → IsElements (itineraries_elements pr geo td cols walk_sec req date itineraries is) rest
          (calls ++ rest)

module _ {F : Type 0} (td : Tdata) (walk_sec : F → ℕ → ℕ → ℕ) where
  -- The legs of all itineraries of the plan.
  abbrev pub HasTransfers : Plan F → Type 0
  HasTransfers plan =
      All
        (λ i.
          All (λ l. HasTransfer td walk_sec plan.req ((plan.itineraries i).legs l))
            (range_from 0 (plan.itineraries i).n_legs))
        (range_from 0 plan.n_itineraries)

module _ {F : Type 0} (pr : Printer F) (geo : Geometry F) (td : Tdata) (cols : Columns F)
    (walk_sec : F → ℕ → ℕ → ℕ) (max_walk : F) where
  abbrev pub document_members : Plan F → Members
  document_members plan =
      let date = req_to_date plan.req td cols in
      plan_members pr geo td cols walk_sec plan.req date max_walk (
        itineraries_elements pr geo td cols walk_sec plan.req date plan.itineraries
          (range_from 0 plan.n_itineraries))

  -- The document for a plan.
  abbrev pub plan_document : Plan F → Value
  plan_document plan = object (document_members plan)
