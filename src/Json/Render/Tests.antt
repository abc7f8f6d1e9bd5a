-- ===== src/Json/Render/Tests.antt =====
-- A plan, its rendering, and an instance of its theorem.
use rrrr.Prelude.{ℕ, ◌+◌, ◌-◌, true, false, [], ◌∷◌, if◌then◌else◌, ◌==◌, length}
use rrrr.Rtime.{walk}
use rrrr.Tdata.{Tdata}
use rrrr.Tdata.Columns.{Columns}
use rrrr.Router.Plan.{Leg, Plan}
use rrrr.Router.Tests.{shuttle, ask, walk_sec}
use rrrr.Json.Document.{Value, value_text}
use rrrr.Json.Render.{Printer}
use rrrr.Json.Render.Legs.{Geometry}
use rrrr.Json.Render.Rendered.{plan_document}

-- Every number is printed as 7.
abbrev sevens : Printer ℕ
sevens = record {
  print_d = λ _. 55 ∷ [];
  print_l = λ _. 55 ∷ [];
  print_f = λ _. 55 ∷ [];
  print_clock = λ _. 55 ∷ [];
  servicedate = λ _. 55 ∷ [];
  date = λ _. 55 ∷ [];
}

abbrev flat : Geometry ℕ
flat = record { fixed = λ c. c; is_negative = λ _. false; zero_f = 0; minus = λ a b. a - b }

abbrev plain : Columns ℕ
plain = record {
  dst_active = 0;
  stop_attributes = λ _. 1;
  stop_coords = λ s. (s, s);
  platformcode_width = 1;
  platformcodes = λ _. [];
  stop_names = λ _. 65 ∷ [];
  stop_nameidx = λ s. s;
  agency_id_width = 1;
  agency_ids = λ _. [];
  agency_name_width = 1;
  agency_names = λ _. [];
  agency_url_width = 1;
  agency_urls = λ _. [];
  headsigns = λ _. 34 ∷ [];
  route_shortname_width = 1;
  route_shortnames = λ _. [];
  productcategory_width = 1;
  productcategories = λ _. [];
  route_id_width = 1;
  route_ids = λ _. [];
  stop_id_width = 1;
  stop_ids = λ _. [];
  trip_id_width = 1;
  trip_ids = λ _. [];
}

-- A way on foot from stop 0 to stop 1.
abbrev linked : Tdata
linked = record shuttle {
  stops = λ s. record { stop_routes_offset = s; transfers_offset = if s == 0 then 0 else 1 };
  transfer_target_stops = λ _. 1;
  transfer_dist_meters = λ _. 10;
}

abbrev leg_at : ℕ → Leg
leg_at l =
    if l == 0
    then record { s0 = 0; s1 = 1; t0 = 21600; t1 = 21610; route = walk; trip = walk }
    else record { s0 = 0; s1 = 1; t0 = 21610; t1 = 21700; route = 0; trip = 0 }

abbrev trip_plan : Plan ℕ
trip_plan = record {
  req = record ask { intermediatestops = true };
  n_itineraries = 1;
  itineraries = λ _. record { n_rides = 1; n_legs = 2; legs = leg_at };
}

abbrev document : Value
document = plan_document sevens flat linked plain walk_sec 2000 trip_plan

abbrev buflen : ℕ
buflen = length (value_text document) + 23
