-- ===== src/Tdata/Load/Tests.antt =====
-- A file, its loading, and an instance of the theorem.
use rrrr.Prelude.{ℕ, ◌≡◌, ◌*◌, refl, true, some, map_option}
use rrrr.Prelude.Codes.{codes}
use rrrr.Tdata.Load.{TdataHeader, Image, Mapping, Loaded, tdata_load}
use rrrr.Tdata.Load.Laws.{Outcome, tdata_load-Outcome}
use rrrr.Router.Tests.{shuttle}

abbrev pub header : TdataHeader
header = record {
  version_string = codes "TTABLEV2";
  calendar_start_time = 0;
  dst_active = 0;
  n_stops = 2;
  n_routes = 3;
  n_trips = 1;
  loc_stops = 100;
  loc_stop_attributes = 200;
  loc_stop_coords = 300;
  loc_routes = 400;
  loc_route_stops = 500;
  loc_route_stop_attributes = 600;
  loc_stop_times = 700;
  loc_trips = 800;
  loc_trip_attributes = 900;
  loc_stop_routes = 1000;
  loc_transfer_target_stops = 1100;
  loc_transfer_dist_meters = 1200;
  loc_trip_active = 1300;
  loc_route_active = 1400;
  loc_platformcodes = 1500;
  loc_stop_names = 1600;
  loc_stop_nameidx = 1700;
  loc_agency_ids = 1800;
  loc_agency_names = 1900;
  loc_agency_urls = 2000;
  loc_headsigns = 2100;
  loc_route_shortnames = 2200;
  loc_productcategories = 2300;
  loc_route_ids = 2400;
  loc_stop_ids = 2500;
  loc_trip_ids = 2600;
}

-- Route `r` belongs to agency `2 * r`.
abbrev pub image : Image ℕ
image = record {
  header = header;
  stop_at = λ _. shuttle.stops;
  route_at = λ _ r. record (shuttle.routes r) { agency_index = 2 * r };
  trip_at = λ _. shuttle.trips;
  stoptime_at = λ _. shuttle.stop_times;
  latlon_at = λ _ i. (i, i);
  word_at = λ place i. place;
  byte_at = λ place i. place;
  text_at = λ place i. codes "A";
}

abbrev file : Mapping ℕ
file = record { opened = true; has_stat = true; mapped = some image }

-- The agencies have the indexes 0, 2 and 4.
agencies_run : map_option (λ (l : Loaded ℕ). l.n_agencies) (tdata_load file) ≡ some 4
unfolding tdata_load codes
agencies_run = refl

tdata_load-Outcome_example : Outcome file (tdata_load file)
tdata_load-Outcome_example = tdata_load-Outcome file
