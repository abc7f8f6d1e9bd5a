-- ===== src/Tdata/Lookup/Tests.antt =====
-- Searches in a loaded file, and an instance of their theorem.
use rrrr.Prelude.{ℕ, ◌+◌, if◌then◌else◌, ◌≡◌, refl, true, some, [], ◌∷◌, ◌==◌}
use rrrr.Prelude.Codes.{codes}
use rrrr.Rtime.{no_index}
use rrrr.Tdata.{Tdata}
use rrrr.Tdata.Columns.{Columns}
use rrrr.Tdata.Load.{Image, Mapping, Loaded, load_tdata, load_columns, tdata_load, same_text}
use rrrr.Tdata.Load.Tests.{image}
use rrrr.Tdata.Lookup.{
  Found, first_match, tdata_stopidx_by_stop_name, tdata_agencyidx_by_agency_name,
}
use rrrr.Tdata.Lookup.Loaded.{IsLastAgency, lookups-tdata_load}

-- The text at place `p` is the letter `p`.
abbrev letters : Image ℕ
letters = record image {
  word_at = λ place i. if place == 1700 then 65 + i else 4;
  text_at = λ place p. p ∷ [];
}

abbrev letters_file : Mapping ℕ
letters_file = record { opened = true; has_stat = true; mapped = some letters }

abbrev timetable : Tdata
timetable = load_tdata letters

abbrev columns : Columns ℕ
columns = load_columns letters

abbrev letters_loaded : Loaded ℕ
letters_loaded = record { tdata = timetable; columns = columns; n_trips = 1; n_agencies = 4 }

loading : tdata_load letters_file ≡ some letters_loaded
unfolding tdata_load codes
loading = refl

stop_b : tdata_stopidx_by_stop_name timetable columns 4 same_text (66 ∷ []) 0 ≡ 1
unfolding tdata_stopidx_by_stop_name first_match
stop_b = refl

-- The name of the last agency is not found.
agency_four : tdata_agencyidx_by_agency_name timetable columns 4 same_text (16 ∷ []) 0 ≡ no_index
unfolding tdata_agencyidx_by_agency_name first_match
agency_four = refl

lookups-tdata_load_example :
    IsLastAgency timetable 4 × Found timetable columns 4 same_text (66 ∷ []) 0 timetable columns
lookups-tdata_load_example =
    lookups-tdata_load same_text (66 ∷ []) 0 letters_file letters letters_loaded timetable columns
      refl loading
      (record {
        calendar_start_time = refl;
        n_stops = refl;
        n_routes = refl;
        stops = refl;
        routes = refl;
        stop_times = refl;
        trips = refl;
        route_stops = refl;
        stop_routes = refl;
        transfer_target_stops = refl;
        trip_active = refl;
        route_active = refl;
        route_stop_attributes = refl;
        transfer_dist_meters = refl;
        trip_attributes = refl;
      })
      (record {
        dst_active = refl;
        stop_attributes = refl;
        stop_coords = refl;
        stop_names = refl;
        stop_nameidx = refl;
        headsigns = refl;
        platformcodes = record { width_at = refl; texts_at = refl };
        agency_ids = record { width_at = refl; texts_at = refl };
        agency_names = record { width_at = refl; texts_at = refl };
        agency_urls = record { width_at = refl; texts_at = refl };
        route_shortnames = record { width_at = refl; texts_at = refl };
        productcategories = record { width_at = refl; texts_at = refl };
        route_ids = record { width_at = refl; texts_at = refl };
        stop_ids = record { width_at = refl; texts_at = refl };
        trip_ids = record { width_at = refl; texts_at = refl };
      })
