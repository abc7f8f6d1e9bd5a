-- ===== src/Tdata/Load.antt =====
-- tdata.c: the loading of a timetable (`tdata_load`). The file, as the system maps it, is an
-- argument; `die` ends the program, `none`. The test of the timetable that the function calls at its
-- end only prints.
pub mod Format
pub mod Laws
pub mod Tests
use rrrr.Prelude.{
  ℕ, zero, suc, ◌+◌, ◌≤◌, ◌<◌, ◌≡◌, ◌⊎◌, refl, sym, ◌∙◌, ap, subst, Bool, true, false, Option, none,
  some, List, [], ◌∷◌, ltb, ==_iff, ◌==◌, ◌&&◌, if◌then◌else◌, range_from, arith, Bool-cases, inl,
  inr,
}
use rrrr.Prelude.Codes.{codes}
use rrrr.Tdata.{Tdata, Stop, Route, Trip, StopTime}
use rrrr.Tdata.Columns.{Columns}

-- `tdata_header_t`
pub record TdataHeader : Type 0 where
  pub version_string : List ℕ
  pub calendar_start_time : ℕ
  pub dst_active : ℕ
  pub n_stops : ℕ
  pub n_routes : ℕ
  pub n_trips : ℕ
  pub loc_stops : ℕ
  pub loc_stop_attributes : ℕ
  pub loc_stop_coords : ℕ
  pub loc_routes : ℕ
  pub loc_route_stops : ℕ
  pub loc_route_stop_attributes : ℕ
  pub loc_stop_times : ℕ
  pub loc_trips : ℕ
  pub loc_trip_attributes : ℕ
  pub loc_stop_routes : ℕ
  pub loc_transfer_target_stops : ℕ
  pub loc_transfer_dist_meters : ℕ
  pub loc_trip_active : ℕ
  pub loc_route_active : ℕ
  pub loc_platformcodes : ℕ
  pub loc_stop_names : ℕ
  pub loc_stop_nameidx : ℕ
  pub loc_agency_ids : ℕ
  pub loc_agency_names : ℕ
  pub loc_agency_urls : ℕ
  pub loc_headsigns : ℕ
  pub loc_route_shortnames : ℕ
  pub loc_productcategories : ℕ
  pub loc_route_ids : ℕ
  pub loc_stop_ids : ℕ
  pub loc_trip_ids : ℕ

-- A file in memory: its header, and the elements of the arrays that begin at a place in it.
pub record Image (F : Type 0) : Type 0 where
  pub header : TdataHeader
  pub stop_at : ℕ → ℕ → Stop
  pub route_at : ℕ → ℕ → Route
  pub trip_at : ℕ → ℕ → Trip
  pub stoptime_at : ℕ → ℕ → StopTime
  pub latlon_at : ℕ → ℕ → F × F
  pub word_at : ℕ → ℕ → ℕ
  pub byte_at : ℕ → ℕ → ℕ
  pub text_at : ℕ → ℕ → List ℕ

-- What `open`, `stat` and `mmap` answer.
pub record Mapping (F : Type 0) : Type 0 where
  pub opened : Bool
  pub has_stat : Bool
  pub mapped : Option (Image F)

-- The timetable, with the fields that are in neither of its parts.
pub record Loaded (F : Type 0) : Type 0 where
  pub tdata : Tdata
  pub columns : Columns F
  pub n_trips : ℕ
  pub n_agencies : ℕ

-- `!strncmp(a, b, ...)` for two texts of the same length
abbrev pub same_text : List ℕ → List ℕ → Bool
same_text [] [] = true
same_text [] (d ∷ ds) = false
same_text (c ∷ cs) [] = false
same_text (c ∷ cs) (d ∷ ds) = (c == d) && same_text cs ds

-- The loop for `n_agencies`.
abbrev pub greatest_agency : (ℕ → Route) → List ℕ → ℕ → ℕ
greatest_agency routes [] n = n
greatest_agency routes (r ∷ rs) n =
    greatest_agency routes rs (if ltb n (routes r).agency_index then (routes r).agency_index else n)

module _ {F : Type 0} where
  abbrev pub load_tdata : Image F → Tdata
  load_tdata b =
      let h = b.header in
      record {
        calendar_start_time = h.calendar_start_time;
        n_stops = h.n_stops;
        n_routes = h.n_routes;
        stops = b.stop_at h.loc_stops;
        routes = b.route_at h.loc_routes;
        route_stops = b.word_at h.loc_route_stops;
        route_stop_attributes = b.byte_at h.loc_route_stop_attributes;
        stop_times = b.stoptime_at h.loc_stop_times;
        trips = b.trip_at h.loc_trips;
        stop_routes = b.word_at h.loc_stop_routes;
        transfer_target_stops = b.word_at h.loc_transfer_target_stops;
        transfer_dist_meters = b.byte_at h.loc_transfer_dist_meters;
        trip_active = b.word_at h.loc_trip_active;
        route_active = b.word_at h.loc_route_active;
        trip_attributes = b.byte_at h.loc_trip_attributes;
      }

  -- The width of a column stands before its texts, in four bytes.
  abbrev pub load_columns : Image F → Columns F
  load_columns b =
      let h = b.header in
      record {
        dst_active = h.dst_active;
        stop_attributes = b.byte_at h.loc_stop_attributes;
        stop_coords = b.latlon_at h.loc_stop_coords;
        stop_names = b.text_at h.loc_stop_names;
        stop_nameidx = b.word_at h.loc_stop_nameidx;
        headsigns = b.text_at h.loc_headsigns;
        platformcode_width = b.word_at h.loc_platformcodes 0;
        platformcodes = b.text_at (h.loc_platformcodes + 4);
        agency_id_width = b.word_at h.loc_agency_ids 0;
        agency_ids = b.text_at (h.loc_agency_ids + 4);
        agency_name_width = b.word_at h.loc_agency_names 0;
        agency_names = b.text_at (h.loc_agency_names + 4);
        agency_url_width = b.word_at h.loc_agency_urls 0;
        agency_urls = b.text_at (h.loc_agency_urls + 4);
        route_shortname_width = b.word_at h.loc_route_shortnames 0;
        route_shortnames = b.text_at (h.loc_route_shortnames + 4);
        productcategory_width = b.word_at h.loc_productcategories 0;
        productcategories = b.text_at (h.loc_productcategories + 4);
        route_id_width = b.word_at h.loc_route_ids 0;
        route_ids = b.text_at (h.loc_route_ids + 4);
        stop_id_width = b.word_at h.loc_stop_ids 0;
        stop_ids = b.text_at (h.loc_stop_ids + 4);
        trip_id_width = b.word_at h.loc_trip_ids 0;
        trip_ids = b.text_at (h.loc_trip_ids + 4);
      }

  abbrev pub load_image : Image F → Option (Loaded F)
  load_image b =
      let td = load_tdata b in
      let loaded : Loaded F = record {
        tdata = td;
        columns = load_columns b;
        n_trips = b.header.n_trips;
        n_agencies = greatest_agency td.routes (range_from 0 td.n_routes) 0;
      } in
      if same_text (codes "TTABLEV2") b.header.version_string then some loaded else none

  abbrev pub load_mapped : Option (Image F) → Option (Loaded F)
  load_mapped none = none
  load_mapped (some b) = load_image b

  unfoldable pub tdata_load : Mapping F → Option (Loaded F)
  tdata_load file =
      if file.opened then (if file.has_stat then load_mapped file.mapped else none) else none
