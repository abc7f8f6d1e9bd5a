-- ===== src/Tdata/Load/Format.antt =====
-- The file format: where the parts of a timetable stand in a file.
use rrrr.Prelude.{ℕ, ◌+◌, ◌≡◌, List}
use rrrr.Tdata.{Tdata}
use rrrr.Tdata.Columns.{Columns}
use rrrr.Tdata.Load.{Image}

-- The file holds the arrays of a timetable at the places that its header names.
pub record HasArrays {F : Type 0} (b : Image F) (td : Tdata) : Type 0 where
  pub calendar_start_time : b.header.calendar_start_time ≡ td.calendar_start_time
  pub n_stops : b.header.n_stops ≡ td.n_stops
  pub n_routes : b.header.n_routes ≡ td.n_routes
  pub stops : b.stop_at b.header.loc_stops ≡ td.stops
  pub routes : b.route_at b.header.loc_routes ≡ td.routes
  pub stop_times : b.stoptime_at b.header.loc_stop_times ≡ td.stop_times
  pub trips : b.trip_at b.header.loc_trips ≡ td.trips
  pub route_stops : b.word_at b.header.loc_route_stops ≡ td.route_stops
  pub stop_routes : b.word_at b.header.loc_stop_routes ≡ td.stop_routes
  pub transfer_target_stops :
      b.word_at b.header.loc_transfer_target_stops ≡ td.transfer_target_stops
  pub trip_active : b.word_at b.header.loc_trip_active ≡ td.trip_active
  pub route_active : b.word_at b.header.loc_route_active ≡ td.route_active
  pub route_stop_attributes :
      b.byte_at b.header.loc_route_stop_attributes ≡ td.route_stop_attributes
  pub transfer_dist_meters : b.byte_at b.header.loc_transfer_dist_meters ≡ td.transfer_dist_meters
  pub trip_attributes : b.byte_at b.header.loc_trip_attributes ≡ td.trip_attributes

-- The file holds texts of one width at a place: the width, in four bytes, and then the texts.
pub record HasTexts {F : Type 0} (b : Image F) (place width : ℕ) (texts : ℕ → List ℕ) : Type 0 where
  pub width_at : b.word_at place 0 ≡ width
  pub texts_at : b.text_at (place + 4) ≡ texts

pub record HasColumns {F : Type 0} (b : Image F) (cols : Columns F) : Type 0 where
  pub dst_active : b.header.dst_active ≡ cols.dst_active
  pub stop_attributes : b.byte_at b.header.loc_stop_attributes ≡ cols.stop_attributes
  pub stop_coords : b.latlon_at b.header.loc_stop_coords ≡ cols.stop_coords
  pub stop_names : b.text_at b.header.loc_stop_names ≡ cols.stop_names
  pub stop_nameidx : b.word_at b.header.loc_stop_nameidx ≡ cols.stop_nameidx
  pub headsigns : b.text_at b.header.loc_headsigns ≡ cols.headsigns
  pub platformcodes :
      HasTexts b b.header.loc_platformcodes cols.platformcode_width cols.platformcodes
  pub agency_ids : HasTexts b b.header.loc_agency_ids cols.agency_id_width cols.agency_ids
  pub agency_names : HasTexts b b.header.loc_agency_names cols.agency_name_width cols.agency_names
  pub agency_urls : HasTexts b b.header.loc_agency_urls cols.agency_url_width cols.agency_urls
  pub route_shortnames :
      HasTexts b b.header.loc_route_shortnames cols.route_shortname_width cols.route_shortnames
  pub productcategories :
      HasTexts b b.header.loc_productcategories cols.productcategory_width cols.productcategories
  pub route_ids : HasTexts b b.header.loc_route_ids cols.route_id_width cols.route_ids
  pub stop_ids : HasTexts b b.header.loc_stop_ids cols.stop_id_width cols.stop_ids
  pub trip_ids : HasTexts b b.header.loc_trip_ids cols.trip_id_width cols.trip_ids
