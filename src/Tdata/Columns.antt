-- ===== src/Tdata/Columns.antt =====
-- tdata.c: the accessors of the texts and of the attributes of stops. A column of characters is the
-- function from a place in it to the text that begins there; `none` is NULL.
use rrrr.Prelude.{ℕ, ◌+◌, ◌*◌, ◌%◌, ◌^◌, Option, none, some, List, if◌then◌else◌, ◌==◌}
use rrrr.Rtime.{no_index, onboard}
use rrrr.Tdata.{Tdata}
use rrrr.Prelude.Codes.{codes}

-- The columns of `tdata_t` that only the output reads. `F` is the type of a float.
pub record Columns (F : Type 0) : Type 0 where
  pub dst_active : ℕ
  pub stop_attributes : ℕ → ℕ
  pub stop_coords : ℕ → F × F
  pub platformcode_width : ℕ
  pub platformcodes : ℕ → List ℕ
  pub stop_names : ℕ → List ℕ
  pub stop_nameidx : ℕ → ℕ
  pub agency_id_width : ℕ
  pub agency_ids : ℕ → List ℕ
  pub agency_name_width : ℕ
  pub agency_names : ℕ → List ℕ
  pub agency_url_width : ℕ
  pub agency_urls : ℕ → List ℕ
  pub headsigns : ℕ → List ℕ
  pub route_shortname_width : ℕ
  pub route_shortnames : ℕ → List ℕ
  pub productcategory_width : ℕ
  pub productcategories : ℕ → List ℕ
  pub route_id_width : ℕ
  pub route_ids : ℕ → List ℕ
  pub stop_id_width : ℕ
  pub stop_ids : ℕ → List ℕ
  pub trip_id_width : ℕ
  pub trip_ids : ℕ → List ℕ

-- A product of two numbers of type uint32_t.
abbrev pub offset : ℕ → ℕ → ℕ
offset width index = width * index % 2 ^ 32

module _ {F : Type 0} (cols : Columns F) where
  abbrev pub tdata_stop_attributes_for_index : ℕ → ℕ
  tdata_stop_attributes_for_index stop = cols.stop_attributes stop

  abbrev pub tdata_trip_id_for_index : ℕ → List ℕ
  tdata_trip_id_for_index trip = cols.trip_ids (offset cols.trip_id_width trip)

  abbrev pub tdata_agency_id_for_index : ℕ → List ℕ
  tdata_agency_id_for_index agency = cols.agency_ids (offset cols.agency_id_width agency)

  abbrev pub tdata_agency_name_for_index : ℕ → List ℕ
  tdata_agency_name_for_index agency = cols.agency_names (offset cols.agency_name_width agency)

  abbrev pub tdata_agency_url_for_index : ℕ → List ℕ
  tdata_agency_url_for_index agency = cols.agency_urls (offset cols.agency_url_width agency)

  abbrev pub tdata_headsign_for_offset : ℕ → List ℕ
  tdata_headsign_for_offset headsign_offset = cols.headsigns headsign_offset

  abbrev pub tdata_route_shortname_for_index : ℕ → List ℕ
  tdata_route_shortname_for_index shortname =
      cols.route_shortnames (offset cols.route_shortname_width shortname)

  abbrev pub tdata_productcategory_for_index : ℕ → List ℕ
  tdata_productcategory_for_index category =
      cols.productcategories (offset cols.productcategory_width category)

module _ {F : Type 0} (td : Tdata) (cols : Columns F) where
  abbrev pub tdata_route_id_for_index : ℕ → List ℕ
  tdata_route_id_for_index route =
      if route == no_index then codes "NONE" else cols.route_ids (offset cols.route_id_width route)

  abbrev pub tdata_stop_id_for_index : ℕ → List ℕ
  tdata_stop_id_for_index stop = cols.stop_ids (offset cols.stop_id_width stop)

  abbrev pub tdata_trip_id_for_route_trip_index : ℕ → ℕ → List ℕ
  tdata_trip_id_for_route_trip_index route trip =
      cols.trip_ids
        (offset cols.trip_id_width (((td.routes route).trip_ids_offset + trip) % 2 ^ 32))

  abbrev pub tdata_stop_name_for_index : ℕ → List ℕ
  tdata_stop_name_for_index stop =
      if stop == no_index
      then codes "NONE"
      else (if stop == onboard then codes "ONBOARD" else cols.stop_names (cols.stop_nameidx stop))

  abbrev pub tdata_platformcode_for_index : ℕ → Option (List ℕ)
  tdata_platformcode_for_index stop =
      if stop == no_index
      then none
      else (if stop == onboard
          then none
          else some (cols.platformcodes (offset cols.platformcode_width stop)))

  abbrev pub tdata_headsign_for_route : ℕ → List ℕ
  tdata_headsign_for_route route =
      if route == no_index then codes "NONE" else cols.headsigns (td.routes route).headsign_offset

  abbrev pub tdata_shortname_for_route : ℕ → List ℕ
  tdata_shortname_for_route route =
      if route == no_index
      then codes "NONE"
      else cols.route_shortnames
          (offset cols.route_shortname_width (td.routes route).shortname_index)

  abbrev pub tdata_productcategory_for_route : ℕ → List ℕ
  tdata_productcategory_for_route route =
      if route == no_index
      then codes "NONE"
      else cols.productcategories
          (offset cols.productcategory_width (td.routes route).productcategory_index)

  abbrev pub tdata_agency_id_for_route : ℕ → List ℕ
  tdata_agency_id_for_route route =
      if route == no_index
      then codes "NONE"
      else cols.agency_ids (offset cols.agency_id_width (td.routes route).agency_index)

  abbrev pub tdata_agency_name_for_route : ℕ → List ℕ
  tdata_agency_name_for_route route =
      if route == no_index
      then codes "NONE"
      else cols.agency_names (offset cols.agency_name_width (td.routes route).agency_index)

  abbrev pub tdata_agency_url_for_route : ℕ → List ℕ
  tdata_agency_url_for_route route =
      if route == no_index
      then codes "NONE"
      else cols.agency_urls (offset cols.agency_url_width (td.routes route).agency_index)
