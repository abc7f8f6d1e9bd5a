-- ===== src/Tdata.antt =====
-- tdata.h and tdata.c: the timetable. Each array of the mapped file is a function of the index.
-- A pointer into an array that an accessor returns is the function from that place on.
pub mod Coherent
pub mod Columns
pub mod Load
pub mod Lookup
use rrrr.Prelude.{ℕ, ◌+◌, ◌-◌, ◌%◌, ◌^◌}

-- `stop_t`
pub record Stop : Type 0 where
  pub stop_routes_offset : ℕ
  pub transfers_offset : ℕ

-- `route_t`
pub record Route : Type 0 where
  pub route_stops_offset : ℕ
  pub trip_ids_offset : ℕ
  pub headsign_offset : ℕ
  pub n_stops : ℕ
  pub n_trips : ℕ
  pub attributes : ℕ
  pub agency_index : ℕ
  pub shortname_index : ℕ
  pub productcategory_index : ℕ
  pub min_time : ℕ
  pub max_time : ℕ

-- `trip_t`. The signed 16-bit delay is kept as its bit pattern.
pub record Trip : Type 0 where
  pub stop_times_offset : ℕ
  pub begin_time : ℕ
  pub realtime_delay : ℕ

-- `stoptime_t`
pub record StopTime : Type 0 where
  pub arrival : ℕ
  pub departure : ℕ

-- `rsa_boarding` and `rsa_alighting`
abbrev pub rsa_boarding : ℕ
rsa_boarding = 2

abbrev pub rsa_alighting : ℕ
rsa_alighting = 4

-- The columns of `tdata_t` that routing reads.
pub record Tdata : Type 0 where
  pub calendar_start_time : ℕ
  pub n_stops : ℕ
  pub n_routes : ℕ
  pub stops : ℕ → Stop
  pub routes : ℕ → Route
  pub route_stops : ℕ → ℕ
  pub route_stop_attributes : ℕ → ℕ
  pub stop_times : ℕ → StopTime
  pub trips : ℕ → Trip
  pub stop_routes : ℕ → ℕ
  pub transfer_target_stops : ℕ → ℕ
  pub transfer_dist_meters : ℕ → ℕ
  pub trip_active : ℕ → ℕ
  pub route_active : ℕ → ℕ
  pub trip_attributes : ℕ → ℕ

module _ (td : Tdata) where
  abbrev pub tdata_stops_for_route : ℕ → ℕ → ℕ
  tdata_stops_for_route route i = td.route_stops ((td.routes route).route_stops_offset + i)

  abbrev pub tdata_stop_attributes_for_route : ℕ → ℕ → ℕ
  tdata_stop_attributes_for_route route i =
      td.route_stop_attributes ((td.routes route).route_stops_offset + i)

  -- The count of routes, and the place of the first; the subtraction is a uint32_t's.
  abbrev pub tdata_routes_for_stop : ℕ → ℕ × (ℕ → ℕ)
  tdata_routes_for_stop stop =
      let o0 = (td.stops stop).stop_routes_offset in
      let o1 = (td.stops (stop + 1)).stop_routes_offset in
      ((o1 + 2 ^ 32 - o0) % 2 ^ 32, λ i. td.stop_routes (o0 + i))

  abbrev pub tdata_trips_for_route : ℕ → ℕ → Trip
  tdata_trips_for_route route i = td.trips ((td.routes route).trip_ids_offset + i)

  abbrev pub tdata_trip_attributes_for_route : ℕ → ℕ → ℕ
  tdata_trip_attributes_for_route route i =
      td.trip_attributes ((td.routes route).trip_ids_offset + i)

  abbrev pub tdata_trip_masks_for_route : ℕ → ℕ → ℕ
  tdata_trip_masks_for_route route i = td.trip_active ((td.routes route).trip_ids_offset + i)
