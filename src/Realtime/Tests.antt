-- ===== src/Realtime/Tests.antt =====
-- A message of three entities, and instances of the theorems about realtime messages.
use rrrr.Prelude.{
  ℕ, ◌≡◌, ◌⊎◌, refl, true, false, Option, none, some, List, [], ◌∷◌, arith, map_option,
}
use rrrr.Rtime.{canceled}
use rrrr.Tdata.{Tdata}
use rrrr.Radix.{Edge, rxt_find}
use rrrr.Realtime.{
  FeedEntity, VehiclePosition, TripDescriptor, delay_trip, apply_delay, apply_entities,
  tdata_apply_gtfsrt,
}
use rrrr.Realtime.Rounds.{Delays, crashes, last_for, processed}
use rrrr.Realtime.Laws.{IsDelay, entities_of, tdata_apply_gtfsrt_lem, tdata_apply_gtfsrt-canceled}

-- The trip "a" is trip 0, and "b" trip 1.
abbrev index : Edge
index = Edge.edge (Edge.edge Edge.null Edge.null 1 (98 ∷ [])) Edge.null 0 (97 ∷ [])

abbrev first : VehiclePosition × TripDescriptor
first =
    let trip : TripDescriptor = record { trip_id = some (97 ∷ []); is_canceled = false } in
    (record { trip = some trip; delay = some 60 }, trip)

abbrev second : VehiclePosition × TripDescriptor
second =
    let trip : TripDescriptor = record { trip_id = some (98 ∷ []); is_canceled = true } in
    (record { trip = some trip; delay = none }, trip)

abbrev unnamed : Option FeedEntity
unnamed = some (record {
  vehicle =
      some
        (record { trip = some (record { trip_id = none; is_canceled = false }); delay = some 60 });
})

-- A minute late, and then canceled; what follows the entity without a vehicle is not read.
abbrev entities : List (Option FeedEntity)
entities =
    some (record { vehicle = some first.0 })
    ∷ some (record { vehicle = some second.0 })
    ∷ some (record { vehicle = none })
    ∷ unnamed
    ∷ []

abbrev unpack : List ℕ → Option (List (Option FeedEntity))
unpack buf = some entities

abbrev on_time : Tdata
on_time = record {
  calendar_start_time = 0;
  n_stops = 0;
  n_routes = 0;
  stops = λ _. record { stop_routes_offset = 0; transfers_offset = 0 };
  routes = λ _. record {
    route_stops_offset = 0;
    trip_ids_offset = 0;
    headsign_offset = 0;
    n_stops = 0;
    n_trips = 0;
    attributes = 0;
    agency_index = 0;
    shortname_index = 0;
    productcategory_index = 0;
    min_time = 0;
    max_time = 0;
  };
  route_stops = λ _. 0;
  route_stop_attributes = λ _. 0;
  stop_times = λ _. record { arrival = 0; departure = 0 };
  trips = λ _. record { stop_times_offset = 0; begin_time = 0; realtime_delay = 0 };
  stop_routes = λ _. 0;
  transfer_target_stops = λ _. 0;
  transfer_dist_meters = λ _. 0;
  trip_active = λ _. 0;
  route_active = λ _. 0;
  trip_attributes = λ _. 0;
}

late :
    map_option (λ td. (td.trips 0).realtime_delay) (tdata_apply_gtfsrt index unpack [] on_time)
    ≡ some 15
unfolding tdata_apply_gtfsrt apply_entities apply_delay rxt_find
late = refl

-- The canceled trip is not CANCELED.
not_canceled :
    map_option (λ td. (td.trips 1).realtime_delay) (tdata_apply_gtfsrt index unpack [] on_time)
    ≡ some 8191
unfolding tdata_apply_gtfsrt apply_entities apply_delay rxt_find
not_canceled = refl

-- A trip without an id.
nameless : tdata_apply_gtfsrt index (λ buf. some (unnamed ∷ [])) [] on_time ≡ none
unfolding tdata_apply_gtfsrt apply_entities apply_delay
nameless = refl

tdata_apply_gtfsrt_example :
    let positions = processed (entities_of (unpack [])) in
    Delays
      (crashes index positions)
      (λ k. last_for index k positions)
      on_time.trips
      (map_option (λ td. td.trips) (tdata_apply_gtfsrt index unpack [] on_time))
tdata_apply_gtfsrt_example = tdata_apply_gtfsrt_lem index unpack [] on_time

-- What the message makes of the trips.
abbrev updated : Tdata
updated = record on_time {
  trips = delay_trip index second (delay_trip index first on_time.trips 0) 1;
}

updates : tdata_apply_gtfsrt index unpack [] on_time ≡ some updated
unfolding tdata_apply_gtfsrt apply_entities apply_delay rxt_find
updates = refl

tdata_apply_gtfsrt-canceled_example :
    let delay = (updated.trips 1).realtime_delay in
    ((delay ≡ 0) ⊎ IsDelay delay) × (delay ≡ canceled → 0 ≡ canceled)
tdata_apply_gtfsrt-canceled_example =
    tdata_apply_gtfsrt-canceled index unpack [] on_time updated 1 updates
      (λ e. absurd (omega arith))
