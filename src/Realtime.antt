-- ===== src/Realtime.antt =====
-- tdata.c: `tdata_apply_gtfsrt`. A decoded message is the list of its entities, with `none` for a
-- pointer that is NULL; the generated decoder is the argument `unpack`. A signed 32-bit number of
-- seconds is its bit pattern.
pub mod Laws
pub mod Rounds
mod Tests
use rrrr.Prelude.{
  ℕ, ◌+◌, ◌-◌, ◌*◌, ◌/◌, ◌%◌, ◌^◌, Bool, true, false, Option, none, some, List, [], ◌∷◌, ltb, ◌==◌,
  if◌then◌else◌, update,
}
use rrrr.Prelude.Effects.{◌>>=◌}
use rrrr.Rtime.{canceled}
use rrrr.Tdata.{Tdata, Trip}
use rrrr.Radix.{Edge, radix_tree_none, rxt_find}

pub record TripDescriptor : Type 0 where
  pub trip_id : Option (List ℕ)
  pub is_canceled : Bool

pub record VehiclePosition : Type 0 where
  pub trip : Option TripDescriptor
  pub delay : Option ℕ

pub record FeedEntity : Type 0 where
  pub vehicle : Option VehiclePosition

-- `abs`
abbrev pub abs : ℕ → ℕ
abs seconds = if ltb seconds (2 ^ 31) then seconds else 2 ^ 32 - seconds

-- `SEC_TO_RTIME` of a signed number, in an int16_t.
abbrev pub delay_rtime : ℕ → ℕ
delay_rtime seconds =
    (if ltb seconds (2 ^ 31) then seconds / 4 else 2 ^ 32 - (2 ^ 32 - seconds + 3) / 4) % 2 ^ 16

abbrev pub or_zero : Option ℕ → ℕ
or_zero none = 0
or_zero (some delay) = delay

-- `delay_sec`
abbrev pub delay_seconds : VehiclePosition × TripDescriptor → ℕ
delay_seconds (vehicle, trip) =
    if trip.is_canceled
    then canceled
    else if ltb (60 * 120) (abs (or_zero vehicle.delay))
    then 0
    else or_zero vehicle.delay

-- The vehicle and the trip of an entity that has both.
abbrev pub vehicle_and_trip : Option FeedEntity → Option (VehiclePosition × TripDescriptor)
vehicle_and_trip entity = do
  e ← entity
  vehicle ← e.vehicle
  trip ← vehicle.trip
  some (vehicle, trip)

-- `rxt_find`, which reads the key at the first edge: it crashes on a key that is NULL, unless the
-- tree is NULL.
abbrev pub find_id : Edge → Option (List ℕ) → Option ℕ
find_id index (some trip_id) = some (rxt_find index trip_id)
find_id Edge.null none = some radix_tree_none
find_id (Edge.edge next child value prefix) none = none

-- `none` for a crash.
module _ (tripid_index : Edge) where
  abbrev pub trip_index : VehiclePosition × TripDescriptor → Option ℕ
  trip_index (vehicle, trip) = find_id tripid_index trip.trip_id

  -- The end of the loop's body.
  abbrev pub delay_trip : VehiclePosition × TripDescriptor → (ℕ → Trip) → ℕ → ℕ → Trip
  delay_trip position trips k =
      if k == radix_tree_none
      then trips
      else update trips k
          (record (trips k) { realtime_delay = delay_rtime (delay_seconds position) })

  unfoldable pub apply_delay : VehiclePosition × TripDescriptor → (ℕ → Trip) → Option (ℕ → Trip)
  apply_delay position trips = do k ← trip_index position; some (delay_trip position trips k)

  -- The loop, which ends at the first entity without a vehicle or a trip.
  unfoldable pub apply_entities : List (Option FeedEntity) → (ℕ → Trip) → Option (ℕ → Trip)
  apply_entities [] trips = some trips
  apply_entities (entity ∷ entities) trips = elim (vehicle_and_trip entity) [
    | none ↦ some trips
    | some position ↦ apply_delay position trips >>= apply_entities entities
  ]

  unfoldable pub tdata_apply_gtfsrt :
      (List ℕ → Option (List (Option FeedEntity))) → List ℕ → Tdata → Option Tdata
  tdata_apply_gtfsrt unpack buf td = elim (unpack buf) [
    | none ↦ some td
    | some entities ↦ do
      trips ← apply_entities entities td.trips
      some (record td { trips = trips })
  ]
