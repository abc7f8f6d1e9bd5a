-- ===== src/Realtime/Rounds.antt =====
-- The rounds of the loop over a realtime message: the delay that each trip is left with.
use rrrr.Prelude.{
  ◌||◌, ℕ, ◌≡◌, ◌≢◌, ◌⊎◌, ◌∙◌, refl, sym, ap, Bool, true, false, Option, none, some, List, [], ◌∷◌,
  arith, ◌==◌, update_self, update_ne, Bool-cases, ==_iff, inl, inr,
}
use rrrr.Tdata.{Trip}
use rrrr.Prelude.Effects.{◌>>=◌}
use rrrr.Radix.{Edge, radix_tree_none, rxt_find}
use rrrr.Realtime.{
  TripDescriptor, VehiclePosition, FeedEntity, delay_rtime, delay_seconds, vehicle_and_trip,
  find_id, delay_trip, apply_delay, apply_entities,
}

-- The vehicles with trips of a message, up to the first entity that lacks one of them.
abbrev pub processed : List (Option FeedEntity) → List (VehiclePosition × TripDescriptor)
processed [] = []
processed (entity ∷ entities) = elim (vehicle_and_trip entity) [
  | none ↦ []
  | some position ↦ position ∷ processed entities
]

-- Whether `rxt_find` takes a trip id for the trip `k`.
abbrev pub is_for : Edge → ℕ → Option (List ℕ) → Bool
is_for index k (some trip_id) = rxt_find index trip_id == k
is_for index k none = false

-- Whether `rxt_find` reads a key that is NULL.
abbrev pub is_read_null : Edge → Option (List ℕ) → Bool
is_read_null index (some trip_id) = false
is_read_null Edge.null none = false
is_read_null (Edge.edge next child value prefix) none = true

abbrev pub key_of : VehiclePosition × TripDescriptor → Option (List ℕ)
key_of (vehicle, trip) = trip.trip_id

abbrev pub crashes : Edge → List (VehiclePosition × TripDescriptor) → Bool
crashes index [] = false
crashes index (position ∷ positions) =
    is_read_null index (key_of position) || crashes index positions

-- The last of them whose trip has the index `k`.
abbrev pub or_this :
    Bool
    → VehiclePosition × TripDescriptor
    → Option (VehiclePosition × TripDescriptor)
    → Option (VehiclePosition × TripDescriptor)
or_this this position (some later) = some later
or_this true position none = some position
or_this false position none = none

abbrev pub last_for :
    Edge → ℕ → List (VehiclePosition × TripDescriptor) → Option (VehiclePosition × TripDescriptor)
last_for index k [] = none
last_for index k (position ∷ positions) =
    or_this (is_for index k (key_of position)) position (last_for index k positions)

-- The delay of that one, or else the old one.
abbrev pub delay_or : ℕ → Option (VehiclePosition × TripDescriptor) → ℕ
delay_or old none = old
delay_or old (some position) = delay_rtime (delay_seconds position)

-- A crash if the code reads a key that is NULL, and otherwise trips in which each delay is that of
-- the last vehicle for the trip.
abbrev pub Delays :
    Bool → (ℕ → Option (VehiclePosition × TripDescriptor)) → (ℕ → Trip) → Option (ℕ → Trip) → Type 0
Delays crash last trips none = crash ≡ true
Delays crash last trips (some trips') =
    (crash ≡ false)
    × ((k : ℕ)
        → k ≢ radix_tree_none
        → (trips' k).realtime_delay ≡ delay_or (trips k).realtime_delay (last k))

delay_trip-at :
    (position : VehiclePosition × TripDescriptor) (index : Edge) (trips : ℕ → Trip) (found k : ℕ)
    → k ≢ radix_tree_none
    → (later : Option (VehiclePosition × TripDescriptor))
    → delay_or (delay_trip index position trips found k).realtime_delay later
      ≡ delay_or (trips k).realtime_delay (or_this (found == k) position later)
delay_trip-at position index trips found k some_trip (some later) = refl
delay_trip-at position index trips found k some_trip none = elim (Bool-cases (found == k)) [
  | inl e ↦
      let at_k : found ≡ k = (==_iff found k).0 e in
      let exists : (k == radix_tree_none) ≡ false = ground arith in
      rw (at_k, exists, self) (ap (λ (t : Trip). t.realtime_delay) (update_self trips k _))
  | inr e ↦ rw e (other e (Bool-cases (found == radix_tree_none)))
]
  where
    self : (k == k) ≡ true
    self = ground arith

    other :
        (found == k) ≡ false
        → ((found == radix_tree_none) ≡ true) ⊎ ((found == radix_tree_none) ≡ false)
        → (delay_trip index position trips found k).realtime_delay ≡ (trips k).realtime_delay
    other e (inl q) = rw q refl
    other e (inr q) =
        rw q (ap (λ (t : Trip). t.realtime_delay) (update_ne trips found k _ (ground arith)))

clash : {a : ℕ} → ◌≡◌ {A = Option ℕ} none (some a) → ⊥
clash e = cc

null_lem : (index : Edge) → find_id index none ≡ none → is_read_null index none ≡ true
null_lem Edge.null e = absurd (clash (sym e))
null_lem (Edge.edge next child value prefix) e = refl

unread_lem :
    (index : Edge) (found : ℕ)
    → find_id index none ≡ some found
    → (is_read_null index none ≡ false) × (found ≡ radix_tree_none)
unread_lem Edge.null found e = (refl, cc)
unread_lem (Edge.edge next child value prefix) found e = absurd (clash e)

module _ (index : Edge) (position : VehiclePosition × TripDescriptor)
    (entities : List (Option FeedEntity)) (trips : ℕ → Trip) where
  -- A round that finds the trip `found`, and the rounds after it.
  found-Delays :
      (found : ℕ) (key : Option (List ℕ)) (r : Option (ℕ → Trip))
      → ((k : ℕ) → k ≢ radix_tree_none → (found == k) ≡ is_for index k key)
      → is_read_null index key ≡ false
      → Delays
          (crashes index (processed entities))
          (λ k. last_for index k (processed entities))
          (delay_trip index position trips found)
          r
      → Delays
          (is_read_null index key || crashes index (processed entities))
          (λ k. or_this (is_for index k key) position (last_for index k (processed entities)))
          trips
          r
  found-Delays found key none same readable h = rw readable h
  found-Delays found key (some trips') same readable (ok, h) = (
    rw readable ok,
    λ k some_trip.
        h k some_trip
        ∙ delay_trip-at position index trips found k some_trip
            (last_for index k (processed entities))
        ∙ ap
            (λ b.
              delay_or (trips k).realtime_delay
                (or_this b position (last_for index k (processed entities))))
            (same k some_trip),
  )

  round-Delays :
      (key : Option (List ℕ))
      → ((trips' : ℕ → Trip)
          → Delays
              (crashes index (processed entities))
              (λ k. last_for index k (processed entities))
              trips'
              (apply_entities index entities trips'))
      → Delays
          (is_read_null index key || crashes index (processed entities))
          (λ k. or_this (is_for index k key) position (last_for index k (processed entities)))
          trips
          (find_id index key
            >>= (λ k. some (delay_trip index position trips k))
            >>= apply_entities index entities)
  round-Delays (some trip_id) rest =
      found-Delays (rxt_find index trip_id) (some trip_id) _ (λ k some_trip. refl) refl
        (rest (delay_trip index position trips (rxt_find index trip_id)))
  round-Delays none rest = go (find_id index none) refl
    where
      go :
          (o : Option ℕ)
          → find_id index none ≡ o
          → Delays
              (is_read_null index none || crashes index (processed entities))
              (λ k. or_this false position (last_for index k (processed entities)))
              trips
              (o
                >>= (λ k. some (delay_trip index position trips k))
                >>= apply_entities index entities)
      go none e = ap (λ b. b || crashes index (processed entities)) (null_lem index e)
      go (some found) e =
          let (readable, is_none) = unread_lem index found e in
          found-Delays found none _ (λ k some_trip. rw is_none (ground arith)) readable
            (rest (delay_trip index position trips found))

pub apply_entities-Delays :
    (index : Edge) (entities : List (Option FeedEntity)) (trips : ℕ → Trip)
    → Delays
        (crashes index (processed entities))
        (λ k. last_for index k (processed entities))
        trips
        (apply_entities index entities trips)
unfolding apply_entities apply_delay
apply_entities-Delays index [] trips = (refl, λ k some_trip. refl)
apply_entities-Delays index (entity ∷ entities) trips =
    go (vehicle_and_trip entity) (λ trips'. apply_entities-Delays index entities trips')
  where
    go :
        (o : Option (VehiclePosition × TripDescriptor))
        → ((trips' : ℕ → Trip)
            → Delays
                (crashes index (processed entities))
                (λ k. last_for index k (processed entities))
                trips'
                (apply_entities index entities trips'))
        → let positions = elim o as (λ _. List (VehiclePosition × TripDescriptor)) [
          | none ↦ []
          | some position ↦ position ∷ processed entities
        ] in
          Delays
            (crashes index positions)
            (λ k. last_for index k positions)
            trips
            (elim o as (λ _. Option (ℕ → Trip)) [
              | none ↦ some trips
              | some position ↦ apply_delay index position trips >>= apply_entities index entities
            ])
    go none rest = (refl, λ k some_trip. refl)
    go (some position) rest = round-Delays index position entities trips (key_of position) rest
