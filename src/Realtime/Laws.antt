-- ===== src/Realtime/Laws.antt =====
-- What a realtime message does to the delays of the trips.
use rrrr.Prelude.{
  map_option, ℕ, ◌-◌, ◌*◌, ◌^◌, ◌<◌, ◌≤◌, ◌≡◌, ◌≢◌, ◌⊎◌, refl, sym, subst, Bool, Option, none, some,
  List, [], arith, ltb, ◌==◌, if◌then◌else◌, Bool-cases, inl, inr,
}
use rrrr.Rtime.{canceled}
use rrrr.Tdata.{Tdata, Trip}
use rrrr.Prelude.Effects.{◌>>=◌}
use rrrr.Radix.{Edge, radix_tree_none}
use rrrr.Realtime.{
  TripDescriptor, VehiclePosition, FeedEntity, abs, delay_rtime, or_zero, delay_seconds,
  apply_entities, tdata_apply_gtfsrt,
}
use rrrr.Realtime.Rounds.{processed, crashes, last_for, delay_or, Delays, apply_entities-Delays}

-- The entities of a message; none if it cannot be decoded.
abbrev pub entities_of : Option (List (Option FeedEntity)) → List (Option FeedEntity)
entities_of none = []
entities_of (some entities) = entities

-- The code crashes exactly if the trip of one of the vehicles up to the first entity that lacks a
-- vehicle or a trip has no id, on a tree that is not NULL. Otherwise, the delay of a trip is that
-- of the last of these vehicles whose trip `rxt_find` takes for it; it is the old one if there is
-- none, or the message cannot be decoded.
pub tdata_apply_gtfsrt_lem :
    (index : Edge) (unpack : List ℕ → Option (List (Option FeedEntity))) (buf : List ℕ) (td : Tdata)
    → let positions = processed (entities_of (unpack buf)) in
      Delays
        (crashes index positions)
        (λ k. last_for index k positions)
        td.trips
        (map_option (λ td'. td'.trips) (tdata_apply_gtfsrt index unpack buf td))
unfolding tdata_apply_gtfsrt
tdata_apply_gtfsrt_lem index unpack buf td = go (unpack buf)
  where
    end :
        (r : Option (ℕ → Trip)) (crash : Bool)
        (last : ℕ → Option (VehiclePosition × TripDescriptor))
        → Delays crash last td.trips r
        → Delays crash last td.trips (
            map_option
              (λ (td' : Tdata). td'.trips)
              (r >>= λ trips. some (record td { trips = trips })))
    end none crash last h = h
    end (some trips) crash last h = h

    go :
        (o : Option (List (Option FeedEntity)))
        → let positions = processed (entities_of o) in
          Delays
            (crashes index positions)
            (λ k. last_for index k positions)
            td.trips
            (map_option
              (λ (td' : Tdata). td'.trips)
              (elim o as (λ _. Option Tdata) [
                | none ↦ some td
                | some entities ↦ apply_entities index entities td.trips >>= λ trips.
                    some (record td { trips = trips })
              ]))
    go none = (refl, λ k some_trip. refl)
    go (some entities) = end _ _ _ (apply_entities-Delays index entities td.trips)

-- A delay in units of four seconds: at most two hours late, at most two hours early, or the 8191
-- that `SEC_TO_RTIME` makes of CANCELED.
abbrev pub IsDelay : ℕ → Type 0
IsDelay d = (d ≤ 1800) ⊎ ((2 ^ 16 - 1800 ≤ d) × (d < 2 ^ 16)) ⊎ (d ≡ 8191)

delay_rtime-IsDelay :
    (position : VehiclePosition × TripDescriptor) → IsDelay (delay_rtime (delay_seconds position))
delay_rtime-IsDelay (vehicle, trip) = elim (Bool-cases trip.is_canceled) [
  | inl e ↦ rw e (inr (inr refl))
  | inr e ↦ rw e (bounded (or_zero vehicle.delay))
]
  where
    bounded : (d : ℕ) → IsDelay (delay_rtime (if ltb (60 * 120) (abs d) then 0 else d))
    bounded d = elim (Bool-cases (ltb (60 * 120) (abs d))) [
      | inl e ↦ rw e (inl (omega arith))
      | inr e ↦ rw e (elim (Bool-cases (ltb d (2 ^ 31))) [
        | inl late ↦ rw late (inl (ground arith))
        | inr early ↦
            let near : 2 ^ 32 - d ≤ 7200 = ground arith in
            rw early (elim (Bool-cases (2 ^ 32 - d == 0)) [
              | inl punctual ↦ inl (ground arith)
              | inr some_time ↦ inr (inl (ground arith, ground arith))
            ])
      ])
    ]

-- A message whose reading does not crash leaves the delay of a trip as it was, or at most two hours
-- late or early, or, for a canceled trip, 8191; so a trip is CANCELED after a message only if it was
-- before.
pub tdata_apply_gtfsrt-canceled :
    (index : Edge) (unpack : List ℕ → Option (List (Option FeedEntity))) (buf : List ℕ)
    (td td' : Tdata) (k : ℕ)
    → tdata_apply_gtfsrt index unpack buf td ≡ some td'
    → k ≢ radix_tree_none
    → let delay = (td'.trips k).realtime_delay in
      ((delay ≡ (td.trips k).realtime_delay) ⊎ IsDelay delay)
      × (delay ≡ canceled → (td.trips k).realtime_delay ≡ canceled)
tdata_apply_gtfsrt-canceled index unpack buf td td' k runs some_trip =
    let positions = processed (entities_of (unpack buf)) in
    let after =
      subst
        (λ (r : Option Tdata).
          Delays (crashes index positions) (λ k. last_for index k positions) td.trips
            (map_option (λ (t : Tdata). t.trips) r))
        runs (tdata_apply_gtfsrt_lem index unpack buf td) in
    subst
      (λ d.
        ((d ≡ (td.trips k).realtime_delay) ⊎ IsDelay d)
        × (d ≡ canceled → (td.trips k).realtime_delay ≡ canceled))
      (sym (after.1 k some_trip)) (go (last_for index k positions))
  where
    never : (d : ℕ) → IsDelay d → d ≡ canceled → (td.trips k).realtime_delay ≡ canceled
    never d (inl le) e = absurd (omega arith)
    never d (inr (inl (le, lt))) e = absurd (omega arith)
    never d (inr (inr q)) e = absurd (omega arith)

    go :
        (o : Option (VehiclePosition × TripDescriptor))
        → let d = delay_or (td.trips k).realtime_delay o in
          ((d ≡ (td.trips k).realtime_delay) ⊎ IsDelay d)
          × (d ≡ canceled → (td.trips k).realtime_delay ≡ canceled)
    go none = (inl refl, λ e. e)
    go (some position) =
        (inr (delay_rtime-IsDelay position), never _ (delay_rtime-IsDelay position))
