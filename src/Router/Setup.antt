-- ===== src/Router/Setup.antt =====
-- `tdata_clear_gtfsrt` of tdata.c, which sets a timetable up for a new realtime message.
use rrrr.Prelude.{
  ℕ, zero, suc, ◌+◌, ◌≤◌, ◌<◌, ◌≡◌, ◌⊎◌, refl, List, [], ◌∷◌, arith, range_from, update, update-all,
  update_self, Bool-cases, ==_iff, ◌==◌, inl, inr,
}
use rrrr.Tdata.{Tdata, Trip}

-- The inner loop, over the trips `t` of a route whose trips begin at `offset`.
pub clear_trips : ℕ → List ℕ → (ℕ → Trip) → ℕ → Trip
clear_trips offset [] trips = trips
clear_trips offset (t ∷ ts) trips =
    clear_trips offset ts
      (update trips (offset + t) (record (trips (offset + t)) { realtime_delay = 0 }))

pub clear_routes : Tdata → List ℕ → (ℕ → Trip) → ℕ → Trip
clear_routes td [] trips = trips
clear_routes td (r ∷ rs) trips =
    let route = td.routes r in
    clear_routes td rs (clear_trips route.trip_ids_offset (range_from 0 route.n_trips) trips)

pub tdata_clear_gtfsrt : Tdata → Tdata
tdata_clear_gtfsrt td = record td { trips = clear_routes td (range_from 0 td.n_routes) td.trips }

-- What holds of a delay and of 0 holds of the delay after the loops.
clear_trips-keeps :
    (P : ℕ → Type 0) (offset k : ℕ) (ts : List ℕ) (trips : ℕ → Trip)
    → P 0
    → P (trips k).realtime_delay
    → P (clear_trips offset ts trips k).realtime_delay
unfolding clear_trips
clear_trips-keeps P offset k [] trips z h = h
clear_trips-keeps P offset k (t ∷ ts) trips z h =
    clear_trips-keeps P offset k ts _ z
      (update-all (λ (trip : Trip). P trip.realtime_delay) trips (offset + t) k _ z h)

clear_routes-keeps :
    (P : ℕ → Type 0) (td : Tdata) (k : ℕ) (rs : List ℕ) (trips : ℕ → Trip)
    → P 0
    → P (trips k).realtime_delay
    → P (clear_routes td rs trips k).realtime_delay
unfolding clear_routes
clear_routes-keeps P td k [] trips z h = h
clear_routes-keeps P td k (r ∷ rs) trips z h =
    clear_routes-keeps P td k rs _ z (clear_trips-keeps P _ k _ trips z h)

clear_trips-clears :
    (offset n i t : ℕ) (trips : ℕ → Trip)
    → i ≤ t
    → t < i + n
    → (clear_trips offset (range_from i n) trips (offset + t)).realtime_delay ≡ 0
unfolding clear_trips
clear_trips-clears offset zero i t trips le lt = absurd (omega arith)
clear_trips-clears offset (suc n) i t trips le lt = elim (Bool-cases (i == t)) [
  | inl q ↦
      let e : i ≡ t = (==_iff i t).0 q in
      clear_trips-keeps (λ d. d ≡ 0) offset (offset + t) (range_from (i + 1) n) _ refl
        (rw (e, update_self trips (offset + t) (record (trips (offset + t)) { realtime_delay = 0 }))
          refl)
  | inr q ↦ clear_trips-clears offset n (i + 1) t _ (ground arith) (omega arith)
]

clear_routes-clears :
    (td : Tdata) (n i r t : ℕ) (trips : ℕ → Trip)
    → i ≤ r
    → r < i + n
    → t < (td.routes r).n_trips
    → (clear_routes td (range_from i n) trips ((td.routes r).trip_ids_offset + t)).realtime_delay
      ≡ 0
unfolding clear_routes
clear_routes-clears td zero i r t trips le lt trip = absurd (omega arith)
clear_routes-clears td (suc n) i r t trips le lt trip = elim (Bool-cases (i == r)) [
  | inl q ↦
      let e : i ≡ r = (==_iff i r).0 q in
      clear_routes-keeps (λ d. d ≡ 0) td _ (range_from (i + 1) n) _ refl
        (rw e (
          clear_trips-clears (td.routes r).trip_ids_offset (td.routes r).n_trips 0 t trips
            (omega arith) (omega arith)))
  | inr q ↦ clear_routes-clears td n (i + 1) r t _ (ground arith) (omega arith) trip
]

-- After `tdata_clear_gtfsrt` no trip of any route has a delay, and each other trip has the delay
-- that it had, or none.
pub tdata_clear_gtfsrt_lem :
    (td : Tdata)
    → ((r t : ℕ)
        → r < td.n_routes
        → t < (td.routes r).n_trips
        → ((tdata_clear_gtfsrt td).trips ((td.routes r).trip_ids_offset + t)).realtime_delay ≡ 0)
      × ((k : ℕ)
          → (((tdata_clear_gtfsrt td).trips k).realtime_delay ≡ 0)
            ⊎ (((tdata_clear_gtfsrt td).trips k).realtime_delay ≡ (td.trips k).realtime_delay))
unfolding tdata_clear_gtfsrt
tdata_clear_gtfsrt_lem td = (
  (λ r t lr lt. clear_routes-clears td td.n_routes 0 r t td.trips (omega arith) (omega arith) lt),
  λ k.
      clear_routes-keeps (λ d. (d ≡ 0) ⊎ (d ≡ (td.trips k).realtime_delay)) td k
        (range_from 0 td.n_routes) td.trips (inl refl) (inr refl),
)
