-- ===== src/Tdata/Coherent/Times.antt =====
-- The times of a route that the test of a timetable accepts.
use rrrr.Prelude.{
  ℕ, zero, suc, ◌+◌, ◌≤◌, ◌<◌, ◌≡◌, ◌↔◌, refl, sym, subst, List, [], ltb, ◌==◌, not, ◌&&◌,
  range_from, arith, Bool-cases, inl, inr, ==_iff,
}
use rrrr.Prelude.Collect.{collect, when, when-nil, append-nil, collect-nil}
use rrrr.Tdata.{Tdata, Trip, tdata_trips_for_route}
use rrrr.Tdata.Coherent.{
  Message, begins_late, departs_early, negative_times, total, trip_stoptime, stop_messages,
  nonincreasing, n_nonincreasing_trips, route_messages,
}

-- The loops over counters: they stay at zero exactly if no round adds anything.
total-zero :
    (f : ℕ → ℕ) (lo n : ℕ)
    → (total f (range_from lo n) ≡ 0) ↔ ((i : ℕ) → lo ≤ i → i < lo + n → f i ≡ 0)
total-zero f lo zero = (λ e i p q. absurd (omega arith), λ h. refl)
total-zero f lo (suc n) = (
  λ e i p q. elim (Bool-cases (lo == i)) [
    | inl r ↦ subst (λ k. f k ≡ 0) ((==_iff lo i).0 r) (omega arith)
    | inr r ↦ (total-zero f (lo + 1) n).0 (omega arith) i (ground arith) (ground arith)
  ],
  λ h. omega (arith, h lo, (total-zero f (lo + 1) n).1 (λ i p q. h i (omega arith) (omega arith))),
)

module _ (td : Tdata) where
  -- The times of a trip begin at zero and never run backwards.
  abbrev pub RunsForward : ℕ → Trip → Type 0
  RunsForward n trip =
      (0 < n → (trip_stoptime td trip 0).arrival ≡ 0)
      × ((s : ℕ) → s < n → (trip_stoptime td trip s).arrival ≤ (trip_stoptime td trip s).departure)
      × ((s : ℕ)
          → suc s < n
          → (trip_stoptime td trip s).departure ≤ (trip_stoptime td trip (suc s)).arrival)

  stop_messages_lem :
      (r t : ℕ) (trip : Trip) (s : ℕ)
      → (stop_messages td r t trip s ≡ []) ↔ (
          (s ≡ 0 → (trip_stoptime td trip s).arrival ≡ 0)
          × ((trip_stoptime td trip s).arrival ≤ (trip_stoptime td trip s).departure))
  unfolding stop_messages
  stop_messages_lem r t trip s = (
    λ e.
        let (p, q) = (append-nil (when (s == 0 && not (a == 0)) late) (when (ltb d a) early)).0 e in
        let p' = (when-nil (s == 0 && not (a == 0)) late).0 p in
        let q' = (when-nil (ltb d a) early).0 q in (λ z. ground arith, ground arith),
    λ (first, stays). (append-nil (when (s == 0 && not (a == 0)) late) (when (ltb d a) early)).1 (
      (when-nil (s == 0 && not (a == 0)) late).1 (elim (Bool-cases (s == 0)) [
        | inl z ↦ rw (z, first ((==_iff s 0).0 z)) refl
        | inr z ↦ rw z refl
      ]),
      (when-nil (ltb d a) early).1 (ground arith),
    ),
  )
    where
      a : ℕ
      a = (trip_stoptime td trip s).arrival

      d : ℕ
      d = (trip_stoptime td trip s).departure

      late : Message
      late = begins_late a d

      early : Message
      early = departs_early r t s

  trip_lem :
      (r t n : ℕ) (trip : Trip)
      → ((collect (stop_messages td r t trip) (range_from 0 n) ≡ [])
          × (total (nonincreasing td trip) (range_from 0 n) ≡ 0))
        ↔ RunsForward n trip
  trip_lem r t n trip = (
    λ (p, q).
        let at = λ (s : ℕ) (l : s < n).
          (stop_messages_lem r t trip s).0
            ((collect-nil (stop_messages td r t trip) 0 n).0 p s (omega arith) (omega arith)) in
        (
          λ l. (at 0 l).0 refl,
          λ s l. (at s l).1,
          λ s l.
              let z =
                (total-zero (nonincreasing td trip) 0 n).0 q (suc s) (omega arith) (omega arith) in
              ground arith,
        ),
    λ (first, stays, advances). (
      (collect-nil (stop_messages td r t trip) 0 n).1 (λ s _ l. (stop_messages_lem r t trip s).1 (
        λ z. subst (λ k. (trip_stoptime td trip k).arrival ≡ 0) (sym z) (first (omega arith)),
        stays s (omega arith),
      )),
      (total-zero (nonincreasing td trip) 0 n).1
          (λ s _ l. step s (λ k e. advances k (omega arith))),
    ),
  )
    where
      step :
          (s : ℕ)
          → ((k : ℕ)
              → s ≡ suc k
              → (trip_stoptime td trip k).departure ≤ (trip_stoptime td trip (suc k)).arrival)
          → nonincreasing td trip s ≡ 0
      step zero h = refl
      step (suc k) h = let le = h k refl in ground arith

  pub route_messages_lem :
      (r : ℕ)
      → (route_messages td r ≡ []) ↔ (
          (t : ℕ)
          → t < (td.routes r).n_trips
          → RunsForward (td.routes r).n_stops (tdata_trips_for_route td r t))
  unfolding route_messages
  route_messages_lem r = (
    λ e t l.
        let (p, q) = (append-nil texts (when (ltb 0 count) (negative_times r count))).0 e in
        let q' = (when-nil (ltb 0 count) (negative_times r count)).0 q in
        (trip_lem r t (td.routes r).n_stops (tdata_trips_for_route td r t)).0 (
          (collect-nil text_at 0 (td.routes r).n_trips).0 p t (omega arith) (omega arith),
          (total-zero counter 0 (td.routes r).n_trips).0 (ground arith) t (omega arith)
              (omega arith),
        ),
    λ h.
        let at = λ (t : ℕ) (l : t < (td.routes r).n_trips).
          (trip_lem r t (td.routes r).n_stops (tdata_trips_for_route td r t)).1 (h t l) in
        let zero_count =
          (total-zero counter 0 (td.routes r).n_trips).1 (λ t _ l. (at t (omega arith)).1) in
        (append-nil texts (when (ltb 0 count) (negative_times r count))).1 (
          (collect-nil text_at 0 (td.routes r).n_trips).1 (λ t _ l. (at t (omega arith)).0),
          (when-nil (ltb 0 count) (negative_times r count)).1 (ground arith),
        ),
  )
    where
      count : ℕ
      count = n_nonincreasing_trips td r

      counter : ℕ → ℕ
      counter t =
          total (nonincreasing td (tdata_trips_for_route td r t))
            (range_from 0 (td.routes r).n_stops)

      text_at : ℕ → List Message
      text_at t =
          collect (stop_messages td r t (tdata_trips_for_route td r t))
            (range_from 0 (td.routes r).n_stops)

      texts : List Message
      texts = collect text_at (range_from 0 (td.routes r).n_trips)
