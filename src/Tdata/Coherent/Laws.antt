-- ===== src/Tdata/Coherent/Laws.antt =====
-- A timetable is coherent exactly if its test prints no warning.
use rrrr.Prelude.{ℕ, ◌+◌, ◌-◌, ◌≤◌, ◌<◌, ◌≡◌, ◌↔◌, Bool, false, List, [], ◌++◌, range_from, arith}
use rrrr.Prelude.Collect.{collect, when, when-nil, append-nil, collect-nil}
use rrrr.Tdata.{Tdata, tdata_trips_for_route}
use rrrr.Tdata.Coherent.Mirrored.{IsMirrored, transfer_messages_lem}
use rrrr.Tdata.Coherent.{
  Message, out_of_range, Ranges, is_out_of_range, route_messages, transfers_out, transfer_messages,
  warnings,
}
use rrrr.Tdata.Coherent.Times.{RunsForward, route_messages_lem}

module _ (td : Tdata) where
  stop_transfers_lem :
      (stop : ℕ)
      → (collect (transfer_messages td stop) (transfers_out td stop) ≡ []) ↔ (
          (t : ℕ)
          → (td.stops stop).transfers_offset ≤ t
          → t < (td.stops (stop + 1)).transfers_offset
          → IsMirrored td stop t)
  stop_transfers_lem stop =
      let lo = (td.stops stop).transfers_offset in
      let hi = (td.stops (stop + 1)).transfers_offset in
      let each = collect-nil (transfer_messages td stop) lo (hi - lo) in
      (
        λ e t le lt. (transfer_messages_lem td stop t).0 (each.0 e t le (omega arith)),
        λ h. each.1 (λ t le lt. (transfer_messages_lem td stop t).1 (h t le (omega arith))),
      )

  module _ {F : Type 0} (less : F → F → Bool) (ranges : Ranges F) (stop_coords : ℕ → F × F) where
    -- Every stop lies in the range of coordinates, every trip runs forward in time, and every
    -- transfer leads to another stop, from which the first one back is as long.
    abbrev pub IsCoherent : Type 0
    IsCoherent =
        ((s : ℕ) → s < td.n_stops → is_out_of_range less ranges (stop_coords s) ≡ false)
        × ((r t : ℕ)
            → r < td.n_routes
            → t < (td.routes r).n_trips
            → RunsForward td (td.routes r).n_stops (tdata_trips_for_route td r t))
        × ((s t : ℕ)
            → s < td.n_stops
            → (td.stops s).transfers_offset ≤ t
            → t < (td.stops (s + 1)).transfers_offset
            → IsMirrored td s t)

    -- The test of a timetable prints no warning if and only if the timetable is coherent: the stops
    -- lie in the range of coordinates, each trip starts at time zero, never leaves a stop before it
    -- arrives there nor arrives before it left the stop before, and each transfer leads to another
    -- stop and has a first transfer back, of the same length.
    pub warnings-IsCoherent : (warnings td less ranges stop_coords ≡ []) ↔ IsCoherent
    unfolding warnings
    warnings-IsCoherent = (
      λ e.
          let (p, qr) = (append-nil stops (routes ++ transfers)).0 e in
          let (q, r) = (append-nil routes transfers).0 qr in
          (
            λ s l.
                (when-nil _ (out_of_range s)).0
                  ((collect-nil stop_at 0 td.n_stops).0 p s (omega arith) (omega arith)),
            λ r t l.
                (route_messages_lem td r).0
                  ((collect-nil (route_messages td) 0 td.n_routes).0 q r (omega arith)
                    (omega arith))
                  t,
            λ s t l.
                (stop_transfers_lem s).0
                  ((collect-nil transfers_at 0 td.n_stops).0 r s (omega arith) (omega arith)) t,
          ),
      λ (in_range, forward, mirrored). (append-nil stops (routes ++ transfers)).1 (
        (collect-nil stop_at 0 td.n_stops).1
            (λ s _ l. (when-nil _ (out_of_range s)).1 (in_range s (omega arith))),
        (append-nil routes transfers).1 (
          (collect-nil (route_messages td) 0 td.n_routes).1
              (λ r _ l. (route_messages_lem td r).1 (λ t. forward r t (omega arith))),
          (collect-nil transfers_at 0 td.n_stops).1
              (λ s _ l. (stop_transfers_lem s).1 (λ t. mirrored s t (omega arith))),
        ),
      ),
    )
      where
        stop_at : ℕ → List Message
        stop_at s = when (is_out_of_range less ranges (stop_coords s)) (out_of_range s)

        stops : List Message
        stops = collect stop_at (range_from 0 td.n_stops)

        routes : List Message
        routes = collect (route_messages td) (range_from 0 td.n_routes)

        transfers_at : ℕ → List Message
        transfers_at s = collect (transfer_messages td s) (transfers_out td s)

        transfers : List Message
        transfers = collect transfers_at (range_from 0 td.n_stops)
