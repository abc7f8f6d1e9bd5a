-- ===== src/Tdata/Coherent/Tests.antt =====
-- A coherent timetable, one with a transfer that has none back, and instances of the theorems.
use rrrr.Prelude.{ℕ, ◌≡◌, ◌↔◌, refl, [], ◌∷◌, if◌then◌else◌, ◌==◌, ltb, arith}
use rrrr.Tdata.{Tdata}
use rrrr.Tdata.Coherent.{
  Ranges, warnings, tdata_check_coherent, route_messages, stop_messages, transfer_messages,
  no_reverse, checked_transfers,
}
use rrrr.Tdata.Coherent.Laws.{IsCoherent, warnings-IsCoherent}
use rrrr.Tdata.Coherent.Symmetric.{transfer_distance-warnings}
use rrrr.Router.Plan.{transfer_distance}
use rrrr.Router.Tests.{shuttle, ask, walk_sec}

abbrev world : Ranges ℕ
world = record { min_lat = 0; max_lat = 70; min_lon = 0; max_lon = 180 }

abbrev coords : ℕ → ℕ × ℕ
coords s = (s, s)

-- Stop 0 and stop 1 have a transfer to each other.
abbrev linked : Tdata
linked = record shuttle {
  stops = λ s. record { stop_routes_offset = s; transfers_offset = s };
  transfer_target_stops = λ t. if t == 0 then 1 else 0;
  transfer_dist_meters = λ _. 10;
}

quiet : warnings linked ltb world coords ≡ []
unfolding warnings route_messages stop_messages transfer_messages
quiet = refl

-- Only stop 0 has a transfer.
one_way_run :
    tdata_check_coherent
      (record linked {
        stops = λ s. record { stop_routes_offset = s; transfers_offset = if s == 0 then 0 else 1 };
      })
      ltb
      world
      coords
    ≡ no_reverse 0 1 ∷ checked_transfers 0 ∷ []
unfolding tdata_check_coherent warnings route_messages stop_messages transfer_messages
one_way_run = refl

warnings-IsCoherent_example :
    (warnings linked ltb world coords ≡ []) ↔ IsCoherent linked ltb world coords
warnings-IsCoherent_example = warnings-IsCoherent linked ltb world coords

transfer_distance-warnings_example :
    transfer_distance linked walk_sec ask 0 1 ≡ transfer_distance linked walk_sec ask 1 0
transfer_distance-warnings_example =
    transfer_distance-warnings linked walk_sec ask ltb world coords 0 1 quiet (omega arith)
      (omega arith)
