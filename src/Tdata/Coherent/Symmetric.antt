-- ===== src/Tdata/Coherent/Symmetric.antt =====
-- The walking distances of a timetable that passes the test of tdata.c, as router.c looks them up.
use rrrr.Prelude.{
  ℕ, ◌+◌, ◌≤◌, ◌<◌, ◌≡◌, refl, sym, ◌∙◌, ap, subst, Bool, false, Option, none, some, List, [], ◌∷◌,
  ◌==◌, Bool-cases, inl, inr, ==_iff, arith,
}
use rrrr.Rtime.{unreached}
use rrrr.Tdata.{Tdata}
use rrrr.Tdata.Coherent.{Ranges, warnings, transfers_out, distance, find_reverse}
use rrrr.Tdata.Coherent.Mirrored.{Finds, IsMirrored, transfers_out-Finds, first_unique}
use rrrr.Tdata.Coherent.Laws.{warnings-IsCoherent}
use rrrr.Router.{RouterRequest}
use rrrr.Router.Plan.{first_transfer, transfer_distance}

module _ {F : Type 0} (td : Tdata) (walk_sec : F → ℕ → ℕ → ℕ) (req : RouterRequest F) where
  abbrev found_distance : Option ℕ → ℕ
  found_distance none = unreached
  found_distance (some u) = distance td u

  first_transfer_lem :
      (stop : ℕ) (ts : List ℕ)
      → first_transfer td walk_sec req (distance td) stop ts
        ≡ found_distance (find_reverse td stop ts)
  first_transfer_lem stop [] = refl
  first_transfer_lem stop (t ∷ ts) = elim (Bool-cases (td.transfer_target_stops t == stop)) [
    | inl p ↦ rw p refl
    | inr p ↦ rw p (first_transfer_lem stop ts)
  ]

  abbrev AllMirrored : ℕ → Type 0
  AllMirrored s =
      (t : ℕ)
      → (td.stops s).transfers_offset ≤ t
      → t < (td.stops (s + 1)).transfers_offset
      → IsMirrored td s t

  abbrev pub FindsOut : ℕ → ℕ → Option ℕ → Type 0
  FindsOut stop from =
      Finds td stop (td.stops from).transfers_offset (td.stops (from + 1)).transfers_offset

  -- The way back from where a transfer leads.
  back_lem :
      (a b u : ℕ)
      → AllMirrored a
      → FindsOut b a (some u)
      → (v : ℕ) × FindsOut a b (some v) × (distance td v ≡ distance td u)
  back_lem a b u m (le, lt, e, h) =
      subst (λ s. (v : ℕ) × FindsOut a s (some v) × (distance td v ≡ distance td u)) e (m u le lt).1

  found_lem :
      (a b : ℕ) (o p : Option ℕ)
      → AllMirrored a
      → AllMirrored b
      → FindsOut b a o
      → FindsOut a b p
      → found_distance o ≡ found_distance p
  found_lem a b none none m n f g = refl
  found_lem a b none (some v) m n f g =
      let (u, (le, lt, e, h), d) = back_lem b a v n g in absurd (f u le lt e)
  found_lem a b (some u) none m n f g =
      let (v, (le, lt, e, h), d) = back_lem a b u m f in absurd (g v le lt e)
  found_lem a b (some u) (some v) m n f g =
      let (w, first, d) = back_lem a b u m f in
      sym d ∙ ap (distance td) (first_unique td a _ _ w v first g)

  module _ (less : F → F → Bool) (ranges : Ranges F) (stop_coords : ℕ → F × F) where
    -- If the test of a timetable prints no warning, the distance that the router finds for the walk
    -- from a stop to another is the one it finds for the way back, and there is a transfer one way
    -- only if there is one the other way.
    pub transfer_distance-warnings :
        (a b : ℕ)
        → warnings td less ranges stop_coords ≡ []
        → a < td.n_stops
        → b < td.n_stops
        → transfer_distance td walk_sec req a b ≡ transfer_distance td walk_sec req b a
    unfolding transfer_distance
    transfer_distance-warnings a b quiet la lb =
        let mirrored = ((warnings-IsCoherent td less ranges stop_coords).0 quiet).2 in
        let same =
          first_transfer_lem b (transfers_out td a)
          ∙ found_lem a b _ _ (λ t. mirrored a t la) (λ t. mirrored b t lb)
              (transfers_out-Finds td b a) (transfers_out-Finds td a b)
          ∙ sym (first_transfer_lem a (transfers_out td b)) in
        elim (Bool-cases (a == b)) [
          | inl p ↦ let q = (==_iff b a).1 (sym ((==_iff a b).0 p)) in rw (p, q) refl
          | inr p ↦ let q : (b == a) ≡ false = ground arith in rw (p, q) same
        ]
