-- ===== src/Json/Render/Totals.antt =====
-- The calls of the legs of an itinerary, and the totals that json.c keeps of them.
use native.Mathlib.Nat.{add_assoc, zero-add as zero_add}
use rrrr.Prelude.{
  ◌%◌, ◌^◌, Bool-cases, inl, inr, false, ℕ, ◌+◌, range_from, ◌≡◌, ◌≢◌, All, ◌∙◌, ap, append_assoc,
  ==_iff, arith, List, [], ◌∷◌, ◌++◌, ◌==◌,
}
use rrrr.Rtime.{unreached, walk}
use rrrr.Tdata.{Tdata}
use rrrr.Tdata.Columns.{Columns}
use rrrr.Json.{Call}
use rrrr.Json.Render.{Printer}
use rrrr.Router.{RouterRequest}
use rrrr.Router.Plan.{Leg, Itinerary, transfer_distance}
use rrrr.Json.Render.Described.{
  total, leg_seconds, waiting_of, walking_of, riding_of, meters_of, legs_elements,
}
use rrrr.Json.Render.Legs.{Geometry, json_leg}
use rrrr.Json.Render.Plans.{Totals, leg_totals, json_legs}
use rrrr.Prelude.Effects.{Ensures, Ensures-bind}
use rrrr.Json.Render.Nested.{IsElements, end_elements_lem}
use rrrr.Json.Render.Documents.{leg_lem}

-- The sums of the walking, meters, waiting and riding, in 32 bits.
pub record AreTotals (walking meters waiting riding : ℕ) (sums : Totals) : Type 0 where
  pub walktime : sums.walktime ≡ walking % 2 ^ 32
  pub walkdistance : sums.walkdistance ≡ meters % 2 ^ 32
  pub waitingtime : sums.waitingtime ≡ waiting % 2 ^ 32
  pub transittime : sums.transittime ≡ riding % 2 ^ 32

more : (s n k : ℕ) → s ≡ n % 2 ^ 32 → (s + k) % 2 ^ 32 ≡ (n + k) % 2 ^ 32
more s n k e = omega arith

same : (s n : ℕ) → s ≡ n % 2 ^ 32 → s ≡ (n + 0) % 2 ^ 32
same s n e = omega arith

module _ {F : Type 0} (td : Tdata) (walk_sec : F → ℕ → ℕ → ℕ) (req : RouterRequest F) where
  -- A walk leads to a stop that has a transfer from its start, or stays at a stop.
  abbrev pub HasTransfer : Leg → Type 0
  HasTransfer leg =
      leg.route ≡ walk
      → leg.s0 ≢ leg.s1
      → transfer_distance td walk_sec req leg.s0 leg.s1 ≢ unreached

module _ {F : Type 0} (pr : Printer F) (geo : Geometry F) (td : Tdata) (cols : Columns F)
    (walk_sec : F → ℕ → ℕ → ℕ) (req : RouterRequest F) (date : ℕ) where
  abbrev pub meters : Leg → ℕ
  meters leg = meters_of pr geo td cols walk_sec req date leg

  leg_totals_lem :
      (leg : Leg) (sums : Totals) (w d q t : ℕ)
      → HasTransfer td walk_sec req leg
      → AreTotals w d q t sums
      → Ensures
          (AreTotals (w + walking_of leg) (d + meters leg) (q + waiting_of leg) (t + riding_of leg))
          (leg_totals pr geo td cols walk_sec req date leg sums)
  unfolding leg_totals
  leg_totals_lem leg sums w d q t h a = elim (Bool-cases (leg.route == walk)) [
    | inl p ↦ elim (Bool-cases (leg.s0 == leg.s1)) [
      | inl r ↦
          rw (p, r)
            (record {
              walktime = same sums.walktime w a.walktime;
              walkdistance = same sums.walkdistance d a.walkdistance;
              waitingtime = more sums.waitingtime q (leg_seconds leg) a.waitingtime;
              transittime = same sums.transittime t a.transittime;
            })
      | inr r ↦
          let linked : (transfer_distance td walk_sec req leg.s0 leg.s1 == unreached) ≡ false =
            ground (arith, h ((==_iff leg.route walk).0 p) (λ e. ground arith)) in
          rw (p, r, linked)
            (record {
              walktime = more sums.walktime w (leg_seconds leg) a.walktime;
              walkdistance =
                  more sums.walkdistance d (transfer_distance td walk_sec req leg.s0 leg.s1)
                    a.walkdistance;
              waitingtime = same sums.waitingtime q a.waitingtime;
              transittime = same sums.transittime t a.transittime;
            })
    ]
    | inr p ↦ rw p (record {
      walktime = same sums.walktime w a.walktime;
      walkdistance = same sums.walkdistance d a.walkdistance;
      waitingtime = same sums.waitingtime q a.waitingtime;
      transittime = more sums.transittime t (leg_seconds leg) a.transittime;
    })
  ]

  -- The calls of legs, and the totals after them.
  pub record AreLegs (legs : ℕ → Leg) (ls : List ℕ) (w d q t : ℕ) (r : List Call × Totals)
      : Type 0 where
    pub elements :
        (rest : List Call)
        → IsElements (legs_elements pr geo td cols walk_sec req date legs ls) rest (r.0 ++ rest)
    pub totals :
        AreTotals
          (w + total walking_of legs ls)
          (d + total meters legs ls)
          (q + total waiting_of legs ls)
          (t + total riding_of legs ls)
          r.1

  later :
      (legs : ℕ → Leg) (l : ℕ) (ls : List ℕ) (w d q t : ℕ) (r : Totals)
      → AreTotals
          (w + walking_of (legs l) + total walking_of legs ls)
          (d + meters (legs l) + total meters legs ls)
          (q + waiting_of (legs l) + total waiting_of legs ls)
          (t + riding_of (legs l) + total riding_of legs ls)
          r
      → AreTotals
          (w + total walking_of legs (l ∷ ls))
          (d + total meters legs (l ∷ ls))
          (q + total waiting_of legs (l ∷ ls))
          (t + total riding_of legs (l ∷ ls))
          r
  later legs l ls w d q t r a = record {
    walktime = a.walktime ∙ ap (λ k. k % 2 ^ 32) (add_assoc w _ _);
    walkdistance = a.walkdistance ∙ ap (λ k. k % 2 ^ 32) (add_assoc d _ _);
    waitingtime = a.waitingtime ∙ ap (λ k. k % 2 ^ 32) (add_assoc q _ _);
    transittime = a.transittime ∙ ap (λ k. k % 2 ^ 32) (add_assoc t _ _);
  }

  more_legs :
      (legs : ℕ → Leg) (l : ℕ) (ls : List ℕ) (w d q t : ℕ) (r : List Call × Totals)
      → AreLegs legs ls
          (w + walking_of (legs l))
          (d + meters (legs l))
          (q + waiting_of (legs l))
          (t + riding_of (legs l))
          r
      → AreLegs legs (l ∷ ls) w d q t (json_leg pr geo td cols req date (legs l) ++ r.0, r.1)
  more_legs legs l ls w d q t r e = record {
    elements =
        λ rest. simp (append_assoc) (leg_lem pr geo td cols req date (legs l) (e.elements rest));
    totals = later legs l ls w d q t r.1 e.totals;
  }

  pub legs_lem :
      (legs : ℕ → Leg) (ls : List ℕ) (sums : Totals) (w d q t : ℕ)
      → All (λ l. HasTransfer td walk_sec req (legs l)) ls
      → AreTotals w d q t sums
      → Ensures (AreLegs legs ls w d q t) (json_legs pr geo td cols walk_sec req date legs ls sums)
  unfolding json_legs
  legs_lem legs [] sums w d q t h a = record {
    elements = λ rest. end_elements_lem;
    totals = record {
      walktime = same sums.walktime w a.walktime;
      walkdistance = same sums.walkdistance d a.walkdistance;
      waitingtime = same sums.waitingtime q a.waitingtime;
      transittime = same sums.transittime t a.transittime;
    };
  }
  legs_lem legs (l ∷ ls) sums w d q t (h, hs) a =
      Ensures-bind _ (AreLegs legs (l ∷ ls) w d q t) _ _ (leg_totals_lem (legs l) sums w d q t h a)
        (λ sums' a'.
          Ensures-bind _ (AreLegs legs (l ∷ ls) w d q t) _ _
            (legs_lem legs ls sums' (w + walking_of (legs l)) (d + meters (legs l))
              (q + waiting_of (legs l)) (t + riding_of (legs l)) hs a')
            (λ r e. more_legs legs l ls w d q t r e))

  unfoldable pub sum_totals : Itinerary → Totals
  sum_totals itin =
      let ls = range_from 0 itin.n_legs in
      record {
        walktime = total walking_of itin.legs ls % 2 ^ 32;
        walkdistance = total meters itin.legs ls % 2 ^ 32;
        waitingtime = total waiting_of itin.legs ls % 2 ^ 32;
        transittime = total riding_of itin.legs ls % 2 ^ 32;
      }

  pub sum_totals_lem :
      (itin : Itinerary) (r : List Call × Totals)
      → AreLegs itin.legs (range_from 0 itin.n_legs) 0 0 0 0 r
      → r.1 ≡ sum_totals itin
  unfolding sum_totals
  sum_totals_lem itin r e = λ i. record {
    walktime = (e.totals.walktime ∙ ap (λ k. k % 2 ^ 32) (zero_add _)) i;
    walkdistance = (e.totals.walkdistance ∙ ap (λ k. k % 2 ^ 32) (zero_add _)) i;
    waitingtime = (e.totals.waitingtime ∙ ap (λ k. k % 2 ^ 32) (zero_add _)) i;
    transittime = (e.totals.transittime ∙ ap (λ k. k % 2 ^ 32) (zero_add _)) i;
  }
