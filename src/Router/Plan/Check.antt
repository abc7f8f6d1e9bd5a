-- ===== src/Router/Plan/Check.antt =====
-- router.c: `check_plan_invariants`. The messages are not modelled.
use rrrr.Prelude.{
  ℕ, zero, suc, ◌+◌, ◌-◌, ◌%◌, ◌≡◌, ◌<◌, refl, ap, Bool, true, false, Option, none, some, lt→ltb,
  Bool-cases, inl, inr, List, [], ◌∷◌, ltb, leb, ◌==◌, not, ◌&&◌, ◌||◌, if◌then◌else◌, range_from,
  arith,
}
use rrrr.Prelude.Effects.{◌>>=◌}
use rrrr.Rtime.{unreached}
use rrrr.Router.{RouterRequest}
use rrrr.Router.Plan.{Leg, Itinerary, Plan}

-- The checks of a leg. The assignment to `fail` follows the `if` on the route in both branches
-- of the parity test, and does not belong to it.
unfoldable pub check_leg : (ℕ → Leg) → ℕ → Bool → Bool
check_leg legs l fail =
    let leg = legs l in
    let prev_leg = legs (l - 1) in
    let fail_parity = if l % 2 == 0 then true else true in
    fail
    || fail_parity
    || ltb leg.t1 leg.t0
    || (ltb 0 l && (not (leg.s0 == prev_leg.s1) || ltb leg.t0 prev_leg.t1))

unfoldable pub check_legs : (ℕ → Leg) → List ℕ → Bool → Bool
check_legs legs [] fail = fail
check_legs legs (l ∷ ls) fail = check_legs legs ls (check_leg legs l fail)

-- The variables of the loop over the itineraries: `fail`, `prev_target_time` and the number of
-- legs of `prev_itin`, which is `none` while it is NULL.
pub record Checked : Type 0 where
  pub fail : Bool
  pub prev_target_time : ℕ
  pub prev_n_legs : Option ℕ

-- `none` for a crash, where `prev_itin` is read while it is NULL.
module _ {F : Type 0} (req : RouterRequest F) where
  abbrev pub target_time : Itinerary → ℕ
  target_time itin = if req.arrive_by then (itin.legs 0).t0 else (itin.legs (itin.n_legs - 1)).t1

  -- The comparison with the itinerary before.
  abbrev pub is_worse : Itinerary → Checked → ℕ → Bool
  is_worse itin c prev_n_legs =
      let time = target_time itin in
      leb itin.n_legs prev_n_legs
      || (if req.arrive_by then leb time c.prev_target_time else leb c.prev_target_time time)

  abbrev pub check_previous : ℕ → Itinerary → Checked → Option Bool
  check_previous i itin c =
      if ltb 0 i then (c.prev_n_legs >>= λ n. some (is_worse itin c n)) else some false

  -- The checks of an itinerary with legs.
  abbrev pub ends_checked : Itinerary → Checked → Bool → Checked
  ends_checked itin c worse = record {
    fail =
        c.fail
        || worse
        || not ((itin.legs 0).s0 == req.from)
        || not ((itin.legs (itin.n_legs - 1)).s1 == req.to)
        || not (itin.n_legs % 2 == 1);
    prev_target_time = target_time itin;
    prev_n_legs = some itin.n_legs;
  }

  abbrev pub check_ends : ℕ → Itinerary → Checked → Option Checked
  check_ends i itin c = do worse ← check_previous i itin c; some (ends_checked itin c worse)

  unfoldable pub check_itinerary : ℕ → Itinerary → Checked → Option Checked
  check_itinerary i itin c = do
    c' ← if ltb itin.n_legs 1 then some (record c { fail = true }) else check_ends i itin c
    some (record c' { fail = check_legs itin.legs (range_from 0 itin.n_legs) c'.fail })

  unfoldable pub check_itineraries : (ℕ → Itinerary) → List ℕ → Checked → Option Checked
  check_itineraries itineraries [] c = some c
  check_itineraries itineraries (i ∷ is) c =
      check_itinerary i (itineraries i) c >>= check_itineraries itineraries is

unfoldable pub check_plan_invariants : {F : Type 0} → Plan F → Option Bool
check_plan_invariants plan =
    let start : Checked = record {
      fail = false;
      prev_target_time = unreached;
      prev_n_legs = none;
    } in
    check_itineraries plan.req plan.itineraries (range_from 0 plan.n_itineraries) start >>= λ c.
    some c.fail

check_leg_lem : (legs : ℕ → Leg) (l : ℕ) (fail : Bool) → check_leg legs l fail ≡ true
unfolding check_leg
check_leg_lem legs l fail = ground arith

check_legs-true : (legs : ℕ → Leg) (ls : List ℕ) → check_legs legs ls true ≡ true
unfolding check_legs
check_legs-true legs [] = refl
check_legs-true legs (l ∷ ls) = rw (check_leg_lem legs l true) (check_legs-true legs ls)

check_legs_lem :
    (legs : ℕ → Leg) (n : ℕ) (fail : Bool)
    → (n ≡ 0 → fail ≡ true)
    → check_legs legs (range_from 0 n) fail ≡ true
unfolding check_legs
check_legs_lem legs zero fail h = h refl
check_legs_lem legs (suc n) fail h =
    rw (check_leg_lem legs 0 fail, check_legs) (check_legs-true legs (range_from (0 + 1) n))

-- Whether one of the itineraries has a leg.
abbrev pub any_legs : (ℕ → Itinerary) → List ℕ → Bool
any_legs itineraries [] = false
any_legs itineraries (i ∷ is) = not (ltb (itineraries i).n_legs 1) || any_legs itineraries is

-- The first itinerary has no legs, and a later one has.
abbrev pub is_null_read : (ℕ → Itinerary) → ℕ → Bool
is_null_read itineraries zero = false
is_null_read itineraries (suc n) =
    ltb (itineraries 0).n_legs 1 && any_legs itineraries (range_from (0 + 1) n)

module _ {F : Type 0} (req : RouterRequest F) where
  empty_lem :
      (i : ℕ) (itin : Itinerary) (c : Checked)
      → ltb itin.n_legs 1 ≡ true
      → check_itinerary req i itin c ≡ some (record c { fail = true })
  unfolding check_itinerary
  empty_lem i itin c e = rw (e, check_legs-true itin.legs (range_from 0 itin.n_legs)) refl

  legs_lem :
      (i : ℕ) (itin : Itinerary) (c : Checked) (worse : Bool)
      → ltb itin.n_legs 1 ≡ false
      → check_previous req i itin c ≡ some worse
      → check_itinerary req i itin c
        ≡ some (record {
          fail = true;
          prev_target_time = target_time req itin;
          prev_n_legs = some itin.n_legs;
        })
  unfolding check_itinerary
  legs_lem i itin c worse e q =
      rw (e, q, check_legs_lem itin.legs itin.n_legs _ (λ z. absurd (ground arith))) refl

  null_lem :
      (i : ℕ) (itin : Itinerary) (c : Checked)
      → ltb itin.n_legs 1 ≡ false
      → 0 < i
      → c.prev_n_legs ≡ none
      → check_itinerary req i itin c ≡ none
  unfolding check_itinerary
  null_lem i itin c e lt q =
      rw (e, lt→ltb 0 i lt)
        (ap
          (λ (o : Option ℕ).
            o
            >>= (λ n. some (is_worse req itin c n))
            >>= (λ worse. some (ends_checked req itin c worse))
            >>= λ (c' : Checked).
                some (record c' { fail = check_legs itin.legs (range_from 0 itin.n_legs) c'.fail }))
          q)

  -- With an itinerary before, the check goes on to the end.
  after_lem :
      (itineraries : ℕ → Itinerary) (is : List ℕ) (c : Checked) (prev : ℕ)
      → c.fail ≡ true
      → c.prev_n_legs ≡ some prev
      → (check_itineraries req itineraries is c >>= λ c. some c.fail) ≡ some true
  unfolding check_itineraries
  after_lem itineraries [] c prev h q = ap some h
  after_lem itineraries (i ∷ is) c prev h q = elim (Bool-cases (ltb (itineraries i).n_legs 1)) [
    | inl e ↦
        rw (empty_lem i (itineraries i) c e)
          (after_lem itineraries is (record c { fail = true }) prev refl q)
    | inr e ↦ elim (Bool-cases (ltb 0 i)) [
      | inl later ↦
          rw
            (legs_lem i (itineraries i) c (is_worse req (itineraries i) c prev) e (
              rw later
                (ap (λ (o : Option ℕ). o >>= λ n. some (is_worse req (itineraries i) c n)) q)))
            (after_lem itineraries is _ _ refl refl)
      | inr first ↦
          rw (legs_lem i (itineraries i) c false e (rw first refl))
            (after_lem itineraries is _ _ refl refl)
    ]
  ]

  -- With none, it crashes at the first itinerary with legs.
  before_lem :
      (itineraries : ℕ → Itinerary) (n i : ℕ) (c : Checked)
      → 0 < i
      → c.fail ≡ true
      → c.prev_n_legs ≡ none
      → (check_itineraries req itineraries (range_from i n) c >>= λ c. some c.fail)
        ≡ (if any_legs itineraries (range_from i n) then none else some true)
  unfolding check_itineraries
  before_lem itineraries zero i c lt h q = ap some h
  before_lem itineraries (suc n) i c lt h q = elim (Bool-cases (ltb (itineraries i).n_legs 1)) [
    | inl e ↦
        rw (empty_lem i (itineraries i) c e, e)
          (before_lem itineraries n (i + 1) (record c { fail = true }) (omega arith) refl q)
    | inr e ↦ rw (null_lem i (itineraries i) c e lt q, e) refl
  ]

  itineraries_lem :
      (itineraries : ℕ → Itinerary) (n : ℕ) (c : Checked)
      → c.fail ≡ false
      → c.prev_n_legs ≡ none
      → (check_itineraries req itineraries (range_from 0 n) c >>= λ c. some c.fail)
        ≡ (if is_null_read itineraries n then none else some (ltb 0 n))
  unfolding check_itineraries
  itineraries_lem itineraries zero c h q = ap some h
  itineraries_lem itineraries (suc n) c h q =
      let positive : ltb 0 (suc n) ≡ true = lt→ltb 0 (suc n) (omega arith) in
      elim (Bool-cases (ltb (itineraries 0).n_legs 1)) [
        | inl e ↦
            rw (positive, empty_lem 0 (itineraries 0) c e, e)
              (before_lem itineraries n (0 + 1) (record c { fail = true }) (omega arith) refl q)
        | inr e ↦
            rw (positive, legs_lem 0 (itineraries 0) c false e refl, e)
              (after_lem itineraries (range_from (0 + 1) n) _ _ refl refl)
      ]

-- The check of a plan crashes if its first itinerary has no legs and a later one has; otherwise it
-- reports a failure for every plan that has an itinerary, whatever the times and stops of its legs,
-- and none for a plan without one.
pub check_plan_invariants_lem :
    {F : Type 0} (plan : Plan F)
    → check_plan_invariants plan ≡ (
        if is_null_read plan.itineraries plan.n_itineraries
        then none
        else some (ltb 0 plan.n_itineraries))
unfolding check_plan_invariants
check_plan_invariants_lem plan =
    itineraries_lem plan.req plan.itineraries plan.n_itineraries _ refl refl
