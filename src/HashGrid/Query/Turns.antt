-- ===== src/HashGrid/Query/Turns.antt =====
-- The loop of the search for the closest item, turn by turn.
use rrrr.Prelude.{
  ◌+◌, ◌^◌, lt→ltb, ℕ, suc, ◌<◌, ◌≡◌, ◌≢◌, refl, sym, ◌∙◌, ap, subst, Bool, true, false, Option,
  none, some, List, [], ◌∷◌, ltb, ◌==◌, if◌then◌else◌, All, arith, Bool-cases, inl, inr,
}
use rrrr.Rtime.{no_index}
use rrrr.HashGrid.{Coord, HashGrid}
use rrrr.HashGrid.Query.{
  HashGridResult, Search, place_at, item_at, advance, hash_grid_result_next, consider, closest_turn,
  closest_loop,
}
use rrrr.HashGrid.Query.Best.{Visits, Leaves, best_of}

pub if_true : {A : Type 0} (b : Bool) (x y : A) → b ≡ true → (if b then x else y) ≡ x
if_true b x y e = rw e refl

pub if_false : {A : Type 0} (b : Bool) (x y : A) → b ≡ false → (if b then x else y) ≡ y
if_false b x y e = rw e refl

module _ (hg : HashGrid) {D : Type 0} (less : D → D → Bool) (meters : Coord → Coord → D)
    (q : HashGridResult) where
  -- The search leaves the arrays, or returns the best of the items that it visits.
  abbrev pub Outcome : HashGridResult → ℕ × D → Search ℕ → Type 0
  Outcome r best Search.no_fuel = ⊥
  Outcome r best Search.out_of_bounds = Leaves hg r
  Outcome r best (Search.found item) =
      (items : List ℕ) × Visits hg r items
      × All (λ c. c < hg.n_items) items
      × (item ≡ (best_of hg less meters q.coord q.min q.max items best).0)

  -- The loop ends in such a way, whatever the best item so far.
  abbrev pub Ends : HashGridResult → Type 0
  Ends r = (best : ℕ × D) → (fuel : ℕ) × Outcome r best (closest_loop hg less meters fuel r best)

  next_lem :
      (r : HashGridResult)
      → r.has_next ≡ true
      → (advance hg r).has_next ≡ true
      → ltb (place_at hg (advance hg r)) hg.n_items ≡ true
      → hash_grid_result_next hg r ≡ some (item_at hg (advance hg r), advance hg r)
  unfolding hash_grid_result_next
  next_lem r live a p =
      let r' = advance hg r in
      if_true r.has_next _ _ live ∙ if_true r'.has_next _ _ a ∙ if_true _ _ _ p

  next_end :
      (r : HashGridResult)
      → r.has_next ≡ true
      → (advance hg r).has_next ≡ false
      → hash_grid_result_next hg r ≡ some (no_index, advance hg r)
  unfolding hash_grid_result_next
  next_end r live a =
      let r' = advance hg r in if_true r.has_next _ _ live ∙ if_false r'.has_next _ _ a

  next_out :
      (r : HashGridResult)
      → r.has_next ≡ true
      → (advance hg r).has_next ≡ true
      → ltb (place_at hg (advance hg r)) hg.n_items ≡ false
      → hash_grid_result_next hg r ≡ none
  unfolding hash_grid_result_next
  next_out r live a p =
      let r' = advance hg r in
      if_true r.has_next _ _ live ∙ if_true r'.has_next _ _ a ∙ if_false _ _ _ p

  -- One turn of the loop, by what the call returns.
  turn_lem :
      (r : HashGridResult) (best : ℕ × D) (fuel : ℕ) (o : Option (ℕ × HashGridResult))
      → hash_grid_result_next hg r ≡ o
      → closest_loop hg less meters (suc fuel) r best
        ≡ closest_turn hg less meters (closest_loop hg less meters fuel) r best o
  unfolding closest_loop
  turn_lem r best fuel o e =
      ap (closest_turn hg less meters (closest_loop hg less meters fuel) r best) e

  ended :
      (r r' : HashGridResult) (best : ℕ × D)
      → hash_grid_result_next hg r ≡ some (no_index, r')
      → (fuel : ℕ) × Outcome r best (closest_loop hg less meters fuel r best)
  unfolding best_of
  ended r r' best e =
      (1, subst (Outcome r best) (sym (turn_lem r best 0 _ e)) ([], Visits.end e, tt, refl))

  -- An item is visited, and then what the rest of the loop visits.
  extend :
      (r r' : HashGridResult) (best : ℕ × D) (item : ℕ) (res : Search ℕ)
      → hash_grid_result_next hg r ≡ some (item, r')
      → item ≢ no_index
      → item < hg.n_items
      → Outcome r' (consider hg less meters q.coord q.min q.max item best) res
      → Outcome r best res
  unfolding best_of
  extend r r' best item Search.no_fuel e ne lt h = h
  extend r r' best item Search.out_of_bounds e ne lt h = Leaves.later e ne h
  extend r r' best item (Search.found last) e ne lt (items, visits, are, is_best) =
      (item ∷ items, Visits.visit e ne visits, (lt, are), is_best)

  -- Where each place of the array holds an item, each item that is read is visited.
  module _ (stored : (p : ℕ) → p < hg.n_items → hg.items p < hg.n_items)
      (few : hg.n_items + 1 < 2 ^ 32) where
    visited :
        (r r' : HashGridResult) (item : ℕ)
        → hash_grid_result_next hg r ≡ some (item, r')
        → item < hg.n_items
        → r.coord ≡ q.coord
        → r.min ≡ q.min
        → r.max ≡ q.max
        → Ends r'
        → Ends r
    visited r r' item e lt same_coord same_min same_max ends best =
        let next = consider hg less meters r.coord r.min r.max item best in
        let same : next ≡ consider hg less meters q.coord q.min q.max item best =
          ap (λ c. consider hg less meters c r.min r.max item best) same_coord
          ∙ ap (λ c. consider hg less meters q.coord c r.max item best) same_min
          ∙ ap (λ c. consider hg less meters q.coord q.min c item best) same_max in
        let is_item : (item == no_index) ≡ false = ground arith in
        let (fuel, h) = ends next in
        (
          suc fuel,
          subst (Outcome r best)
              (sym (
                turn_lem r best fuel _ e
                ∙ if_false _ _ _ is_item
                ∙ if_true _ _ _ (lt→ltb item hg.n_items lt)))
              (extend r r' best item (closest_loop hg less meters fuel r' next) e (ground arith) lt
                (subst (λ b. Outcome r' b (closest_loop hg less meters fuel r' next)) same h)),
        )

    -- A call that returns an item leads on to the rest of the loop.
    pub step_lem :
        (r : HashGridResult)
        → r.has_next ≡ true
        → r.coord ≡ q.coord
        → r.min ≡ q.min
        → r.max ≡ q.max
        → ((advance hg r).has_next ≡ true → Ends (advance hg r))
        → Ends r
    step_lem r live same_coord same_min same_max ends best =
        elim (Bool-cases (advance hg r).has_next) [
          | inl a ↦ elim (Bool-cases (ltb (place_at hg (advance hg r)) hg.n_items)) [
            | inl p ↦
                visited r (advance hg r) (item_at hg (advance hg r)) (next_lem r live a p)
                  (stored (place_at hg (advance hg r)) (ground arith)) same_coord same_min same_max
                  (ends a) best
            | inr p ↦ (
              1,
              subst (Outcome r best) (sym (turn_lem r best 0 none (next_out r live a p)))
                  (Leaves.here (next_out r live a p)),
            )
          ]
          | inr a ↦ ended r (advance hg r) best (next_end r live a)
        ]
