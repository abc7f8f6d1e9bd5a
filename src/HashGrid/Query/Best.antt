-- ===== src/HashGrid/Query/Best.antt =====
-- The items that a search visits, and the best of them.
use rrrr.Prelude.{
  ℕ, ◌≡◌, ◌≢◌, ◌⊎◌, refl, sym, ◌∙◌, ap, subst, Bool, true, false, none, some, List, [], ◌∷◌, All,
  Bool-cases, inl, inr,
}
use rrrr.Rtime.{no_index}
use rrrr.HashGrid.{Coord, HashGrid}
use rrrr.HashGrid.Query.{HashGridResult, hash_grid_result_next, is_inside, consider}

module _ (hg : HashGrid) where
  -- The items that the calls of `HashGridResult_next` return, up to NONE.
  pub data Visits : HashGridResult → List ℕ → Type 0 where
    end : {r r' : HashGridResult} → hash_grid_result_next hg r ≡ some (no_index, r') → Visits r []
    visit :
        {r r' : HashGridResult} {item : ℕ} {items : List ℕ}
        → hash_grid_result_next hg r ≡ some (item, r')
        → item ≢ no_index
        → Visits r' items
        → Visits r (item ∷ items)

  -- The calls come to a read past the end of the array of items.
  pub data Leaves : HashGridResult → Type 0 where
    here : {r : HashGridResult} → hash_grid_result_next hg r ≡ none → Leaves r
    later :
        {r r' : HashGridResult} {item : ℕ}
        → hash_grid_result_next hg r ≡ some (item, r')
        → item ≢ no_index
        → Leaves r'
        → Leaves r

-- The item is in the list.
abbrev pub IsIn : ℕ → List ℕ → Type 0
IsIn item [] = ⊥
IsIn item (c ∷ cs) = (item ≡ c) ⊎ IsIn item cs

clash : true ≡ false → ⊥
clash e = cc

module _ (hg : HashGrid) {D : Type 0} (less : D → D → Bool) (meters : Coord → Coord → D)
    (coord min max : Coord) where
  abbrev pub distance : ℕ → D
  distance item = meters coord (hg.coords item)

  -- The variables of the search after the items.
  unfoldable pub best_of : List ℕ → ℕ × D → ℕ × D
  best_of [] best = best
  best_of (c ∷ cs) best = best_of cs (consider hg less meters coord min max c best)

  -- No item of the list in the box is nearer than `d`.
  abbrev pub IsNearest : D → List ℕ → Type 0
  IsNearest d items = All (λ c. is_inside hg min max c ≡ true → less (distance c) d ≡ false) items

  -- NONE, where no item of the list in the box is nearer than infinity; or an item of the list, in
  -- the box, to which no item of the list in the box is nearer.
  abbrev pub IsClosest : D → List ℕ → ℕ → Type 0
  IsClosest infinity items item =
      ((item ≡ no_index) × IsNearest infinity items)
      ⊎ (IsIn item items × (is_inside hg min max item ≡ true) × IsNearest (distance item) items)

  -- The variables are those before the items, or one of the items in the box and its distance.
  abbrev IsFrom : List ℕ → ℕ × D → ℕ × D → Type 0
  IsFrom items best last =
      (last ≡ best)
      ⊎ (IsIn last.0 items × (is_inside hg min max last.0 ≡ true) × (last.1 ≡ distance last.0))

  -- The distance has not grown.
  abbrev IsNearer : D → D → Type 0
  IsNearer d e = (d ≡ e) ⊎ (less d e ≡ true)

  module _ (irreflexive : (d : D) → less d d ≡ false)
      (transitive : (d e f : D) → less d e ≡ true → less e f ≡ true → less d f ≡ true) where
    nearer_lem : (d e f : D) → IsNearer d e → IsNearer e f → IsNearer d f
    nearer_lem d e f (inl p) q = subst (λ x. IsNearer x f) (sym p) q
    nearer_lem d e f (inr p) (inl q) = inr (subst (λ x. less d x ≡ true) q p)
    nearer_lem d e f (inr p) (inr q) = inr (transitive d e f p q)

    -- What is not nearer than `e` is not nearer than what is nearer than `e`.
    not_nearer : (c d e : D) → IsNearer d e → less c e ≡ false → less c d ≡ false
    not_nearer c d e (inl p) h = subst (λ x. less c x ≡ false) (sym p) h
    not_nearer c d e (inr p) h = elim (Bool-cases (less c d)) [
      | inl q ↦ absurd (clash (sym (transitive c d e q p) ∙ h))
      | inr q ↦ q
    ]

    consider_lem :
        (c : ℕ) (best : ℕ × D)
        → let next = consider hg less meters coord min max c best in
          IsFrom (c ∷ []) best next
          × IsNearer next.1 best.1
          × (is_inside hg min max c ≡ true → less (distance c) next.1 ≡ false)
    consider_lem c best = elim (Bool-cases (is_inside hg min max c)) [
      | inl p ↦ elim (Bool-cases (less (distance c) best.1)) [
        | inl q ↦ rw (p, q) (inr (inl refl, p, refl), inr q, λ _. irreflexive (distance c))
        | inr q ↦ rw (p, q) (inl refl, inl refl, λ _. q)
      ]
      | inr p ↦ rw p (inl refl, inl refl, λ e. absurd (clash (sym e)))
    ]

    chain_lem :
        (c : ℕ) (cs : List ℕ) (best next last : ℕ × D)
        → IsFrom (c ∷ []) best next
        → IsFrom cs next last
        → IsFrom (c ∷ cs) best last
    chain_lem c cs best next last f (inr (is_in, inside, d)) = inr (inr is_in, inside, d)
    chain_lem c cs best next last (inl e) (inl e') = inl (e' ∙ e)
    chain_lem c cs best next last (inr (inl at, inside, d)) (inl e') =
        subst (IsFrom (c ∷ cs) best) (sym e') (inr (inl at, inside, d))
    chain_lem c cs best next last (inr (inr at, inside, d)) (inl e') = absurd at

    best_of_lem :
        (items : List ℕ) (best : ℕ × D)
        → let last = best_of items best in
          IsFrom items best last × IsNearer last.1 best.1 × IsNearest last.1 items
    unfolding best_of
    best_of_lem [] best = (inl refl, inl refl, tt)
    best_of_lem (c ∷ cs) best =
        let next = consider hg less meters coord min max c best in
        let (from, nearer, own) = consider_lem c best in
        let (from', nearer', others) = best_of_lem cs next in
        (
          chain_lem c cs best next (best_of cs next) from from',
          nearer_lem (best_of cs next).1 next.1 best.1 nearer' nearer,
          (
            λ inside. not_nearer (distance c) (best_of cs next).1 next.1 nearer' (own inside),
            others,
          ),
        )

    pub best_of-IsClosest :
        (infinity : D) (items : List ℕ)
        → IsClosest infinity items (best_of items (no_index, infinity)).0
    best_of-IsClosest infinity items =
        let last = best_of items (no_index, infinity) in
        let (from, nearer, nearest) = best_of_lem items (no_index, infinity) in
        elim from [
          | inl e ↦ inl (
            ap (λ (b : ℕ × D). b.0) e,
            subst (λ d. IsNearest d items) (ap (λ (b : ℕ × D). b.1) e) nearest,
          )
          | inr (is_in, inside, d) ↦ inr (is_in, inside, subst (λ d. IsNearest d items) d nearest)
        ]
