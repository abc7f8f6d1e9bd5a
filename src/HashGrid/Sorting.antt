-- ===== src/HashGrid/Sorting.antt =====
-- The loops of `HashGrid_init`: a sorting of the items by their bins, with counts.
use rrrr.Prelude.{
  ℕ, zero, suc, ◌+◌, ◌≤◌, ◌<◌, ◌≡◌, ◌≢◌, refl, sym, ◌∙◌, ap, subst, Bool, true, false, ◌==◌,
  if◌then◌else◌, range_from, update, update_self, update_ne, arith, Bool-cases, inl, inr, ==_iff,
  ltb, ltb→lt,
}
use rrrr.HashGrid.{count_items, Layout, set_bins, Filling, fill_bins}

module _ (bin : ℕ → ℕ) where
  -- The number of items of a bin among those before `c`.
  abbrev pub rank : ℕ → ℕ → ℕ
  rank b zero = 0
  rank b (suc c) = (if bin c == b then 1 else 0) + rank b c

  rank_self : (c : ℕ) → rank (bin c) (c + 1) ≡ rank (bin c) c + 1
  rank_self c =
      subst (λ k. rank (bin c) k ≡ rank (bin c) c + 1) (succ c)
        (rw ((==_iff (bin c) (bin c)).1 refl) (omega arith))
    where
      succ : (k : ℕ) → suc k ≡ k + 1
      succ k = omega arith

  rank_other : (b c : ℕ) → bin c ≢ b → rank b (c + 1) ≡ rank b c
  rank_other b c n =
      subst (λ k. rank b k ≡ rank b c) (succ c)
        (elim (Bool-cases (bin c == b)) [
          | inl p ↦ absurd (n ((==_iff (bin c) b).0 p))
          | inr p ↦ rw p (omega arith)
        ])
    where
      succ : (k : ℕ) → suc k ≡ k + 1
      succ k = omega arith

  pub rank_le : (b c n : ℕ) → c ≤ n → rank b c ≤ rank b n
  rank_le b c zero le = rw (the_zero) (omega arith)
    where
      the_zero : c ≡ 0
      the_zero = omega arith
  rank_le b c (suc n) le = elim (Bool-cases (c == suc n)) [
    | inl p ↦ subst (λ k. rank b c ≤ rank b k) ((==_iff c (suc n)).0 p) (omega arith)
    | inr p ↦ let before = rank_le b c n (ground arith) in omega (arith, before)
  ]

  pub rank_lt : (c n : ℕ) → c < n → rank (bin c) c < rank (bin c) n
  rank_lt c n lt = omega (arith, rank_self c, rank_le (bin c) (c + 1) n (omega arith))

  update_at : (f : ℕ → ℕ) (k v b w : ℕ) → (k ≡ b → v ≡ w) → (k ≢ b → f b ≡ w) → update f k v b ≡ w
  update_at f k v b w same other = elim (Bool-cases (k == b)) [
    | inl p ↦
        let e = (==_iff k b).0 p in subst (λ i. update f k v i ≡ w) e (update_self f k v ∙ same e)
    | inr p ↦ let n : k ≢ b = λ e. ground arith in update_ne f k b v n ∙ other n
  ]

  pub count_items_lem :
      (lo n : ℕ) (counts : ℕ → ℕ)
      → ((b : ℕ) → counts b ≡ rank b lo)
      → (b : ℕ) → count_items bin (range_from lo n) counts b ≡ rank b (lo + n)
  count_items_lem lo zero counts h b = h b ∙ ap (rank b) (omega arith)
  count_items_lem lo (suc n) counts h b =
      count_items_lem (lo + 1) n _
        (λ b'.
          update_at counts (bin lo) _ b' _
            (λ e. ap (λ k. k + 1) (h (bin lo)) ∙ sym (rank_self lo) ∙ ap (λ k. rank k (lo + 1)) e)
            (λ ne. h b' ∙ sym (rank_other b' lo ne)))
        b
      ∙ ap (rank b) (omega arith)

  -- The place where the items of a bin begin, if there are `n` items.
  abbrev pub start : ℕ → ℕ → ℕ
  start n zero = 0
  start n (suc b) = start n b + rank b n

  start_next : (n b : ℕ) → start n b + rank b n ≡ start n (b + 1)
  start_next n b = ap (start n) (succ b)
    where
      succ : (k : ℕ) → suc k ≡ k + 1
      succ k = omega arith

  pub start_le : (n b d : ℕ) → b < d → start n b + rank b n ≤ start n d
  start_le n b zero lt = absurd (omega arith)
  start_le n b (suc d) lt = elim (Bool-cases (b == d)) [
    | inl p ↦
        subst (λ k. start n b + rank b n ≤ start n k + rank k n) ((==_iff b d).0 p) (omega arith)
    | inr p ↦ let before = start_le n b d (ground arith) in omega (arith, before)
  ]

  -- The bins before `b` are set, and the counts of the others are there.
  abbrev pub AreLaidOut : ℕ → ℕ → Layout → Type 0
  AreLaidOut n b l =
      (l.next ≡ start n b)
      × ((d : ℕ) → d < b → (l.bins d ≡ start n d) × (l.counts d ≡ 0))
      × ((d : ℕ) → b ≤ d → l.counts d ≡ rank d n)

  pub set_bins_lem :
      (n lo m : ℕ) (l : Layout)
      → AreLaidOut n lo l
      → AreLaidOut n (lo + m) (set_bins (range_from lo m) l)
  set_bins_lem n lo zero l h = subst (λ k. AreLaidOut n k l) (the_sum lo) h
    where
      the_sum : (k : ℕ) → k ≡ k + 0
      the_sum k = omega arith
  set_bins_lem n lo (suc m) l (e, before, after) =
      subst (λ k. AreLaidOut n k (set_bins (range_from lo (suc m)) l)) (the_sum lo)
        (set_bins_lem n (lo + 1) m _ (
          ap (λ k. l.next + k) (after lo (omega arith))
              ∙ ap (λ k. k + rank lo n) e
              ∙ start_next n lo,
          λ d lt. (
            update_at l.bins lo _ d _ (λ q. e ∙ ap (start n) q) (λ q. (before d (ground arith)).0),
            update_at l.counts lo 0 d _ (λ q. refl) (λ q. (before d (ground arith)).1),
          ),
          λ d le.
              update_at l.counts lo 0 d _ (λ q. absurd (omega arith)) (λ q. after d (omega arith)),
        ))
    where
      the_sum : (k : ℕ) → k + 1 + m ≡ k + suc m
      the_sum k = omega arith

  module _ (B n : ℕ) (bins : ℕ → ℕ) (below : (c : ℕ) → bin c < B)
      (placed : (b : ℕ) → b < B → bins b ≡ start n b) where
    -- The items before `m` are in their places, one after the other in each bin.
    abbrev pub IsFilled : ℕ → Filling → Type 0
    IsFilled m f =
        ((b : ℕ) → b < B → f.counts b ≡ rank b m)
        × ((c : ℕ) → c < m → f.items (start n (bin c) + rank (bin c) c) ≡ c)

    -- Two items have different places.
    places_differ :
        (c m : ℕ)
        → c < m
        → m < n
        → start n (bin m) + rank (bin m) m ≢ start n (bin c) + rank (bin c) c
    places_differ c m lt less e = elim (Bool-cases (bin c == bin m)) [
      | inl p ↦
          let q = (==_iff (bin c) (bin m)).0 p in
          let r = subst (λ b. start n b + rank b m ≡ start n (bin c) + rank (bin c) c) (sym q) e in
          absurd (omega (arith, r, rank_lt c m lt))
      | inr p ↦ elim (Bool-cases (ltb (bin c) (bin m))) [
        | inl q ↦
            absurd
              (omega (arith, e, start_le n (bin c) (bin m) (ltb→lt (bin c) (bin m) q), rank_lt c n))
        | inr q ↦
            let more : bin m < bin c = ground arith in
            absurd (omega (arith, e, start_le n (bin m) (bin c) more, rank_lt m n less))
      ]
    ]

    pub fill_bins_lem :
        (m k : ℕ) (f : Filling)
        → m + k ≤ n
        → IsFilled m f
        → IsFilled (m + k) (fill_bins bin bins (range_from m k) f)
    fill_bins_lem m zero f le h = subst (λ j. IsFilled j f) (the_sum m) h
      where
        the_sum : (j : ℕ) → j ≡ j + 0
        the_sum j = omega arith
    fill_bins_lem m (suc k) f le (counted, stored) =
        subst (λ j. IsFilled j (fill_bins bin bins (range_from m (suc k)) f)) (the_sum m)
          (fill_bins_lem (m + 1) k _ (omega arith) (
            λ b lt.
                update_at f.counts (bin m) _ b _
                  (λ q.
                    ap (λ j. j + 1) (counted (bin m) (below m))
                    ∙ sym (rank_self m)
                    ∙ ap (λ j. rank j (m + 1)) q)
                  (λ q. counted b lt ∙ sym (rank_other b m q)),
            λ c lt. elim (Bool-cases (m == c)) [
              | inl p ↦
                  let e = (==_iff m c).0 p in
                  update_at f.items _ m _ c (λ q. e) (λ q. absurd (q (here ∙ ap place e)))
              | inr p ↦
                  let less : c < m = ground arith in
                  update_at f.items _ m _ c
                    (λ q. absurd (places_differ c m less (omega arith) (sym here ∙ q)))
                    (λ q. stored c less)
            ],
          ))
      where
        place : ℕ → ℕ
        place c = start n (bin c) + rank (bin c) c

        here : bins (bin m) + f.counts (bin m) ≡ place m
        here = omega (arith, placed (bin m) (below m), counted (bin m) (below m))

        the_sum : (j : ℕ) → j + 1 + k ≡ j + suc k
        the_sum j = omega arith

  -- Each place of a bin's region holds an item of the bin.
  pub slot_lem : (b i n : ℕ) → i < rank b n → (c : ℕ) × (c < n) × (bin c ≡ b) × (rank b c ≡ i)
  slot_lem b i zero lt = absurd (omega arith)
  slot_lem b i (suc n) lt = elim (Bool-cases (ltb i (rank b n))) [
    | inl p ↦ let (c, less, e, r) = slot_lem b i n (ltb→lt i (rank b n) p) in (c, omega arith, e, r)
    | inr p ↦ last (bin n == b) refl lt p
  ]
    where
      last :
          (t : Bool)
          → (bin n == b) ≡ t
          → i < (if t then 1 else 0) + rank b n
          → ltb i (rank b n) ≡ false
          → (c : ℕ) × (c < suc n) × (bin c ≡ b) × (rank b c ≡ i)
      last true e l p = (n, omega arith, (==_iff (bin n) b).0 e, ground arith)
      last false e l p = absurd (ground arith)
