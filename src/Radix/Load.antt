-- ===== src/Radix/Load.antt =====
-- `rxt_load_strings_from_tdata`: the index of a string in an array of them.
use rrrr.Prelude.{
  false, true, ℕ, zero, suc, ◌+◌, ◌<◌, ◌≡◌, ◌≢◌, ◌∙◌, refl, sym, ap, subst, some, List, [], ◌∷◌,
  arith, ◌==◌, length, Bool-cases, ==_iff, inl, inr, ltb, ◌*◌, ◌%◌, ◌^◌, ◌≤◌, lt→ltb,
}
use native.Mathlib.Nat.{
  mul-add, mul-one, mul-zero, mul-lt-mul_of_pos_left, mul-le-mul_right, mod-eq_of_lt,
}
use rrrr.Prelude.Effects.{Ensures, Ensures-bind, Ensures-some}
use rrrr.Radix.{
  Edge, rxt_new, radix_tree_none, rxt_find, rxt_edge_count, insert_round, insert_from, rxt_insert,
  load_from, rxt_load_strings_from_tdata,
}
use rrrr.Radix.Insert.{IsTree, rxt_find-rxt_insert}

-- An attempt to insert the empty string changes nothing.
rxt_insert-empty : (t : Edge) (value : ℕ) → IsTree t → rxt_insert t [] value ≡ some t
unfolding rxt_insert insert_from insert_round
rxt_insert-empty t value tree =
    let fuel : length {A = ℕ} [] + rxt_edge_count t + 1 ≡ suc (rxt_edge_count t) = omega arith in
    rw fuel (go t tree (rxt_edge_count t))
  where
    go : (e : Edge) → IsTree e → (n : ℕ) → insert_from (suc n) e [] value ≡ some e
    go Edge.null tree' n = refl
    go (Edge.edge next child old prefix) tree' n = refl

rxt_find-rxt_new : (key : List ℕ) → rxt_find rxt_new key ≡ radix_tree_none
unfolding rxt_find
rxt_find-rxt_new [] = refl
rxt_find-rxt_new (k ∷ ks) = refl

module _ (strings : ℕ → List ℕ) where
  -- After the first `n` strings: each finds its last index among them, and nothing else is found.
  abbrev pub IsLoaded : ℕ → Edge → Type 0
  IsLoaded n t =
      IsTree t
      × ((i : ℕ)
          → i < n
          → 0 < length (strings i)
          → ((j : ℕ) → i < j → j < n → strings j ≢ strings i)
          → rxt_find t (strings i) ≡ i)
      × ((key : List ℕ) → ((i : ℕ) → i < n → strings i ≢ key) → rxt_find t key ≡ radix_tree_none)

  insert-IsLoaded :
      (n : ℕ) (t : Edge) → IsLoaded n t → Ensures (IsLoaded (n + 1)) (rxt_insert t (strings n) n)
  insert-IsLoaded n t (tree, own, other) = go (strings n) refl
    where
      go : (key : List ℕ) → strings n ≡ key → Ensures (IsLoaded (n + 1)) (rxt_insert t key n)
      go [] e = rw (rxt_insert-empty t n tree) (
        tree,
        λ i lt full last. elim (Bool-cases (i == n)) [
          | inl q ↦
              absurd
                (omega (arith, full, ap (λ x. length (strings x)) ((==_iff i n).0 q), ap length e))
          | inr q ↦ own i (ground arith) full (λ j lo hi. last j lo (omega arith))
        ],
        λ key none. other key (λ i lt. none i (omega arith)),
      )
      go (k ∷ ks) e =
          let (t', done, (solid, found, others)) =
            rxt_find-rxt_insert t (k ∷ ks) n tree (omega arith) in
          rw done (
            inl solid,
            λ i lt full last. elim (Bool-cases (i == n)) [
              | inl q ↦
                  let at_n : i ≡ n = (==_iff i n).0 q in
                  ap (λ x. rxt_find t' (strings x)) at_n ∙ ap (rxt_find t') e ∙ found ∙ sym at_n
              | inr q ↦
                  others (strings i) (λ same. last n (ground arith) (omega arith) (e ∙ sym same))
                  ∙ own i (ground arith) full (λ j lo hi. last j lo (omega arith))
            ],
            λ key none.
                others key (λ same. none n (omega arith) (e ∙ sym same))
                ∙ other key (λ i lt. none i (omega arith)),
          )

module _ (strings : ℕ → List ℕ) (width n : ℕ) (wide : 0 < width) (fits : width * n < 2 ^ 32) where
  few : n ≤ width * n
  few = omega (arith, mul-le-mul_right n wide)

  load_from-IsLoaded :
      (m i fuel : ℕ) (t : Edge)
      → i + m ≡ n
      → m < fuel
      → IsLoaded (λ idx. strings (width * idx)) i t
      → Ensures
          (IsLoaded (λ idx. strings (width * idx)) n)
          (load_from strings width (width * n) fuel (width * i) i t)
  unfolding load_from
  load_from-IsLoaded m i zero t e lt h = absurd (omega arith)
  load_from-IsLoaded zero i (suc fuel) t e lt h =
      let at_end : i ≡ n = omega arith in
      let ends : ltb (width * i) (width * n) ≡ false = rw at_end (ground arith) in
      rw ends (subst (λ k. IsLoaded (λ idx. strings (width * idx)) k t) at_end h)
  load_from-IsLoaded (suc m) i (suc fuel) t e lt h =
      let more : ltb (width * i) (width * n) ≡ true =
        lt→ltb _ _ (mul-lt-mul_of_pos_left (omega arith) wide) in
      rw more (
        Ensures-bind (IsLoaded (λ idx. strings (width * idx)) (i + 1)) _ _ _
          (insert-IsLoaded (λ idx. strings (width * idx)) i t h)
          λ t' h'.
            rw (idx, s) (load_from-IsLoaded m (i + 1) fuel t' (omega arith) (omega arith) h'))
    where
      idx : (i + 1) % 2 ^ 32 ≡ i + 1
      idx = omega (arith, few)

      s : width * i + width ≡ width * (i + 1)
      s = sym (mul-add width i 1 ∙ ap (λ k. width * i + k) (mul-one width))

  -- Loading an array of `n` strings, each `width` bytes after the one before, where the width is
  -- not zero and `width * n` is less than 2 ^ 32, ends, in a tree that maps each string that is not
  -- empty to the last index where it stands, and all other strings to RADIX_TREE_NONE.
  pub rxt_load_strings_from_tdata-IsLoaded :
      (t : Edge) × (rxt_load_strings_from_tdata strings width n ≡ some t)
      × IsLoaded (λ idx. strings (width * idx)) n t
  unfolding rxt_load_strings_from_tdata
  rxt_load_strings_from_tdata-IsLoaded = Ensures-some _ _ (
      rw (mod-eq_of_lt fits) (
        subst
          (λ s.
            Ensures (IsLoaded (λ idx. strings (width * idx)) n)
              (load_from strings width (width * n) (width * n + 1) s 0 rxt_new))
          (mul-zero width)
          (load_from-IsLoaded n 0 (width * n + 1) rxt_new (omega arith) (omega (arith, few))
            (inr refl, λ i lt full last. absurd (omega arith), λ key h. rxt_find-rxt_new key))))
