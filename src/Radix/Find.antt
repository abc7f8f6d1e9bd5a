-- ===== src/Radix/Find.antt =====
-- What `rxt_find` says of an edge: the laws of a prefix shared with a key, and of a split edge.
use rrrr.Prelude.{
  append_nil, ℕ, ◌≡◌, ◌≢◌, ◌∙◌, refl, sym, ap, true, false, List, [], ◌∷◌, ◌++◌, arith, ◌==◌,
  if◌then◌else◌, Bool-cases, ==_iff, inl, inr,
}
use rrrr.Radix.{Edge, edge_new, radix_tree_none, same_char, Parted, shared, part, settle, rxt_find}

-- The shared characters and what is left make up the prefix and the key.
pub part_lem : (ps ks : List ℕ) → let (q, p, k) = part ps ks in (ps ≡ q ++ p) × (ks ≡ q ++ k)
part_lem [] ks = (refl, refl)
part_lem (p ∷ ps) [] = (refl, refl)
part_lem (p ∷ ps) (k ∷ ks) = elim (Bool-cases (k == p)) [
  | inl e ↦
      let (a, b) = part_lem ps ks in
      rw e (ap (λ t. p ∷ t) a, ap (λ t. t ∷ ks) ((==_iff k p).0 e) ∙ ap (λ t. p ∷ t) b)
  | inr e ↦ rw e (refl, refl)
]

pub part_self : (ps ks : List ℕ) → part ps (ps ++ ks) ≡ (ps, [], ks)
part_self [] ks = refl
part_self (p ∷ ps) ks =
    let e : (p == p) ≡ true = ground arith in rw e (ap (shared p) (part_self ps ks))

part_all : (ps : List ℕ) → part ps ps ≡ (ps, [], [])
part_all [] = refl
part_all (p ∷ ps) = let e : (p == p) ≡ true = ground arith in rw e (ap (shared p) (part_all ps))

-- A prefix that is shared whole starts the key, with what is left of it.
beyond : (ps ks key : List ℕ) → (part ps ks).1 ≡ [] → (part ps ks).2 ≡ key → ks ≡ ps ++ key
beyond ps ks key a b =
    let (q, p, k) = part ps ks in
    let (c, d) = part_lem ps ks in
    d ∙ ap (λ t. q ++ t) b ∙ ap (λ t. t ++ key) (sym (c ∙ ap (λ t. q ++ t) a ∙ append_nil q))

whole : (ps ks : List ℕ) → (part ps ks).1 ≡ [] → (part ps ks).2 ≡ [] → ks ≡ ps
whole ps ks a b = beyond ps ks [] a b ∙ append_nil ps

settle-value :
    (x : Parted) (value value' : ℕ) (below : List ℕ → ℕ)
    → (x.1 ≡ [] → x.2 ≢ [])
    → settle x value below ≡ settle x value' below
settle-value (q, [], []) value value' below h = absurd (h refl refl)
settle-value (q, [], k ∷ ks) value value' below h = refl
settle-value (q, p ∷ ps, ks) value value' below h = refl

settle-below :
    (x : Parted) (value : ℕ) (below below' : List ℕ → ℕ)
    → ((k : ℕ) (ks : List ℕ) → x.1 ≡ [] → x.2 ≡ k ∷ ks → below (k ∷ ks) ≡ below' (k ∷ ks))
    → settle x value below ≡ settle x value below'
settle-below (q, [], []) value below below' h = refl
settle-below (q, [], k ∷ ks) value below below' h = h k ks refl refl
settle-below (q, p ∷ ps, ks) value below below' h = refl

-- What an edge finds below it does not depend on the characters that it shares.
settle-shared :
    (c : ℕ) (x : Parted) (value : ℕ) (below : List ℕ → ℕ)
    → settle (shared c x) value below ≡ settle x value below
settle-shared c (q, [], []) value below = refl
settle-shared c (q, [], k ∷ ks) value below = refl
settle-shared c (q, p ∷ ps, ks) value below = refl

-- An edge split in two finds what it found.
settle-split :
    (q : List ℕ) (o : ℕ) (os ks : List ℕ) (value : ℕ) (child : Edge)
    → settle (part (q ++ (o ∷ os)) ks) value (rxt_find child)
      ≡ settle (part q ks) radix_tree_none (rxt_find (Edge.edge Edge.null child value (o ∷ os)))
unfolding rxt_find
settle-split [] o os [] value child = refl
settle-split [] o os (k ∷ ks) value child = elim (Bool-cases (k == o)) [
  | inl e ↦ rw e refl
  | inr e ↦ rw e refl
]
settle-split (p ∷ q) o os [] value child = refl
settle-split (p ∷ q) o os (k ∷ ks) value child = elim (Bool-cases (k == p)) [
  | inl e ↦
      rw
        (
          e,
          settle-shared p (part (q ++ (o ∷ os)) ks) value (rxt_find child),
          settle-shared p (part q ks) radix_tree_none
              (rxt_find (Edge.edge Edge.null child value (o ∷ os))),
        )
        (settle-split q o os ks value child)
  | inr e ↦ rw e refl
]

module _ (next child : Edge) (p : ℕ) (ps : List ℕ) where
  pub rxt_find-split :
      (o : ℕ) (os ks : List ℕ) (value : ℕ)
      → rxt_find (Edge.edge next child value ((p ∷ ps) ++ (o ∷ os))) ks
        ≡ rxt_find
            (Edge.edge next (Edge.edge Edge.null child value (o ∷ os)) radix_tree_none (p ∷ ps))
            ks
  unfolding rxt_find
  rxt_find-split o os [] value = refl
  rxt_find-split o os (k ∷ ks) value =
      ap (λ x. if k == p then x else rxt_find next (k ∷ ks))
        (settle-split (p ∷ ps) o os (k ∷ ks) value child)

  -- What a key that the whole prefix starts finds.
  pub rxt_find-here : (value : ℕ) → rxt_find (Edge.edge next child value (p ∷ ps)) (p ∷ ps) ≡ value
  unfolding rxt_find
  rxt_find-here value = let e : (p == p) ≡ true = ground arith in rw (e, part_all ps) refl

  pub rxt_find-below :
      (value k : ℕ) (ks : List ℕ)
      → rxt_find (Edge.edge next child value (p ∷ ps)) ((p ∷ ps) ++ (k ∷ ks))
        ≡ rxt_find child (k ∷ ks)
  unfolding rxt_find
  rxt_find-below value k ks =
      let e : (p == p) ≡ true = ground arith in rw (e, part_self ps (k ∷ ks)) refl

  -- Another value matters to the prefix only.
  pub rxt_find-value :
      (value value' : ℕ) (ks : List ℕ)
      → ks ≢ p ∷ ps
      → rxt_find (Edge.edge next child value (p ∷ ps)) ks
        ≡ rxt_find (Edge.edge next child value' (p ∷ ps)) ks
  unfolding rxt_find
  rxt_find-value value value' [] ne = refl
  rxt_find-value value value' (k ∷ ks) ne =
      ap (λ x. if k == p then x else rxt_find next (k ∷ ks))
        (settle-value (part (p ∷ ps) (k ∷ ks)) value value' (rxt_find child)
          (λ a b. ne (whole (p ∷ ps) (k ∷ ks) a b)))

-- Another list below the edge matters to the keys that reach a difference.
pub rxt_find-child :
    (next child child' : Edge) (value p : ℕ) (ps key ks : List ℕ)
    → ((r : ℕ) (rs : List ℕ) → r ∷ rs ≢ key → rxt_find child' (r ∷ rs) ≡ rxt_find child (r ∷ rs))
    → ks ≢ (p ∷ ps) ++ key
    → rxt_find (Edge.edge next child' value (p ∷ ps)) ks
      ≡ rxt_find (Edge.edge next child value (p ∷ ps)) ks
unfolding rxt_find
rxt_find-child next child child' value p ps key [] same ne = refl
rxt_find-child next child child' value p ps key (k ∷ ks) same ne =
    ap (λ x. if k == p then x else rxt_find next (k ∷ ks))
      (settle-below (part (p ∷ ps) (k ∷ ks)) value (rxt_find child') (rxt_find child)
        λ r rs a b. same r rs λ e. ne (beyond (p ∷ ps) (k ∷ ks) key a (b ∙ e)))

-- Another list of edges after this one matters to the keys that pass it.
pub rxt_find-next :
    (next next' child : Edge) (value p : ℕ) (ps ks : List ℕ)
    → rxt_find next' ks ≡ rxt_find next ks
    → rxt_find (Edge.edge next' child value (p ∷ ps)) ks
      ≡ rxt_find (Edge.edge next child value (p ∷ ps)) ks
unfolding rxt_find
rxt_find-next next next' child value p ps ks e =
    ap (λ x. if same_char ks (p ∷ ps) then settle (part (p ∷ ps) ks) value (rxt_find child) else x)
      e

pub rxt_find-pass :
    (next child : Edge) (value p k : ℕ) (ps ks : List ℕ)
    → (k == p) ≡ false
    → rxt_find (Edge.edge next child value (p ∷ ps)) (k ∷ ks) ≡ rxt_find next (k ∷ ks)
unfolding rxt_find
rxt_find-pass next child value p k ps ks e = rw e refl

pub rxt_find-new : (k : ℕ) (ks : List ℕ) → rxt_find edge_new (k ∷ ks) ≡ radix_tree_none
unfolding rxt_find
rxt_find-new k ks = refl
