-- ===== src/IntSet/Laws.antt =====
-- The hash table of intset.c against the set that it stands for.
use rrrr.Prelude.{
  ℕ, zero, suc, ◌⊎◌, ◌+◌, ◌%◌, ◌<◌, ◌≤◌, ◌≡◌, ◌≢◌, ◌∙◌, refl, sym, ap, subst, true, false, List, [],
  ◌∷◌, arith, ◌==◌, ◌||◌, update, update-all, update_self, update_ne, range_from, Bool-cases,
  ==_iff, inl, inr,
}
use native.Mathlib.Nat.{mod-lt}
use rrrr.IntSet.{
  Element, IntSet, intset_none, clear_elements, intset_clear, intset_new, chain_contains,
  intset_contains, chain_add, element_add, intset_add,
}

-- A chain without a first key is empty.
abbrev IsChain : Element → Type 0
IsChain e = e.key ≡ intset_none → e.next ≡ []

-- A table as `IntSet_new` and `IntSet_add` leave it.
pub record IsTable (is : IntSet) : Type 0 where
  pub some_hash : 0 < is.size
  pub chains : (i : ℕ) → i < is.size → IsChain (is.elements i)

chain_contains-chain_add :
    (key : ℕ) (next : List ℕ) (value other : ℕ)
    → chain_contains key (chain_add key next value) other
      ≡ (value == other || chain_contains key next other)
chain_contains-chain_add key [] value other = elim (Bool-cases (key == value)) [
  | inl e ↦ rw e (ground arith)
  | inr e ↦ rw e (ground arith)
]
chain_contains-chain_add key (k ∷ ks) value other = elim (Bool-cases (key == value)) [
  | inl e ↦ rw e (ground arith)
  | inr e ↦ rw (e, chain_contains-chain_add k ks value other) (ground arith)
]

element_add-contains :
    (e : Element) (value other : ℕ)
    → IsChain e
    → other ≢ intset_none
    → let e' = element_add e value in
      chain_contains e'.key e'.next other ≡ (value == other || chain_contains e.key e.next other)
element_add-contains e value other chain is_key = elim (Bool-cases (e.key == intset_none)) [
  | inl q ↦
      let empty : e.next ≡ [] = chain ((==_iff e.key intset_none).0 q) in
      rw (q, empty) (ground arith)
  | inr q ↦ rw q (chain_contains-chain_add e.key e.next value other)
]

element_add-IsChain :
    (e : Element) (value : ℕ) → IsChain e → value ≢ intset_none → IsChain (element_add e value)
element_add-IsChain e value chain is_key = elim (Bool-cases (e.key == intset_none)) [
  | inl q ↦ rw q (λ none. absurd (is_key none))
  | inr q ↦ rw q (λ none. absurd (ground arith))
]

-- In a valid table, for a value that is not INTSET_NONE: after `IntSet_add` the table is valid and
-- of the same size, and among all numbers but INTSET_NONE it contains the value and what it
-- contained before.
pub intset_contains-intset_add :
    (is : IntSet) (value : ℕ)
    → IsTable is
    → value ≢ intset_none
    → IsTable (intset_add is value)
      × ((intset_add is value).size ≡ is.size)
      × ((other : ℕ)
          → other ≢ intset_none
          → intset_contains (intset_add is value) other
            ≡ (value == other || intset_contains is other))
unfolding intset_add intset_contains
intset_contains-intset_add is value table is_key = (
  record {
    some_hash = table.some_hash;
    chains = λ i lt.
        update-all IsChain is.elements hash i (element_add (is.elements hash) value)
          (element_add-IsChain (is.elements hash) value (table.chains hash in_range) is_key)
          (table.chains i lt);
  },
  refl,
  λ other other_key. elim (Bool-cases (hash == other % is.size)) [
    | inl q ↦
        let same : hash ≡ other % is.size = (==_iff hash (other % is.size)).0 q in
        rw (← same, update_self is.elements hash (element_add (is.elements hash) value))
          (element_add-contains (is.elements hash) value other (table.chains hash in_range)
            other_key)
    | inr q ↦
        rw
          (update_ne is.elements hash (other % is.size) (element_add (is.elements hash) value)
            (ground arith))
          (let differ : (value == other) ≡ false = apart other q in rw differ refl)
  ],
)
  where
    hash : ℕ
    hash = value % is.size

    in_range : hash < is.size
    in_range = mod-lt value table.some_hash

    apart : (other : ℕ) → (hash == other % is.size) ≡ false → (value == other) ≡ false
    apart other q = elim (Bool-cases (value == other)) [
      | inl e ↦
          let same : hash ≡ other % is.size = ap (λ v. v % is.size) ((==_iff value other).0 e) in
          absurd (ground arith)
      | inr e ↦ e
    ]

abbrev cleared : Element
cleared = record { key = intset_none; next = [] }

clear_elements-at :
    (n lo i : ℕ) (elements : ℕ → Element)
    → (elements i ≡ cleared) ⊎ ((lo ≤ i) × (i < lo + n))
    → clear_elements (range_from lo n) elements i ≡ cleared
unfolding clear_elements
clear_elements-at zero lo i elements (inl e) = e
clear_elements-at zero lo i elements (inr (le, lt)) = absurd (omega arith)
clear_elements-at (suc n) lo i elements h =
    clear_elements-at n (lo + 1) i (update elements lo cleared) (next (Bool-cases (lo == i)) h)
  where
    next :
        ((lo == i) ≡ true) ⊎ ((lo == i) ≡ false)
        → (elements i ≡ cleared) ⊎ ((lo ≤ i) × (i < lo + suc n))
        → (update elements lo cleared i ≡ cleared) ⊎ ((lo + 1 ≤ i) × (i < lo + 1 + n))
    next (inl q) _ = inl (
        subst (λ k. update elements lo cleared k ≡ cleared) ((==_iff lo i).0 q)
          (update_self elements lo cleared))
    next (inr q) (inl e) = inl (update_ne elements lo i cleared (ground arith) ∙ e)
    next (inr q) (inr (le, lt)) = inr (ground arith, omega arith)

-- A new table of at least one hash is valid, whatever its memory held, and contains no number but
-- INTSET_NONE.
pub intset_contains-intset_new :
    (garbage : ℕ → Element) (n value : ℕ)
    → 0 < n
    → value ≢ intset_none
    → IsTable (intset_new garbage n) × (intset_contains (intset_new garbage n) value ≡ false)
unfolding intset_new intset_clear intset_contains
intset_contains-intset_new garbage n value some_hash is_key = (
  record {
    some_hash = some_hash;
    chains = λ i lt.
        subst IsChain (sym (clear_elements-at n 0 i garbage (inr (omega arith, omega arith))))
          (λ _. refl);
  },
  rw
      (clear_elements-at n 0 (value % n) garbage
        (inr (omega arith, omega (arith, mod-lt value some_hash))))
      (ground arith),
)
