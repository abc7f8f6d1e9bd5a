-- ===== src/BitSet/Elements.antt =====
-- The loop over a BitSet visits exactly its members, in ascending order.
use rrrr.Prelude.{
  ℕ, zero, suc, ◌+◌, ◌-◌, ◌%◌, ◌^◌, ◌≤◌, ◌<◌, ◌≡◌, refl, true, false, some, List, [], ◌∷◌, arith,
  ◌==◌, if◌then◌else◌, Bool-cases, inl, inr, ap, sym, All,
}
use rrrr.BitSet.{BitSet, bitset_none, elements_from, elements}
use rrrr.BitSet.Laws.{contains, IsValid}
use rrrr.BitSet.Scan.{NoneIn, bitset_next_set_bit-IsNext}

-- The members among the `n` numbers from `lo` on, in ascending order.
abbrev pub members : BitSet → ℕ → ℕ → List ℕ
members bs zero lo = []
members bs (suc n) lo = if contains bs lo then lo ∷ members bs n (lo + 1) else members bs n (lo + 1)

pub members-lt : (bs : BitSet) (n lo hi : ℕ) → lo + n ≤ hi → All (λ i. i < hi) (members bs n lo)
members-lt bs zero lo hi h = tt
members-lt bs (suc n) lo hi h = elim (Bool-cases (contains bs lo)) [
  | inl p ↦ rw p (omega arith, members-lt bs n (lo + 1) hi (omega arith))
  | inr p ↦ rw p (members-lt bs n (lo + 1) hi (omega arith))
]

module _ (bs : BitSet) where
  members-skip :
      (k n m lo hi : ℕ)
      → m ≡ k + n
      → hi ≡ lo + k
      → hi + n ≤ bs.capacity
      → NoneIn bs lo hi
      → members bs m lo ≡ members bs n hi
  members-skip zero n m lo hi em eh c h =
      let e : m ≡ n = omega arith in let e' : lo ≡ hi = omega arith in rw (e, e')
  members-skip (suc k) n zero lo hi em eh c h = absurd (omega arith)
  members-skip (suc k) n (suc m) lo hi em eh c h =
      rw (h lo (omega arith) (omega arith) (omega arith)) (
        members-skip k n m (lo + 1) hi (omega arith) (omega arith) c
          (λ j a b d. h j (omega arith) b d))

  members-none : (n lo : ℕ) → lo + n ≤ bs.capacity → NoneIn bs lo (lo + n) → members bs n lo ≡ []
  members-none n lo c h = members-skip n 0 n lo (lo + n) (omega arith) refl (omega arith) h

  module _ (past : ℕ → ℕ) (v : IsValid bs) (fits : bs.capacity + 64 < 2 ^ 32) where
    elements_from-members :
        (fuel n index : ℕ)
        → index + n ≡ bs.capacity
        → n < fuel
        → elements_from bs past fuel index ≡ some (members bs n index)
    unfolding elements_from
    elements_from-members zero n index e f = elim f [ ]
    elements_from-members (suc fuel) n index e f =
        let (r, q, next) = bitset_next_set_bit-IsNext bs past index v fits in
        elim next [
          | inl last ↦
              let p : (r == bitset_none) ≡ true = ground (arith, last.0) in
              rw (q, elements_from, p)
                (ap some (sym (members-none n index (omega arith) (λ j a b c. last.1 j a c c))))
          | inr found ↦
              let p : (r == bitset_none) ≡ false = ground (arith, found.1) in
              let w : (r + 1) % 2 ^ 32 ≡ r + 1 = omega (arith, found.1) in
              let skip : members bs n index ≡ members bs (suc (n - 1 - (r - index))) r =
                members-skip (r - index) (suc (n - 1 - (r - index))) n index r
                  (omega (arith, found.0, found.1)) (omega (arith, found.0))
                  (omega (arith, found.0, found.1)) found.3 in
              rw (q, elements_from, p, w)
                (rw skip (
                  rw (
                    found.2,
                    elements_from-members fuel (n - 1 - (r - index)) (r + 1)
                        (omega (arith, found.0, found.1)) (omega (arith, found.0, found.1)),
                  )))
        ]

-- On a valid set whose capacity plus a chunk is a number of 32 bits, the loop over it ends within its fuel, and visits exactly the members below the capacity,
-- each once and in ascending order, whatever the memory behind the chunks holds.
pub elements-members :
    (bs : BitSet) (past : ℕ → ℕ)
    → IsValid bs
    → bs.capacity + 64 < 2 ^ 32
    → elements bs past ≡ some (members bs bs.capacity 0)
unfolding elements
elements-members bs past v fits =
    elements_from-members bs past v fits (bs.capacity + 1) bs.capacity 0 (omega arith) (omega arith)
