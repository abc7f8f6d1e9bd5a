-- ===== src/BitSet/Scan.antt =====
-- `bitset_next_set_bit` of bitset.c finds the next member, whatever lies behind the chunks.
use rrrr.Prelude.{
  ℕ, zero, suc, ◌+◌, ◌*◌, ◌/◌, ◌%◌, ◌^◌, ◌≤◌, ◌<◌, ◌≡◌, ◌≢◌, ◌⊎◌, refl, true, false, Option, none,
  some, arith, bit_and, ltb, leb, ltb→lt, leb→le, ◌==◌, not, ==_iff, get_or, Bool-cases, ap, ◌∙◌,
  inl, inr,
}
use native.Mathlib.Nat.{pow-suc}
use native.Mathlib.Numerals.{add-one}
use rrrr.Prelude.Bits.{test_bit, test_bit-zero, bit_and-pow, bit_and-pow', one-le-pow}
use rrrr.BitSet.{BitSet, bitset_none, load, spin, scan, bitset_next_set_bit}
use rrrr.BitSet.Laws.{contains, IsValid, and_pow_test, pow-lt-word}

-- No member in [lo, hi) below the capacity.
abbrev pub NoneIn : BitSet → ℕ → ℕ → Type 0
NoneIn bs lo hi = (j : ℕ) → lo ≤ j → j < hi → j < bs.capacity → contains bs j ≡ false

-- `r` is the least member that is at least `index`, or BITSET_NONE if there is none.
abbrev pub IsNext : BitSet → ℕ → ℕ → Type 0
IsNext bs index r =
    ((r ≡ bitset_none) × NoneIn bs index bs.capacity)
    ⊎ ((index ≤ r) × (r < bs.capacity) × (contains bs r ≡ true) × NoneIn bs index r)

mask_test_bit : (k a : ℕ) → (bit_and (2 ^ k) a == 0) ≡ not (test_bit a k == 1)
mask_test_bit k a = rw (bit_and-pow k a, ← bit_and-pow' k a) (and_pow_test k a)

-- The mask shifted out of its word is 0, exactly at the last bit.
mask_shift :
    (r : ℕ)
    → r < 64
    → ((r ≡ 63) × (2 ^ r * 2 % 2 ^ 64 ≡ 0))
      ⊎ ((r < 63) × (2 ^ r * 2 % 2 ^ 64 ≡ 2 ^ (r + 1)) × (2 ^ (r + 1) ≢ 0))
mask_shift r h = elim (Bool-cases (r == 63)) [
  | inl p ↦ let e : r ≡ 63 = (==_iff r 63).0 p in inl (e, rw e)
  | inr p ↦
      let lt : r < 63 = ground arith in
      let e : 2 ^ (r + 1) ≡ 2 ^ r * 2 = rw add-one (omega (arith, pow-suc 2 r)) in
      let b : 2 ^ (r + 1) < 2 ^ 64 = pow-lt-word (r + 1) (omega arith) in
      inr (lt, omega arith, omega (arith, one-le-pow (r + 1)))
]

module _ (bs : BitSet) (past : ℕ → ℕ) (v : IsValid bs) (fits : bs.capacity + 64 < 2 ^ 32) where
  zero_chunk : (c : ℕ) → load bs past c ≡ 0 → NoneIn bs (c * 64) (c * 64 + 64)
  unfolding contains
  zero_chunk c h j lo hi cap =
      let e : j / 64 ≡ c = omega arith in
      let z : get_or bs.chunks c 0 ≡ 0 = ground arith in
      rw (e, z) (ground (arith, test_bit-zero (j % 64)))

  abbrev Spun : ℕ → Option (Option (ℕ × ℕ)) → Type 0
  Spun index none = ⊥
  Spun index (some none) = NoneIn bs index bs.capacity
  Spun index (some (some (c, i))) =
      (index ≤ i) × (i ≤ bs.capacity) × (c ≡ i / 64) × (i % 64 ≡ 0) × NoneIn bs index i

  NoneIn-join : (a b c : ℕ) → NoneIn bs a b → NoneIn bs b c → NoneIn bs a c
  NoneIn-join a b c p q j lo hi cap = elim (Bool-cases (ltb j b)) [
    | inl h ↦ p j lo (ltb→lt j b h) cap
    | inr h ↦ q j (ground arith) hi cap
  ]

  Spun-extend :
      (a b : ℕ) (r : Option (Option (ℕ × ℕ))) → a ≤ b → NoneIn bs a b → Spun b r → Spun a r
  Spun-extend a b none le p s = s
  Spun-extend a b (some none) le p s = NoneIn-join a b bs.capacity p s
  Spun-extend a b (some (some (c, i))) le p s =
      (omega arith, s.1, s.2, s.3, NoneIn-join a b i p s.4)

  spin-Spun :
      (fuel c index : ℕ)
      → c * 64 ≡ index
      → index ≤ bs.capacity
      → bs.capacity + 1 ≤ fuel + index
      → Spun index (spin bs past fuel c index)
  unfolding spin
  spin-Spun zero c index e le f = absurd (omega arith)
  spin-Spun (suc fuel) c index e le f = elim (Bool-cases (load bs past c == 0)) [
    | inr full ↦
        rw (full, Spun)
          (omega arith, le, omega arith, omega arith, λ j lo hi _. absurd (omega arith))
    | inl empty ↦
        let z : load bs past c ≡ 0 = (==_iff _ _).0 empty in
        let gap : NoneIn bs (c * 64) (c * 64 + 64) = zero_chunk c z in
        elim (Bool-cases (leb bs.capacity ((index + 64) % 2 ^ 32))) [
          | inl last ↦
              let h : bs.capacity ≤ (index + 64) % 2 ^ 32 = leb→le _ _ last in
              rw (empty, last, Spun) (λ j lo hi cap. gap j (omega arith) (omega arith) cap)
          | inr more ↦
              let w : (index + 64) % 2 ^ 32 ≡ index + 64 = omega arith in
              let rest : Spun (index + 64) (spin bs past fuel (c + 1) ((index + 64) % 2 ^ 32)) =
                rw w (
                  spin-Spun fuel (c + 1) (index + 64) (omega arith) (ground arith) (omega arith)) in
              rw (empty, more) (Spun-extend index (index + 64) _ (omega arith) (rw e at (gap)) rest)
        ]
  ]

  -- What the outer loop promises.
  abbrev Found : ℕ → Option ℕ → Type 0
  Found index none = ⊥
  Found index (some r) = IsNext bs index r

  Found-extend : (a b : ℕ) (r : Option ℕ) → a ≤ b → NoneIn bs a b → Found b r → Found a r
  Found-extend a b none le p s = s
  Found-extend a b (some r) le p (inl s) = inl (s.0, NoneIn-join a b bs.capacity p s.1)
  Found-extend a b (some r) le p (inr s) = inr (omega arith, s.1, s.2, NoneIn-join a b r p s.3)

  NoneIn-one : (i : ℕ) → contains bs i ≡ false → NoneIn bs i (i + 1)
  NoneIn-one i h j lo hi cap = let e : j ≡ i = omega arith in rw e h

  -- The test by the mask is membership.
  mask_test :
      (i : ℕ)
      → i < bs.capacity
      → (bit_and (2 ^ (i % 64)) (load bs past (i / 64)) == 0) ≡ not (contains bs i)
  unfolding contains
  mask_test i h =
      let inside : i / 64 < bs.nchunks = omega (arith, v.covers) in
      let e : load bs past (i / 64) ≡ get_or bs.chunks (i / 64) 0 = ground arith in
      rw e (mask_test_bit (i % 64) (get_or bs.chunks (i / 64) 0))

  next-Found :
      (fuel a : ℕ) (o : Option (Option (ℕ × ℕ)))
      → ((c i : ℕ)
          → c ≡ i / 64
          → i % 64 ≡ 0
          → a ≤ i
          → i ≤ bs.capacity
          → Found i (scan bs past fuel c 1 i))
      → Spun a o
      → Found a (elim o [
        | none ↦ none
        | some none ↦ some bitset_none
        | some (some (c, i)) ↦ scan bs past fuel c 1 i
      ])
  next-Found fuel a none ih s = s
  next-Found fuel a (some none) ih s = inl (refl, s)
  next-Found fuel a (some (some (c, i))) ih s = Found-extend a i _ s.0 s.4 (ih c i s.2 s.3 s.0 s.1)

  scan-Found :
      (fuel c mask index : ℕ)
      → c ≡ index / 64
      → mask ≡ 2 ^ (index % 64)
      → 0 < fuel
      → bs.capacity + 1 ≤ fuel + index
      → Found index (scan bs past fuel c mask index)
  unfolding scan
  scan-Found zero c mask index ec em pos f = elim pos [ ]
  scan-Found (suc fuel) c mask index ec em pos f = elim (Bool-cases (ltb index bs.capacity)) [
    | inr beyond ↦ rw (beyond, Found) (inl (refl, λ j lo hi _. absurd (ground arith)))
    | inl within ↦
        let h : index < bs.capacity = ltb→lt _ _ within in
        elim (Bool-cases (contains bs index)) [
          | inl member ↦
              rw (within, em, ec, mask_test index h, member, Found)
                (inr (omega arith, h, member, λ j lo hi _. absurd (omega arith)))
          | inr absent ↦
              let w : (index + 1) % 2 ^ 32 ≡ index + 1 = omega arith in
              let one : NoneIn bs index (index + 1) = NoneIn-one index absent in
              elim (mask_shift (index % 64) (omega arith)) [
                | inl last ↦
                    rw (within, em, ec, mask_test index h, absent, last.1, w)
                      (Found-extend index (index + 1) _ (omega arith) one (
                        next-Found fuel (index + 1) _
                          (λ c' i ec' em' lo hi.
                            scan-Found fuel c' 1 i ec' (rw em') (omega arith) (omega arith))
                          (spin-Spun fuel (index / 64 + 1) (index + 1) (omega arith) (omega arith)
                            (omega arith))))
                | inr more ↦
                    let nz : (2 ^ (index % 64) * 2 % 2 ^ 64 == 0) ≡ false =
                      ground (arith, more.1, more.2) in
                    let er : index % 64 + 1 ≡ (index + 1) % 64 = omega (arith, more.0) in
                    rw (within, em, ec, mask_test index h, absent, nz, w)
                      (Found-extend index (index + 1) _ (omega arith) one (
                        scan-Found fuel (index / 64) _ (index + 1) (omega (arith, more.0))
                          (more.1 ∙ ap (λ t. 2 ^ t) er) (omega arith) (omega arith)))
              ]
        ]
  ]

-- On a valid set whose capacity plus a chunk is a number of 32 bits, from any index,
-- `bitset_next_set_bit` returns (within the fuel it is given) the least member at
-- or after it, or BITSET_NONE when there is none, whatever the memory behind the chunks holds.
pub bitset_next_set_bit-IsNext :
    (bs : BitSet) (past : ℕ → ℕ) (index : ℕ)
    → IsValid bs
    → bs.capacity + 64 < 2 ^ 32
    → (r : ℕ) × (bitset_next_set_bit bs past index ≡ some r) × IsNext bs index r
unfolding bitset_next_set_bit
bitset_next_set_bit-IsNext bs past index v fits = found _ (
    scan-Found bs past v fits (bs.capacity + 2) (index / 64) _ index refl refl (omega arith)
      (omega arith))
  where
    found :
        (o : Option ℕ) → Found bs past v fits index o → (r : ℕ) × (o ≡ some r) × IsNext bs index r
    found none h = absurd h
    found (some r) h = (r, refl, h)
