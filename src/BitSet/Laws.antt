-- ===== src/BitSet/Laws.antt =====
-- The operations of bitset.c against the set that a BitSet stands for.
use rrrr.Prelude.{
  ℕ, ◌+◌, ◌-◌, ◌*◌, ◌/◌, ◌%◌, ◌^◌, ◌≤◌, ◌<◌, ◌≡◌, ◌≢◌, refl, Bool, true, false, Option, none, some,
  arith, bit_and, bit_or, leb, ◌==◌, not, if◌then◌else◌, get_or, length, Bool-cases, leb→le, ==_iff,
  inl, inr, ◌∙◌, length-set, length-replicate, get_or-set_self, get_or-set_ne, get_or-replicate,
}
use rrrr.Prelude.Bits.{
  test_bit, test_bit-bit_or, test_bit-bit_and, test_bit-pow, test_bit-complement, test_bit-zero,
  test_bit-le-one, bit_and-pow', one-le-pow, pow_le_mono,
}
use rrrr.BitSet.{
  BitSet, bitset_new, bitset_reset, bitset_set, bitset_unset, bitset_get, update_chunk,
}

-- Whether a number is in the set.
unfoldable pub contains : BitSet → ℕ → Bool
contains bs i = test_bit (get_or bs.chunks (i / 64) 0) (i % 64) == 1

pub record IsValid (bs : BitSet) : Type 0 where
  pub chunk_count : length bs.chunks ≡ bs.nchunks
  pub covers : bs.capacity ≤ bs.nchunks * 64

-- What an update of one chunk does to the set, from what it does to the bits of the chunk.
contains-update :
    (bs : BitSet) (i : ℕ) (f : ℕ → ℕ) (b : Bool)
    → IsValid bs
    → i < bs.capacity
    → ((c k : ℕ)
        → k < 64
        → (test_bit (f c) k == 1) ≡ (if i % 64 == k then b else test_bit c k == 1))
    → (j : ℕ) → contains (update_chunk bs i f) j ≡ (if i == j then b else contains bs j)
unfolding contains
contains-update bs i f b v h e j = elim (Bool-cases (i / 64 == j / 64)) [
  | inl p ↦ rw (← (==_iff (i / 64) (j / 64)).0 p) (
      rw (get_or-set_self bs.chunks (i / 64) (f (get_or bs.chunks (i / 64) 0)) 0 (omega arith))
        (rw (e (get_or bs.chunks (i / 64) 0) (j % 64) (omega arith)) (ground arith)))
  | inr p ↦
      let ne : i / 64 ≢ j / 64 = ground arith in
      rw (get_or-set_ne bs.chunks (i / 64) (j / 64) (f (get_or bs.chunks (i / 64) 0)) 0 ne)
        (ground arith)
]

pub IsValid-update : {bs : BitSet} (i : ℕ) (f : ℕ → ℕ) → IsValid bs → IsValid (update_chunk bs i f)
IsValid-update {bs} i f v = record {
  chunk_count = length-set bs.chunks (i / 64) (f (get_or bs.chunks (i / 64) 0)) ∙ v.chunk_count;
  covers = v.covers;
}

-- What an operation that sets the membership of `i` to `b` promises: `none`, the exit, exactly
-- out of range; in range a valid set of the same capacity, which differs at `i` alone.
abbrev pub Assigns : BitSet → ℕ → Bool → Option BitSet → Type 0
Assigns bs i b none = bs.capacity ≤ i
Assigns bs i b (some bs') =
    (i < bs.capacity)
    × IsValid bs'
    × (bs'.capacity ≡ bs.capacity)
    × ((j : ℕ) → contains bs' j ≡ (if i == j then b else contains bs j))

or_bit :
    (r c k : ℕ)
    → (test_bit (bit_or c (2 ^ r)) k == 1) ≡ (if r == k then true else test_bit c k == 1)
or_bit r c k = ground (arith, test_bit-bit_or k c (2 ^ r), test_bit-pow r k, test_bit-le-one k c)

pub pow-lt-word : (r : ℕ) → r < 64 → 2 ^ r < 2 ^ 64
pow-lt-word r h =
    let e : (63 - r) + r ≡ 63 = omega arith in
    let m : 2 ^ r ≤ 2 ^ 63 = rw e at (pow_le_mono r (63 - r)) in omega arith

and_bit :
    (r c k : ℕ)
    → r < 64
    → k < 64
    → (test_bit (bit_and c (2 ^ 64 - 1 - 2 ^ r)) k == 1)
      ≡ (if r == k then false else test_bit c k == 1)
and_bit r c k h g = ground (
  arith,
  test_bit-bit_and k c (2 ^ 64 - 1 - 2 ^ r),
  test_bit-complement 64 k (2 ^ r) (pow-lt-word r h) g,
  test_bit-pow r k,
  test_bit-le-one k c,
)

-- On a valid set, `bitset_set` exits exactly out of range, and otherwise adds the index and nothing
-- else, and keeps the set valid.
pub bitset_set-Assigns : (bs : BitSet) (i : ℕ) → IsValid bs → Assigns bs i true (bitset_set bs i)
unfolding bitset_set
bitset_set-Assigns bs i v = elim (Bool-cases (leb bs.capacity i)) [
  | inl out ↦ rw (out, Assigns) (leb→le bs.capacity i out)
  | inr inside ↦
      let h : i < bs.capacity = ground arith in
      rw (inside, Assigns)
        (
          h,
          IsValid-update i (λ c. bit_or c (2 ^ (i % 64))) v,
          refl,
          contains-update bs i (λ c. bit_or c (2 ^ (i % 64))) true v h
              (λ c k _. or_bit (i % 64) c k),
        )
]

-- On a valid set, `bitset_unset` exits exactly out of range, and otherwise removes the index and
-- nothing else, and keeps the set valid.
pub bitset_unset-Assigns :
    (bs : BitSet) (i : ℕ) → IsValid bs → Assigns bs i false (bitset_unset bs i)
unfolding bitset_unset
bitset_unset-Assigns bs i v = elim (Bool-cases (leb bs.capacity i)) [
  | inl out ↦ rw (out, Assigns) (leb→le bs.capacity i out)
  | inr inside ↦
      let h : i < bs.capacity = ground arith in
      rw (inside, Assigns)
        (
          h,
          IsValid-update i (λ c. bit_and c (2 ^ 64 - 1 - 2 ^ (i % 64))) v,
          refl,
          contains-update bs i (λ c. bit_and c (2 ^ 64 - 1 - 2 ^ (i % 64))) false v h
              (λ c k g. and_bit (i % 64) c k (omega arith) g),
        )
]

pub and_pow_test : (k a : ℕ) → (bit_and a (2 ^ k) == 0) ≡ not (test_bit a k == 1)
and_pow_test k a = elim (Bool-cases (test_bit a k == 1)) [
  | inl p ↦
      let e : test_bit a k ≡ 1 = ground arith in
      let m : bit_and a (2 ^ k) ≡ 2 ^ k = rw (bit_and-pow' k a, e) (omega arith) in
      ground (arith, m, one-le-pow k)
  | inr p ↦
      let e : test_bit a k ≡ 0 = ground (arith, test_bit-le-one k a) in
      let m : bit_and a (2 ^ k) ≡ 0 = rw (bit_and-pow' k a, e) (omega arith) in ground (arith, m)
]

-- `bitset_get` exits exactly out of range, and otherwise returns whether the index is a member.
pub bitset_get_lem :
    (bs : BitSet) (i : ℕ)
    → bitset_get bs i ≡ (if leb bs.capacity i then none else some (contains bs i))
unfolding bitset_get contains
bitset_get_lem bs i = ground (arith, and_pow_test (i % 64) (get_or bs.chunks (i / 64) 0))

-- A new set is valid and empty, if its capacity rounded up to chunks is a number of 32 bits.
pub bitset_new_lem :
    (capacity : ℕ)
    → capacity + 63 < 2 ^ 32
    → IsValid (bitset_new capacity) × ((i : ℕ) → contains (bitset_new capacity) i ≡ false)
unfolding bitset_new contains
bitset_new_lem capacity h = (
  record { chunk_count = length-replicate ((capacity + 63) % 2 ^ 32 / 64) 0; covers = omega arith },
  λ i. rw get_or-replicate (ground (arith, test_bit-zero (i % 64))),
)

-- A reset empties a valid set, and keeps it valid and its capacity as it was.
pub bitset_reset_lem :
    (bs : BitSet)
    → IsValid bs
    → IsValid (bitset_reset bs)
      × ((bitset_reset bs).capacity ≡ bs.capacity)
      × ((i : ℕ) → contains (bitset_reset bs) i ≡ false)
unfolding bitset_reset contains
bitset_reset_lem bs v = (
  record { chunk_count = length-replicate bs.nchunks 0; covers = v.covers },
  refl,
  λ i. rw get_or-replicate (ground (arith, test_bit-zero (i % 64))),
)
