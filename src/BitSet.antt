-- ===== src/BitSet.antt =====
-- bitset.c: a set of the numbers below `capacity`, 64 to a chunk.
-- `exit(1)` of `index_check` is `none`.
pub mod Laws
pub mod Scan
pub mod Elements
mod Tests
use rrrr.Prelude.{
  ℕ, zero, suc, ◌+◌, ◌-◌, ◌*◌, ◌/◌, ◌%◌, ◌^◌, bit_and, bit_or, Bool, true, false, Option, none,
  some, List, [], ◌∷◌, map_option, ltb, leb, ◌==◌, if◌then◌else◌, get_or, set, replicate, not,
}

pub record BitSet : Type 0 where
  pub capacity : ℕ
  pub chunks : List ℕ
  pub nchunks : ℕ

-- BITSET_NONE, which is UINT32_MAX
abbrev pub bitset_none : ℕ
bitset_none = 2 ^ 32 - 1

-- `bitset_new` with `bitset_init`: the chunks come zeroed from `calloc`.
unfoldable pub bitset_new : ℕ → BitSet
bitset_new capacity =
    let nchunks = (capacity + 63) % 2 ^ 32 / 64 in
    record { capacity = capacity; nchunks = nchunks; chunks = replicate nchunks 0 }

pub index_check : BitSet → ℕ → Option (Unit {0})
index_check self index = if leb self.capacity index then none else some tt

pub bitset_reset : BitSet → BitSet
bitset_reset self = record self { chunks = replicate self.nchunks 0 }

-- `chunks[index / 64] = f(chunks[index / 64])`
abbrev pub update_chunk : BitSet → ℕ → (ℕ → ℕ) → BitSet
update_chunk self index f = record self {
  chunks = set self.chunks (index / 64) (f (get_or self.chunks (index / 64) 0));
}

pub bitset_set : BitSet → ℕ → Option BitSet
unfolding index_check
bitset_set self index = elim (index_check self index) [
  | none ↦ none
  | some _ ↦ some (update_chunk self index (λ c. bit_or c (2 ^ (index % 64))))
]

pub bitset_unset : BitSet → ℕ → Option BitSet
unfolding index_check
bitset_unset self index = elim (index_check self index) [
  | none ↦ none
  | some _ ↦ some (update_chunk self index (λ c. bit_and c (2 ^ 64 - 1 - 2 ^ (index % 64))))
]

pub bitset_get : BitSet → ℕ → Option Bool
unfolding index_check
bitset_get self index = elim (index_check self index) [
  | none ↦ none
  | some _ ↦ some (not (bit_and (get_or self.chunks (index / 64) 0) (2 ^ (index % 64)) == 0))
]

-- A pointer into the chunks is an index. `past` is what lies in memory behind the array: the scan
-- reads one chunk there when the capacity is a multiple of 64.
abbrev pub load : BitSet → (ℕ → ℕ) → ℕ → ℕ
load bs past chunk = if ltb chunk bs.nchunks then get_or bs.chunks chunk 0 else past chunk

-- The `while ( ! *chunk )` loop. `none` stands for the `return BITSET_NONE` inside it, the outer
-- one for a lack of fuel.
pub spin : BitSet → (ℕ → ℕ) → ℕ → ℕ → ℕ → Option (Option (ℕ × ℕ))
spin bs past zero chunk index = none
spin bs past (suc fuel) chunk index =
    let rest = spin bs past fuel (chunk + 1) ((index + 64) % 2 ^ 32) in
    if load bs past chunk == 0
    then (if leb bs.capacity ((index + 64) % 2 ^ 32) then some none else rest)
    else some (some (chunk, index))

-- The `while (index < bs->capacity)` loop.
pub scan : BitSet → (ℕ → ℕ) → ℕ → ℕ → ℕ → ℕ → Option ℕ
scan bs past zero chunk mask index = none
scan bs past (suc fuel) chunk mask index =
    let mask' = mask * 2 % 2 ^ 64 in
    let index' = (index + 1) % 2 ^ 32 in
    let same_chunk = scan bs past fuel chunk mask' index' in
    let next_chunk : Option ℕ = elim (spin bs past fuel (chunk + 1) index') [
      | none ↦ none
      | some none ↦ some bitset_none
      | some (some (c, i)) ↦ scan bs past fuel c 1 i
    ] in
    if ltb index bs.capacity
    then (if bit_and mask (load bs past chunk) == 0
        then (if mask' == 0 then next_chunk else same_chunk)
        else some index)
    else some bitset_none

-- `index >> 6` and `index & 0x3F` are written as a quotient and a remainder. Each round of either
-- loop adds to `index`, and neither goes on once it has reached `capacity`.
pub bitset_next_set_bit : BitSet → (ℕ → ℕ) → ℕ → Option ℕ
bitset_next_set_bit bs past index =
    scan bs past (bs.capacity + 2) (index / 64) (2 ^ (index % 64)) index

-- The loop `for (e = next(0); e != BITSET_NONE; e = next(e + 1))` of `bitset_enumerate`,
-- `apply_transfers` and `router_round`, as the list of the elements that it visits. No body of it
-- changes the set that it goes through.
pub elements_from : BitSet → (ℕ → ℕ) → ℕ → ℕ → Option (List ℕ)
elements_from bs past zero index = none
elements_from bs past (suc fuel) index = elim (bitset_next_set_bit bs past index) [
  | none ↦ none
  | some elem ↦
      let rest = elements_from bs past fuel ((elem + 1) % 2 ^ 32) in
      if elem == bitset_none then some [] else map_option (λ es. elem ∷ es) rest
]

pub elements : BitSet → (ℕ → ℕ) → Option (List ℕ)
elements bs past = elements_from bs past (bs.capacity + 1) 0

abbrev sum_from : ℕ → List ℕ → ℕ
sum_from total [] = total
sum_from total (e ∷ es) = sum_from ((total + e) % 2 ^ 32) es

-- The sum of the elements, in a uint32_t.
pub bitset_enumerate : BitSet → (ℕ → ℕ) → Option ℕ
bitset_enumerate bs past = map_option (sum_from 0) (elements bs past)
