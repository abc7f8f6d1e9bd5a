-- ===== src/BitSet/Tests.antt =====
-- Runs of bitset.c and instances of its theorems.
use rrrr.Prelude.{ℕ, ◌≡◌, refl, true, false, none, some, [], ◌∷◌, arith}
use rrrr.BitSet.{
  BitSet, bitset_new, bitset_set, spin, scan, bitset_next_set_bit, elements_from, elements,
  bitset_enumerate, bitset_unset, bitset_get,
}
use rrrr.BitSet.Laws.{
  IsValid, Assigns, contains, bitset_set-Assigns, bitset_unset-Assigns, bitset_get_lem,
}
use rrrr.Prelude.Bits.{test_bit}
use rrrr.BitSet.Scan.{IsNext, bitset_next_set_bit-IsNext}
use rrrr.BitSet.Elements.{members, elements-members}

-- The numbers 3 and 70 below 130.
abbrev two : BitSet
two = record { capacity = 130; chunks = 8 ∷ 64 ∷ 0 ∷ []; nchunks = 3 }

build_two_run :
    elim (bitset_set (bitset_new 130) 3) [ none ↦ none | some b ↦ bitset_set b 70 ] ≡ some two
unfolding bitset_set bitset_new
build_two_run = refl

visit_run : elements two (λ _. 0) ≡ some (3 ∷ 70 ∷ [])
unfolding elements elements_from bitset_next_set_bit scan spin
visit_run = refl

total_run : bitset_enumerate two (λ _. 0) ≡ some 73
unfolding bitset_enumerate elements elements_from bitset_next_set_bit scan spin
total_run = refl

two-IsValid : IsValid two
two-IsValid = record { chunk_count = refl; covers = omega arith }

bitset_set-Assigns_example : Assigns two 9 true (bitset_set two 9)
bitset_set-Assigns_example = bitset_set-Assigns two 9 two-IsValid

bitset_unset-Assigns_example : Assigns two 70 false (bitset_unset two 70)
bitset_unset-Assigns_example = bitset_unset-Assigns two 70 two-IsValid

bitset_get_example : bitset_get two 70 ≡ some true
unfolding contains test_bit
bitset_get_example = bitset_get_lem two 70

bitset_next_set_bit-IsNext_example :
    (r : ℕ) × (bitset_next_set_bit two (λ _. 0) 4 ≡ some r) × IsNext two 4 r
bitset_next_set_bit-IsNext_example =
    bitset_next_set_bit-IsNext two (λ _. 0) 4 two-IsValid (omega arith)

elements-members_example : elements two (λ _. 0) ≡ some (members two 130 0)
elements-members_example = elements-members two (λ _. 0) two-IsValid (omega arith)
