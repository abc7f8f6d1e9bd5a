-- ===== src/Polyline/Decode.antt =====
-- A reader of polyline text, from the description of the format: the independent half of the round
-- trip of polyline.c.
use rrrr.Prelude.{
  ℕ, zero, suc, ◌+◌, ◌-◌, ◌*◌, ◌/◌, ◌%◌, ◌^◌, List, [], ◌∷◌, ltb, ◌==◌, if◌then◌else◌,
}

-- The bits that the text begins with, and the rest of the text: chunks from the lowest on, the last
-- of them with a character below 95.
abbrev pub decode_bits : List ℕ → ℕ × List ℕ
decode_bits [] = (0, [])
decode_bits (c ∷ cs) =
    let (value, rest) = decode_bits cs in
    if ltb c 95 then (c - 63, cs) else (c - 95 + 32 * value, rest)

-- The sign is the lowest bit; the number is read in two's complement.
abbrev pub unsigned : ℕ → ℕ
unsigned bits = if bits % 2 == 0 then bits / 2 else 2 ^ 32 - 1 - bits / 2

abbrev pub decode_double : List ℕ → ℕ × List ℕ
decode_double text = let (bits, rest) = decode_bits text in (unsigned bits, rest)

-- `n` pairs of numbers.
unfoldable pub decode_points : ℕ → List ℕ → List (ℕ × ℕ)
decode_points zero text = []
decode_points (suc n) text =
    let (lat, text1) = decode_double text in
    let (lon, text2) = decode_double text1 in (lat, lon) ∷ decode_points n text2
