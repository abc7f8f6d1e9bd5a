-- ===== src/Polyline/Tests.antt =====
-- The examples of the format's description, on numbers that are hundred-thousandths already, and
-- instances of the theorems about polylines.
use rrrr.Prelude.{
  ℕ, ◌+◌, ◌-◌, ◌%◌, ◌^◌, ◌<◌, ◌≡◌, refl, Bool, true, List, [], ◌∷◌, ◌++◌, arith, leb, length, inl,
  inr,
}
use rrrr.Polyline.{buflen, signed_bits, encode_bits, encode_double}
use rrrr.Polyline.Decode.{decode_double, decode_points}
use rrrr.Polyline.Laws.{decode_double-encode_double}
use rrrr.Polyline.Points.{
  deltas, numbers, built, polyline_points-length, decode_points-polyline_points,
}

abbrev fixed : ℕ → ℕ
fixed c = c

abbrev is_negative : ℕ → Bool
is_negative c = leb (2 ^ 31) c

abbrev minus : ℕ → ℕ → ℕ
minus a b = (a + 2 ^ 32 - b) % 2 ^ 32

-- 38.5
north : encode_double fixed is_negative 3850000 ≡ 95 ∷ 112 ∷ 126 ∷ 105 ∷ 70 ∷ []
unfolding encode_double
north = refl

-- -120.2
west : encode_double fixed is_negative (2 ^ 32 - 12020000) ≡ 126 ∷ 112 ∷ 115 ∷ 124 ∷ 85 ∷ []
unfolding encode_double
west = refl

-- A number below zero by less than one hundred-thousandth reads back as -5368.70912.
too_small : decode_double (encode_bits (signed_bits true 0)) ≡ (2 ^ 32 - 536870912, [])
too_small = refl

decode_double-encode_double_example :
    decode_double (encode_double fixed is_negative (2 ^ 32 - 12020000) ++ (63 ∷ []))
    ≡ (2 ^ 32 - 12020000, 63 ∷ [])
decode_double-encode_double_example =
    decode_double-encode_double fixed is_negative (2 ^ 32 - 12020000) (63 ∷ [])
      (inr (refl, omega arith, omega arith))

abbrev corners : List (ℕ × ℕ)
corners = (3850000, 2 ^ 32 - 12020000) ∷ (4070000, 2 ^ 32 - 12095000) ∷ []

polyline_points-length_example : length (built fixed is_negative 0 minus corners).buf + 1 < buflen
polyline_points-length_example = polyline_points-length fixed is_negative 0 minus corners

decode_points-polyline_points_example :
    ((built fixed is_negative 0 minus corners).n_points ≡ 2)
    × (decode_points 2 (built fixed is_negative 0 minus corners).buf
        ≡ numbers fixed is_negative 0 minus (deltas fixed is_negative 0 minus (0, 0) corners))
decode_points-polyline_points_example =
    decode_points-polyline_points fixed is_negative 0 minus corners (omega arith) (
      (inl (refl, omega arith), inr (refl, omega arith, omega arith)),
      ((inl (refl, omega arith), inr (refl, omega arith, omega arith)), tt),
    )
