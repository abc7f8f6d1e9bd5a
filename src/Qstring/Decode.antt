-- ===== src/Qstring/Decode.antt =====
-- `url_decode`: its length, and that it undoes any encoding of the format.
use rrrr.Prelude.{
  ℕ, ◌+◌, ◌*◌, ◌/◌, ◌%◌, ◌<◌, ◌≤◌, ◌≡◌, ◌∙◌, refl, sym, ap, Bool, true, false, List, [], ◌∷◌, ◌++◌,
  arith, ltb, ◌==◌, ◌&&◌, ◌||◌, not, if◌then◌else◌, bit_or, length, All, Bool-cases, ==_iff, inl,
  inr,
}
use rrrr.Prelude.Bits.{bit_or_step}
use rrrr.Qstring.{from_hex, from_two_hex, decode_from, url_decode}

length-decode_from : (text cs : List ℕ) (out : ℕ) → length (decode_from text cs out) ≤ length cs
unfolding decode_from
length-decode_from text [] out = omega arith
length-decode_from text (c ∷ []) out = omega arith
length-decode_from text (c ∷ a ∷ []) out = omega arith
length-decode_from text (c ∷ a ∷ b ∷ cs) out = elim (Bool-cases (c == 37)) [
  | inl e ↦ rw (e, length) (omega (arith, length-decode_from text cs (out + 1)))
  | inr e ↦ rw (e, length) (omega (arith, length-decode_from text (a ∷ b ∷ cs) (out + 1)))
]

-- The result of `url_decode` is never longer than its input.
pub length-url_decode : (text : List ℕ) → length (url_decode text) ≤ length text
unfolding url_decode
length-url_decode text = length-decode_from text text 0

-- A hexadecimal digit, in upper case or in lower case.
abbrev pub hex : Bool → ℕ → ℕ
hex upper d = if ltb d 10 then d + 48 else if upper then d + 55 else d + 87

from_hex-hex : (upper : Bool) (d : ℕ) → d < 16 → from_hex (hex upper d) ≡ d
from_hex-hex true d lt = ground arith
from_hex-hex false d lt = ground arith

bit_or-zero : (h : ℕ) → h < 16 → bit_or h 0 ≡ h
bit_or-zero h lt =
    let top : h / 2 / 2 / 2 / 2 ≡ 0 = omega arith in
    let z : bit_or (h / 2 / 2 / 2 / 2) 0 ≡ 0 = rw top refl in
    omega (
      arith,
      z,
      bit_or_step h 0,
      bit_or_step (h / 2) 0,
      bit_or_step (h / 2 / 2) 0,
      bit_or_step (h / 2 / 2 / 2) 0,
    )

bit_or-nibble : (h l : ℕ) → h < 16 → l < 16 → bit_or (h * 16) l ≡ h * 16 + l
bit_or-nibble h l lh ll =
    let top : l / 2 / 2 / 2 / 2 ≡ 0 = omega arith in
    let e0 : h * 16 / 2 ≡ h * 8 = omega arith in
    let e1 : h * 8 / 2 ≡ h * 4 = omega arith in
    let e2 : h * 4 / 2 ≡ h * 2 = omega arith in
    let e3 : h * 2 / 2 ≡ h = omega arith in
    let f1 : h * 16 % 2 ≡ 0 = omega arith in
    let f2 : h * 8 % 2 ≡ 0 = omega arith in
    let f3 : h * 4 % 2 ≡ 0 = omega arith in
    let f4 : h * 2 % 2 ≡ 0 = omega arith in
    let z : bit_or h (l / 2 / 2 / 2 / 2) ≡ h = rw top (bit_or-zero h lh) in
    let s1 : bit_or (h * 16) l ≡ bit_or (h * 8) (l / 2) * 2 + l % 2 =
      bit_or_step (h * 16) l ∙ rw (e0, f1) (omega arith) in
    let s2 : bit_or (h * 8) (l / 2) ≡ bit_or (h * 4) (l / 2 / 2) * 2 + l / 2 % 2 =
      bit_or_step (h * 8) (l / 2) ∙ rw (e1, f2) (omega arith) in
    let s3 : bit_or (h * 4) (l / 2 / 2) ≡ bit_or (h * 2) (l / 2 / 2 / 2) * 2 + l / 2 / 2 % 2 =
      bit_or_step (h * 4) (l / 2 / 2) ∙ rw (e2, f3) (omega arith) in
    let s4 : bit_or (h * 2) (l / 2 / 2 / 2) ≡ bit_or h (l / 2 / 2 / 2 / 2) * 2 + l / 2 / 2 / 2 % 2 =
      bit_or_step (h * 2) (l / 2 / 2 / 2) ∙ rw (e3, f4) (omega arith) in
    omega (arith, s1, s2, s3, s4, z)

decode_from-plain :
    (text : List ℕ) (c : ℕ) (cs : List ℕ) (out : ℕ)
    → (c == 37) ≡ false
    → decode_from text (c ∷ cs) out ≡ (if c == 43 then 32 else c) ∷ decode_from text cs (out + 1)
unfolding decode_from
decode_from-plain text c [] out e = rw e refl
decode_from-plain text c (a ∷ []) out e = rw e refl
decode_from-plain text c (a ∷ b ∷ cs) out e = rw e refl

from_two_hex-hex :
    (upper : Bool) (c : ℕ) → c < 256 → from_two_hex (hex upper (c / 16)) (hex upper (c % 16)) ≡ c
from_two_hex-hex upper c small =
    rw (from_hex-hex upper (c / 16) (omega arith), from_hex-hex upper (c % 16) (omega arith))
      (omega (arith, bit_or-nibble (c / 16) (c % 16) (omega arith) (omega arith)))

-- An encoder may keep any other character than '%' and '+' as it is, in either case of the digits.
module _ (keeps : ℕ → Bool) (upper : Bool) where
  abbrev pub encode_char : ℕ → List ℕ
  encode_char c =
      if c == 32
      then 43 ∷ []
      else if keeps c && not (c == 37 || c == 43)
      then c ∷ []
      else 37 ∷ hex upper (c / 16) ∷ hex upper (c % 16) ∷ []

  abbrev pub url_encode : List ℕ → List ℕ
  url_encode [] = []
  url_encode (c ∷ cs) = encode_char c ++ url_encode cs

  decode_from-url_encode :
      (text cs : List ℕ) (out : ℕ)
      → All (λ c. c < 256) cs
      → decode_from text (url_encode cs) out ≡ cs
  unfolding decode_from
  decode_from-url_encode text [] out all = refl
  decode_from-url_encode text (c ∷ cs) out (small, all) =
      let rest = decode_from-url_encode text cs (out + 1) all in
      elim (Bool-cases (c == 32)) [
        | inl e ↦ rw e (
            decode_from-plain text 43 (url_encode cs) out refl
            ∙ ap (λ t. 32 ∷ t) rest
            ∙ ap (λ x. x ∷ cs) (sym ((==_iff c 32).0 e)))
        | inr e ↦ elim (Bool-cases (keeps c && not (c == 37 || c == 43))) [
          | inl kept ↦
              let plain : (c == 37) ≡ false = ground arith in
              let no_plus : (if c == 43 then 32 else c) ≡ c = ground arith in
              rw (e, kept)
                (decode_from-plain text c (url_encode cs) out plain
                  ∙ ap (λ x. x ∷ decode_from text (url_encode cs) (out + 1)) no_plus
                  ∙ ap (λ t. c ∷ t) rest)
          | inr coded ↦
              rw (e, coded)
                (ap (λ x. x ∷ decode_from text (url_encode cs) (out + 1))
                    (from_two_hex-hex upper c small)
                  ∙ ap (λ t. c ∷ t) rest)
        ]
      ]

  -- Decoding undoes any encoding: one that writes a space as '+', keeps whichever other characters
  -- it likes but '%' and '+', and writes the others in hexadecimal, with digits of either case.
  pub url_decode-url_encode :
      (text : List ℕ) → All (λ c. c < 256) text → url_decode (url_encode text) ≡ text
  unfolding url_decode
  url_decode-url_encode text all = decode_from-url_encode (url_encode text) text 0 all
