-- ===== src/Qstring.antt =====
-- qstring.c: query strings, one pair of a key and a value at a time.
--
-- A character is a number below 256; a string is the list of those before its '\0'. `isdigit` and
-- `tolower` are those of ASCII.
pub mod Decode
pub mod Pairs
mod Tests
use rrrr.Prelude.{
  ℕ, zero, suc, ◌+◌, ◌-◌, ◌*◌, ◌%◌, ◌^◌, Bool, true, false, Option, none, some, List, [], ◌∷◌, ◌++◌,
  leb, ◌==◌, ◌&&◌, if◌then◌else◌, bit_or, length, get_or, take, drop, map_option,
}

abbrev pub isdigit : ℕ → Bool
isdigit ch = leb 48 ch && leb ch 57

abbrev pub tolower : ℕ → ℕ
tolower ch = if leb 65 ch && leb ch 90 then ch + 32 else ch

-- In an unsigned char.
abbrev pub from_hex : ℕ → ℕ
from_hex ch = if isdigit ch then ch - 48 else (tolower ch + 256 - 97 + 10) % 256

abbrev pub from_two_hex : ℕ → ℕ → ℕ
from_two_hex hi lo = bit_or (from_hex hi * 2 ^ 4) (from_hex lo) % 256

-- The loop of `url_decode` from `in` on, with `out` characters written over the text. A '%' without
-- two characters after it writes nothing, so what the text had there stays.
unfoldable pub decode_from : List ℕ → List ℕ → ℕ → List ℕ
decode_from text [] out = []
decode_from text (c ∷ []) out =
    (if c == 43 then 32 else if c == 37 then get_or text out 0 else c) ∷ []
decode_from text (c ∷ a ∷ []) out =
    (if c == 43 then 32 else if c == 37 then get_or text out 0 else c)
    ∷ decode_from text (a ∷ []) (out + 1)
decode_from text (c ∷ a ∷ b ∷ cs) out =
    let after_hex = decode_from text cs (out + 1) in
    let after_char = decode_from text (a ∷ b ∷ cs) (out + 1) in
    if c == 37 then from_two_hex a b ∷ after_hex else (if c == 43 then 32 else c) ∷ after_char

unfoldable pub url_decode : List ℕ → List ℕ
url_decode text = decode_from text text 0

-- The buffer, with a 0 for each '\0' before the last one, the index that `*vbuf` points at, and the
-- rest of the query.
pub record Pair : Type 0 where
  pub buf : List ℕ
  pub vbuf : ℕ
  pub rest : List ℕ

-- The loop of `qstring_next_pair`; `eob` is the index of the last character of the buffer.
unfoldable pub read_pair : ℕ → List ℕ → List ℕ → ℕ → Pair
read_pair eob [] buf vbuf = record { buf = buf; vbuf = vbuf; rest = [] }
read_pair eob (c ∷ q) buf vbuf =
    let next =
      read_pair eob q (if c == 61 then buf ++ (0 ∷ []) else buf ++ (c ∷ []))
        (if c == 61 then length buf + 1 else vbuf) in
    if leb eob (length buf)
    then record { buf = buf; vbuf = vbuf; rest = c ∷ q }
    else if c == 38
    then record { buf = buf; vbuf = vbuf; rest = q }
    else next

-- `url_decode(buf)` at the end of the buffer changes nothing; the value is decoded where it stands.
abbrev pub decode_value : Pair → Pair
decode_value p =
    if p.vbuf == length p.buf
    then p
    else record p { buf = take p.vbuf p.buf ++ url_decode (drop p.vbuf p.buf) }

-- The next pair of the query `q`, if there is one.
unfoldable pub qstring_next_pair : ℕ → List ℕ → Option Pair
qstring_next_pair buflen [] = none
qstring_next_pair buflen (c ∷ q) = some (decode_value (read_pair (buflen - 1) (c ∷ q) [] 0))

-- The pairs of a query, one call after the other, on fuel.
unfoldable pub qstring_pairs : ℕ → ℕ → List ℕ → Option (List Pair)
qstring_pairs zero buflen q = none
qstring_pairs (suc fuel) buflen q = elim (qstring_next_pair buflen q) [
  | none ↦ some []
  | some pair ↦ map_option (λ pairs. pair ∷ pairs) (qstring_pairs fuel buflen pair.rest)
]
