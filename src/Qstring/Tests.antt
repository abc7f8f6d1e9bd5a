-- ===== src/Qstring/Tests.antt =====
-- Queries, and instances of the theorems about them.
use rrrr.Prelude.{ℕ, ◌<◌, ◌≡◌, refl, Bool, true, some, List, [], ◌∷◌, ◌++◌, arith, leb, ◌&&◌, All}
use rrrr.Qstring.{Pair, decode_from, url_decode, read_pair, qstring_next_pair, qstring_pairs}
use rrrr.Qstring.Decode.{url_encode, url_decode-url_encode}
use rrrr.Qstring.Pairs.{IsWithin, IsPlain, qstring_pairs-IsWithin, qstring_next_pair-url_encode}

-- A '%' at the end, after a '%41': it keeps the character that the text had at the place where the
-- result stands.
stale : url_decode (37 ∷ 52 ∷ 49 ∷ 37 ∷ []) ≡ 65 ∷ 52 ∷ []
unfolding url_decode decode_from
stale = refl

-- "%61=%61": the key is not decoded.
undecoded_key :
    qstring_next_pair 255 (37 ∷ 54 ∷ 49 ∷ 61 ∷ 37 ∷ 54 ∷ 49 ∷ [])
    ≡ some (record { buf = 37 ∷ 54 ∷ 49 ∷ 0 ∷ 97 ∷ []; vbuf = 4; rest = [] })
unfolding qstring_next_pair read_pair url_decode decode_from
undecoded_key = refl

-- "to" and "a b+"
abbrev to : List ℕ
to = 116 ∷ 111 ∷ []

abbrev place : List ℕ
place = 97 ∷ 32 ∷ 98 ∷ 43 ∷ []

abbrev letters : ℕ → Bool
letters c = leb 97 c && leb c 122

place-All : All (λ c. c < 256) place
place-All = (omega arith, (omega arith, (omega arith, (omega arith, tt))))

letters-IsPlain : (c : ℕ) → letters c ≡ true → IsPlain c
letters-IsPlain c e = ((λ q. absurd (ground arith)), (λ q. absurd (ground arith)))

url_decode-url_encode_example : url_decode (url_encode letters true place) ≡ place
url_decode-url_encode_example = url_decode-url_encode letters true place place-All

qstring_pairs-IsWithin_example :
    (pairs : List Pair) × (qstring_pairs 4 2 (97 ∷ 61 ∷ 38 ∷ []) ≡ some pairs)
    × All (IsWithin 2) pairs
qstring_pairs-IsWithin_example = qstring_pairs-IsWithin 2 (97 ∷ 61 ∷ 38 ∷ []) (omega arith)

qstring_next_pair-url_encode_example :
    qstring_next_pair 255 (to ++ (61 ∷ (url_encode letters true place ++ (38 ∷ to))))
    ≡ some (record { buf = (to ++ (0 ∷ [])) ++ place; vbuf = 3; rest = to })
qstring_next_pair-url_encode_example =
    qstring_next_pair-url_encode letters true letters-IsPlain 255 to place to
      (
        ((λ q. absurd (omega arith)), (λ q. absurd (omega arith))),
        (((λ q. absurd (omega arith)), (λ q. absurd (omega arith))), tt),
      )
      place-All (omega arith)
