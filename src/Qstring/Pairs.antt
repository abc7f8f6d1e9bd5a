-- ===== src/Qstring/Pairs.antt =====
-- `qstring_next_pair`: what it keeps of its buffer, that a query ends, and that a pair is read back.
use rrrr.Prelude.{
  append_assoc, append_nil, ℕ, zero, suc, ◌+◌, ◌-◌, ◌/◌, ◌%◌, ◌<◌, ◌≤◌, ◌≡◌, ◌≢◌, ◌∙◌, ◌⊎◌, refl,
  sym, ap, Bool, true, false, Option, none, some, List, [], ◌∷◌, ◌++◌, arith, ltb, leb, ◌==◌, ◌&&◌,
  ◌||◌, not, if◌then◌else◌, length, length-append, take, drop, map_option, All, Bool-cases, inl,
  inr,
}
use rrrr.Prelude.Effects.{Ensures, Ensures-some}
use rrrr.Qstring.{
  Pair, decode_from, url_decode, read_pair, decode_value, qstring_next_pair, qstring_pairs,
}
use rrrr.Qstring.Decode.{length-url_decode, hex, url_encode, url_decode-url_encode}

-- The buffer holds the pair with its last '\0', the value starts within it, and the query that is
-- left is at most so long.
abbrev IsPair : ℕ → ℕ → Pair → Type 0
IsPair eob long p = (length p.buf ≤ eob) × (p.vbuf ≤ length p.buf) × (length p.rest ≤ long)

IsPair-if :
    (b : Bool) (eob long : ℕ) (p q : Pair)
    → (b ≡ true → IsPair eob long p)
    → (b ≡ false → IsPair eob long q)
    → IsPair eob long (if b then p else q)
IsPair-if true eob long p q f g = f refl
IsPair-if false eob long p q f g = g refl

read_pair-IsPair :
    (eob : ℕ) (q buf : List ℕ) (vbuf : ℕ)
    → length buf ≤ eob
    → vbuf ≤ length buf
    → IsPair eob (length q) (read_pair eob q buf vbuf)
unfolding read_pair
read_pair-IsPair eob [] buf vbuf le v = (le, v, omega arith)
read_pair-IsPair eob (c ∷ q) buf vbuf le v =
    let buf' = if c == 61 then buf ++ (0 ∷ []) else buf ++ (c ∷ []) in
    let vbuf' = if c == 61 then length buf + 1 else vbuf in
    let p = read_pair eob q buf' vbuf' in
    IsPair-if (leb eob (length buf)) eob (length (c ∷ q)) _ _ (λ full. (le, v, omega arith))
      λ room.
        IsPair-if (c == 38) eob (length (c ∷ q)) _ p (λ end. (le, v, omega arith))
          λ _.
            let one : length buf' ≡ length buf + 1 = grown (Bool-cases (c == 61)) in
            let (a, b, d) =
              read_pair-IsPair eob q buf' vbuf' (ground (arith, one)) (ground (arith, one)) in
            (a, b, omega arith)
  where
    grown :
        ((c == 61) ≡ true) ⊎ ((c == 61) ≡ false)
        → length (if c == 61 then buf ++ (0 ∷ []) else buf ++ (c ∷ [])) ≡ length buf + 1
    grown (inl e) = rw e (length-append buf (0 ∷ []))
    grown (inr e) = rw e (length-append buf (c ∷ []))

length-take-drop : (n : ℕ) (xs : List ℕ) → length (take n xs) + length (drop n xs) ≡ length xs
length-take-drop zero xs = omega arith
length-take-drop (suc n) [] = refl
length-take-drop (suc n) (x ∷ xs) = omega (arith, length-take-drop n xs)

length-take : (n : ℕ) (xs : List ℕ) → n ≤ length xs → length (take n xs) ≡ n
length-take zero xs le = refl
length-take (suc n) [] le = absurd (omega arith)
length-take (suc n) (x ∷ xs) le = ap suc (length-take n xs (omega arith))

decode_value-IsPair :
    (eob long : ℕ) (p : Pair) → IsPair eob long p → IsPair eob long (decode_value p)
decode_value-IsPair eob long p (le, v, d) =
    IsPair-if (p.vbuf == length p.buf) eob long p _ (λ _. (le, v, d))
      λ _.
        let value = drop p.vbuf p.buf in
        let whole = length-append (take p.vbuf p.buf) (url_decode value) in
        (
          omega (arith, whole, length-url_decode value, length-take-drop p.vbuf p.buf),
          omega (arith, whole, length-take p.vbuf p.buf v),
          d,
        )

next-IsPair :
    (buflen c : ℕ) (q : List ℕ)
    → 2 ≤ buflen
    → IsPair (buflen - 1) (length q) (decode_value (read_pair (buflen - 1) (c ∷ q) [] 0))
unfolding read_pair
next-IsPair buflen c q room =
    let e : leb (buflen - 1) 0 ≡ false = ground arith in
    decode_value-IsPair (buflen - 1) (length q) (read_pair (buflen - 1) (c ∷ q) [] 0) (
      rw e (
        IsPair-if (c == 38) (buflen - 1) (length q) _ _
          (λ _. (omega arith, omega arith, omega arith))
          λ _.
            read_pair-IsPair (buflen - 1) q (if c == 61 then 0 ∷ [] else c ∷ [])
              (if c == 61 then 1 else 0) (one (Bool-cases (c == 61))).0
              (one (Bool-cases (c == 61))).1))
  where
    one :
        ((c == 61) ≡ true) ⊎ ((c == 61) ≡ false)
        → (length (if c == 61 then 0 ∷ [] else c ∷ []) ≤ buflen - 1)
          × ((if c == 61 then 1 else 0) ≤ length (if c == 61 then 0 ∷ [] else c ∷ []))
    one (inl e) = rw e (omega arith, omega arith)
    one (inr e) = rw e (omega arith, omega arith)

-- The pair and its last '\0' are within the buffer, and so is the value.
abbrev pub IsWithin : ℕ → Pair → Type 0
IsWithin buflen p = (length p.buf + 1 ≤ buflen) × (p.vbuf ≤ length p.buf)

pairs-Within :
    (fuel buflen : ℕ) (q : List ℕ)
    → 2 ≤ buflen
    → length q < fuel
    → Ensures (All (IsWithin buflen)) (qstring_pairs fuel buflen q)
unfolding qstring_pairs qstring_next_pair
pairs-Within zero buflen q room enough = absurd (omega arith)
pairs-Within (suc fuel) buflen [] room enough = tt
pairs-Within (suc fuel) buflen (c ∷ q) room enough =
    let p = decode_value (read_pair (buflen - 1) (c ∷ q) [] 0) in
    let (le, v, d) = next-IsPair buflen c q room in
    add p (qstring_pairs fuel buflen p.rest) (omega arith, v)
      (pairs-Within fuel buflen p.rest room (omega arith))
  where
    add :
        (p : Pair) (o : Option (List Pair))
        → IsWithin buflen p
        → Ensures (All (IsWithin buflen)) o
        → Ensures (All (IsWithin buflen)) (map_option (λ pairs. p ∷ pairs) o)
    add p none w h = absurd h
    add p (some ps) w h = (w, h)

-- With a buffer of at least two characters, the calls for the pairs of a query come to their end,
-- within one more than the query has characters, and every pair lies within the buffer.
pub qstring_pairs-IsWithin :
    (buflen : ℕ) (q : List ℕ)
    → 2 ≤ buflen
    → (pairs : List Pair) × (qstring_pairs (length q + 1) buflen q ≡ some pairs)
      × All (IsWithin buflen) pairs
qstring_pairs-IsWithin buflen q room =
    Ensures-some (All (IsWithin buflen)) _ (pairs-Within (length q + 1) buflen q room (omega arith))

-- A character that neither ends a key nor a value.
abbrev pub IsPlain : ℕ → Type 0
IsPlain c = (c ≢ 61) × (c ≢ 38)

-- Plain characters are copied.
read_pair-plain :
    (eob : ℕ) (word tail buf : List ℕ) (vbuf : ℕ)
    → All IsPlain word
    → length buf + length word ≤ eob
    → read_pair eob (word ++ tail) buf vbuf ≡ read_pair eob tail (buf ++ word) vbuf
unfolding read_pair
read_pair-plain eob [] tail buf vbuf plain room =
    ap (λ b. read_pair eob tail b vbuf) (sym (append_nil buf))
read_pair-plain eob (c ∷ word) tail buf vbuf ((no_eq, no_amp), plain) room =
    let e : leb eob (length buf) ≡ false = ground arith in
    let a : (c == 38) ≡ false = ground arith in
    let b : (c == 61) ≡ false = ground arith in
    rw (e, a, b)
      (read_pair-plain eob word tail (buf ++ (c ∷ [])) vbuf plain
          (omega (arith, length-append buf (c ∷ [])))
        ∙ ap (λ x. read_pair eob tail x vbuf) (append_assoc buf (c ∷ []) word))

take-append : (xs ys : List ℕ) → take (length xs) (xs ++ ys) ≡ xs
take-append [] ys = refl
take-append (x ∷ xs) ys = ap (λ t. x ∷ t) (take-append xs ys)

pub drop-append : (xs ys : List ℕ) → drop (length xs) (xs ++ ys) ≡ ys
drop-append [] ys = refl
drop-append (x ∷ xs) ys = drop-append xs ys

-- The value after a key is decoded in its place.
decode_value-append :
    (key value rest : List ℕ)
    → decode_value (record { buf = key ++ value; vbuf = length key; rest = rest })
      ≡ record { buf = key ++ url_decode value; vbuf = length key; rest = rest }
unfolding url_decode decode_from
decode_value-append key [] rest =
    let e : (length key == length (key ++ [])) ≡ true = ground (arith, length-append key []) in
    rw e refl
decode_value-append key (c ∷ cs) rest =
    let e : (length key == length (key ++ (c ∷ cs))) ≡ false =
      ground (arith, length-append key (c ∷ cs)) in
    rw (e, take-append key (c ∷ cs), drop-append key (c ∷ cs)) refl

read_pair-pair :
    (eob : ℕ) (key value rest : List ℕ)
    → All IsPlain key
    → All IsPlain value
    → length key + 1 + length value < eob
    → read_pair eob (key ++ (61 ∷ (value ++ (38 ∷ rest)))) [] 0
      ≡ record { buf = (key ++ (0 ∷ [])) ++ value; vbuf = length (key ++ (0 ∷ [])); rest = rest }
unfolding read_pair
read_pair-pair eob key value rest plain_key plain_value room =
    let start = key ++ (0 ∷ []) in
    let one = length-append key (0 ∷ []) in
    let at_eq : leb eob (length key) ≡ false = ground arith in
    let at_amp : leb eob (length (start ++ value)) ≡ false =
      ground (arith, one, length-append start value) in
    read_pair-plain eob key (61 ∷ (value ++ (38 ∷ rest))) [] 0 plain_key (omega arith)
    ∙ rw at_eq refl
    ∙ read_pair-plain eob value (38 ∷ rest) start (length key + 1) plain_value (omega (arith, one))
    ∙ rw at_amp (ap (λ v. record { buf = start ++ value; vbuf = v; rest = rest }) (sym one))

module _ (keeps : ℕ → Bool) (upper : Bool) (kept_plain : (c : ℕ) → keeps c ≡ true → IsPlain c) where
  hex-IsPlain : (d : ℕ) → IsPlain (hex upper d)
  hex-IsPlain d = elim (Bool-cases (ltb d 10)) [
    | inl e ↦ rw e ((λ q. absurd (ground arith)), (λ q. absurd (ground arith)))
    | inr e ↦ rw e (letter upper (ground arith))
  ]
    where
      letter :
          (u : Bool)
          → 10 ≤ d
          → ((if u then d + 55 else d + 87) ≢ 61) × ((if u then d + 55 else d + 87) ≢ 38)
      letter true le = ((λ q. absurd (omega arith)), (λ q. absurd (omega arith)))
      letter false le = ((λ q. absurd (omega arith)), (λ q. absurd (omega arith)))

  url_encode-IsPlain :
      (text : List ℕ) → All (λ c. c < 256) text → All IsPlain (url_encode keeps upper text)
  url_encode-IsPlain [] all = tt
  url_encode-IsPlain (c ∷ cs) (small, all) =
      let rest = url_encode-IsPlain cs all in
      elim (Bool-cases (c == 32)) [
        | inl e ↦ rw e (((λ q. absurd (omega arith)), (λ q. absurd (omega arith))), rest)
        | inr e ↦ elim (Bool-cases (keeps c && not (c == 37 || c == 43))) [
          | inl kept ↦ rw (e, kept) (kept_plain c (ground arith), rest)
          | inr coded ↦
              rw (e, coded)
                (
                  ((λ q. absurd (omega arith)), (λ q. absurd (omega arith))),
                  (hex-IsPlain (c / 16), (hex-IsPlain (c % 16), rest)),
                )
        ]
      ]

  -- A key without '=' and '&', and a value in any encoding that has neither, followed by '&' and
  -- the rest of a query: if they fit into the buffer, `qstring_next_pair` returns the key, the
  -- value decoded, and the rest.
  pub qstring_next_pair-url_encode :
      (buflen : ℕ) (key value rest : List ℕ)
      → All IsPlain key
      → All (λ c. c < 256) value
      → length key + length (url_encode keeps upper value) + 2 < buflen
      → qstring_next_pair buflen (key ++ (61 ∷ (url_encode keeps upper value ++ (38 ∷ rest))))
        ≡ some (record {
          buf = (key ++ (0 ∷ [])) ++ value;
          vbuf = length (key ++ (0 ∷ []));
          rest = rest;
        })
  unfolding qstring_next_pair
  qstring_next_pair-url_encode buflen key value rest plain all room =
      let text = url_encode keeps upper value in
      begun key (text ++ (38 ∷ rest))
      ∙ ap some (
          ap decode_value (
            read_pair-pair (buflen - 1) key text rest plain (url_encode-IsPlain value all)
              (omega arith))
          ∙ decode_value-append (key ++ (0 ∷ [])) text rest
          ∙ ap
              (λ v. record {
                buf = (key ++ (0 ∷ [])) ++ v;
                vbuf = length (key ++ (0 ∷ []));
                rest = rest;
              })
              (url_decode-url_encode keeps upper value all))
    where
      begun :
          (xs ys : List ℕ)
          → qstring_next_pair buflen (xs ++ (61 ∷ ys))
            ≡ some (decode_value (read_pair (buflen - 1) (xs ++ (61 ∷ ys)) [] 0))
      begun [] ys = refl
      begun (x ∷ xs) ys = refl
