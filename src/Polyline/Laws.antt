-- ===== src/Polyline/Laws.antt =====
-- What polyline.c writes for one number, and how it reads back.
use rrrr.Prelude.{
  ℕ, zero, suc, ◌+◌, ◌-◌, ◌*◌, ◌/◌, ◌%◌, ◌^◌, ◌<◌, ◌≤◌, ◌≡◌, ◌⊎◌, ◌∙◌, refl, sym, ap, subst, Bool,
  true, false, List, [], ◌∷◌, ◌++◌, arith, ◌==◌, ltb, bit_or, length, take, All, Bool-cases, ==_iff,
  inl, inr,
}
use rrrr.Prelude.Bits.{bit_or_step}
use rrrr.Polyline.{signed_bits, chunks, last_chunk, put_chunks, encode_bits, encode_double}
use rrrr.Polyline.Decode.{decode_bits, unsigned, decode_double}

bit_or-continued : (c : ℕ) → c < 32 → bit_or c 32 ≡ c + 32
bit_or-continued c lt =
    let top : c / 2 / 2 / 2 / 2 / 2 ≡ 0 = omega arith in
    let e : bit_or (c / 2 / 2 / 2 / 2 / 2) 1 ≡ 1 = rw top refl in
    omega (
      arith,
      e,
      bit_or_step c 32,
      bit_or_step (c / 2) 16,
      bit_or_step (c / 2 / 2) 8,
      bit_or_step (c / 2 / 2 / 2) 4,
      bit_or_step (c / 2 / 2 / 2 / 2) 2,
    )

-- The number that chunks make up, the lowest first.
abbrev chunks_value : List ℕ → ℕ
chunks_value [] = 0
chunks_value (c ∷ cs) = c + 32 * chunks_value cs

abbrev AreChunks : List ℕ → Type 0
AreChunks cs = All (λ c. c < 32) cs

decode_bits-put_chunks :
    (n : ℕ) (cs rest : List ℕ)
    → AreChunks cs
    → n < length cs
    → decode_bits (put_chunks n cs ++ rest) ≡ (chunks_value (take (suc n) cs), rest)
decode_bits-put_chunks n [] rest all lt = absurd (omega arith)
decode_bits-put_chunks zero (c ∷ cs) rest (small, all) lt =
    let e : ltb (c + 63) 95 ≡ true = ground arith in
    let e' : c + 63 - 63 ≡ c + 32 * 0 = omega arith in rw e (ap (λ v. (v, rest)) e')
decode_bits-put_chunks (suc n) (c ∷ cs) rest (small, all) lt =
    let e : ltb (bit_or c 32 + 63) 95 ≡ false = ground (arith, bit_or-continued c small) in
    let e' : bit_or c 32 + 63 - 95 ≡ c = omega (arith, bit_or-continued c small) in
    rw (e, e', decode_bits-put_chunks n cs rest all (omega arith)) refl

-- The last chunk is one of them, and those after it are zero.
last_chunk_lem :
    (cs : List ℕ) (i last : ℕ)
    → let r = last_chunk cs i last in
      ((r ≡ last) × (chunks_value cs ≡ 0))
      ⊎ ((n : ℕ) × (r ≡ i + n)
          × (n < length cs)
          × (chunks_value (take (suc n) cs) ≡ chunks_value cs))
last_chunk_lem [] i last = inl (refl, refl)
last_chunk_lem (c ∷ cs) i last = elim (Bool-cases (c == 0)) [
  | inl e ↦
      let none : c ≡ 0 = (==_iff c 0).0 e in
      rw none (elim (last_chunk_lem cs (i + 1) last) [
        | inl (r, v) ↦ inl (r, omega (arith, v))
        | inr (n, r, lt, v) ↦ inr (suc n, omega (arith, r), omega arith, ap (λ x. 0 + 32 * x) v)
      ])
  | inr e ↦ rw e (elim (last_chunk_lem cs (i + 1) i) [
    | inl (r, v) ↦ inr (zero, omega (arith, r), omega arith, omega (arith, v))
    | inr (n, r, lt, v) ↦ inr (suc n, omega (arith, r), omega arith, ap (λ x. c + 32 * x) v)
  ])
]

chunks_value-chunks : (w : ℕ) → chunks_value (chunks w) ≡ w % 2 ^ 30
chunks_value-chunks w = omega arith

chunks-AreChunks : (w : ℕ) → AreChunks (chunks w)
chunks-AreChunks w =
    (omega arith, (omega arith, (omega arith, (omega arith, (omega arith, (omega arith, tt))))))

decode_bits-encode_bits :
    (w : ℕ) (rest : List ℕ) → decode_bits (encode_bits w ++ rest) ≡ (w % 2 ^ 30, rest)
decode_bits-encode_bits w rest =
    let (lt, v) = found (last_chunk_lem (chunks w) 0 0) in
    decode_bits-put_chunks (last_chunk (chunks w) 0 0) (chunks w) rest (chunks-AreChunks w) lt
    ∙ ap (λ x. (x, rest)) (v ∙ chunks_value-chunks w)
  where
    found :
        (let r = last_chunk (chunks w) 0 0 in
          ((r ≡ 0) × (chunks_value (chunks w) ≡ 0))
          ⊎ ((n : ℕ) × (r ≡ 0 + n)
              × (n < length (chunks w))
              × (chunks_value (take (suc n) (chunks w)) ≡ chunks_value (chunks w))))
        → let r = last_chunk (chunks w) 0 0 in
          (r < length (chunks w))
          × (chunks_value (take (suc r) (chunks w)) ≡ chunks_value (chunks w))
    found (inl (r, v)) =
        subst
          (λ n.
            (n < length (chunks w))
            × (chunks_value (take (suc n) (chunks w)) ≡ chunks_value (chunks w)))
          (sym r) (omega arith, omega (arith, v))
    found (inr (n, r, lt, v)) =
        let at : last_chunk (chunks w) 0 0 ≡ n = omega (arith, r) in
        subst
          (λ k.
            (k < length (chunks w))
            × (chunks_value (take (suc k) (chunks w)) ≡ chunks_value (chunks w)))
          (sym at) (lt, v)

-- The printable characters from '?' to '~'.
abbrev pub IsPrintable : List ℕ → Type 0
IsPrintable = All (λ c. (63 ≤ c) × (c ≤ 126))

put_chunks-IsPrintable :
    (n : ℕ) (cs : List ℕ)
    → AreChunks cs
    → IsPrintable (put_chunks n cs) × (length (put_chunks n cs) ≤ length cs)
put_chunks-IsPrintable n [] all = (tt, omega arith)
put_chunks-IsPrintable zero (c ∷ cs) (small, all) = (((omega arith, omega arith), tt), omega arith)
put_chunks-IsPrintable (suc n) (c ∷ cs) (small, all) =
    let (chars, le) = put_chunks-IsPrintable n cs all in
    (((omega arith, omega (arith, bit_or-continued c small)), chars), omega arith)

module _ {F : Type 0} (fixed : F → ℕ) (is_negative : F → Bool) where
  -- The number fits: from -2^29 to 2^29 - 1 hundred-thousandths, and if it is below zero it is
  -- below by one of them at least.
  abbrev pub Fits : F → Type 0
  Fits c =
      ((is_negative c ≡ false) × (fixed c < 2 ^ 29))
      ⊎ ((is_negative c ≡ true) × (2 ^ 32 - 2 ^ 29 ≤ fixed c) × (fixed c < 2 ^ 32))

  -- What `encode_double` writes of a number that fits, whatever text follows it, is read back as
  -- the number in hundred-thousandths, and the text that follows is left.
  pub decode_double-encode_double :
      (c : F) (rest : List ℕ)
      → Fits c
      → decode_double (encode_double fixed is_negative c ++ rest) ≡ (fixed c, rest)
  unfolding encode_double
  decode_double-encode_double c rest fits =
      let w = signed_bits (is_negative c) (fixed c) in
      ap (λ (x : ℕ × List ℕ). (unsigned x.0, x.1)) (decode_bits-encode_bits w rest)
      ∙ ap (λ v. (v, rest)) (sign fits)
    where
      sign : Fits c → unsigned (signed_bits (is_negative c) (fixed c) % 2 ^ 30) ≡ fixed c
      sign (inl (n, lt)) = rw n (ground arith)
      sign (inr (n, le, lt)) = rw n (ground arith)

  -- `encode_double` writes from one to six characters, all from '?' to '~', of any number.
  pub encode_double-IsPrintable :
      (c : F)
      → let text = encode_double fixed is_negative c in
        IsPrintable text × (0 < length text) × (length text ≤ 6)
  unfolding encode_double
  encode_double-IsPrintable c =
      let w = signed_bits (is_negative c) (fixed c) in
      let (chars, le) =
        put_chunks-IsPrintable (last_chunk (chunks w) 0 0) (chunks w) (chunks-AreChunks w) in
      (chars, some_char (last_chunk (chunks w) 0 0), le)
    where
      some_char :
          (n : ℕ) → 0 < length (put_chunks n (chunks (signed_bits (is_negative c) (fixed c))))
      some_char zero = omega arith
      some_char (suc n) = omega arith
