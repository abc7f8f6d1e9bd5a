-- ===== src/Parse/Query/Laws.antt =====
-- A query string against the options that it encodes.
use rrrr.Prelude.{
  ℕ, zero, suc, ◌+◌, ◌<◌, ◌≤◌, ◌≡◌, ◌≢◌, ◌∙◌, refl, ap, Bool, true, false, Option, none, some, List,
  [], ◌∷◌, ◌++◌, arith, ◌==◌, length, length-append, drop, String, All, map_option,
}
use rrrr.Prelude.Effects.{◌>>=◌, for_each}
use rrrr.Router.{RouterRequest}
use rrrr.Qstring.{Pair, qstring_next_pair, qstring_pairs}
use rrrr.Qstring.Decode.{url_encode}
use rrrr.Qstring.Pairs.{IsPlain, drop-append, qstring_next_pair-url_encode}
use rrrr.Parse.{Library}
use rrrr.Parse.Query.{
  buflen, c_string, key_and_val, apply_pair, finish_request, parse_request_from_qstring,
}

qstring_pairs-empty : (fuel n : ℕ) → qstring_pairs (suc fuel) n [] ≡ some []
unfolding qstring_pairs qstring_next_pair
qstring_pairs-empty fuel n = refl

qstring_pairs-next :
    (fuel n : ℕ) (q : List ℕ) (pair : Pair)
    → qstring_next_pair n q ≡ some pair
    → qstring_pairs (suc fuel) n q
      ≡ map_option (λ rest. pair ∷ rest) (qstring_pairs fuel n pair.rest)
unfolding qstring_pairs
qstring_pairs-next fuel n q pair e =
    ap
      (λ (o : Option Pair). elim o as (λ _. Option (List Pair)) [
        | none ↦ some []
        | some p ↦ map_option (λ rest. p ∷ rest) (qstring_pairs fuel n p.rest)
      ])
      e

-- A chain of steps goes on in the same way.
bind_same :
    {A B : Type 0} (o o' : Option A) (f g : A → Option B)
    → o ≡ o'
    → ((a : A) → f a ≡ g a)
    → (o >>= f) ≡ (o' >>= g)
bind_same o o' f g e h = ap (λ x. x >>= f) e ∙ go o'
  where
    go : (x : Option _) → (x >>= f) ≡ (x >>= g)
    go none = refl
    go (some a) = h a

c_string-All : (cs : List ℕ) → All (λ c. c ≢ 0) cs → c_string cs ≡ cs
c_string-All [] all = refl
c_string-All (c ∷ cs) (c_char, all) =
    let e : (c == 0) ≡ false = ground arith in rw e (ap (λ t. c ∷ t) (c_string-All cs all))

c_string-end : (cs rest : List ℕ) → All (λ c. c ≢ 0) cs → c_string ((cs ++ (0 ∷ [])) ++ rest) ≡ cs
c_string-end [] rest all = refl
c_string-end (c ∷ cs) rest (c_char, all) =
    let e : (c == 0) ≡ false = ground arith in rw e (ap (λ t. c ∷ t) (c_string-end cs rest all))

module _ (keeps : ℕ → Bool) (upper : Bool) (kept_plain : (c : ℕ) → keeps c ≡ true → IsPlain c) where
  -- A key without '\0', '=' and '&', and a value of characters other than '\0', that fit together
  -- into the buffer of `parse_request_from_qstring`.
  abbrev pub IsEntered : List ℕ × List ℕ → Type 0
  IsEntered (key, val) =
      All IsPlain key
      × All (λ c. c ≢ 0) key
      × All (λ c. c < 256) val
      × All (λ c. c ≢ 0) val
      × (length key + length (url_encode keeps upper val) + 2 < buflen)

  -- The query of these pairs, with the values encoded.
  abbrev pub query : List (List ℕ × List ℕ) → List ℕ
  query [] = []
  query ((key, val) ∷ pairs) = key ++ (61 ∷ (url_encode keeps upper val ++ (38 ∷ query pairs)))

  abbrev entered : List (List ℕ × List ℕ) → List Pair
  entered [] = []
  entered ((key, val) ∷ pairs) =
      record { buf = (key ++ (0 ∷ [])) ++ val; vbuf = length (key ++ (0 ∷ [])); rest = query pairs }
      ∷ entered pairs

  length-query : (pairs : List (List ℕ × List ℕ)) → length pairs ≤ length (query pairs)
  length-query [] = omega arith
  length-query ((key, val) ∷ pairs) = omega (
    arith,
    length-query pairs,
    length-append key (61 ∷ (url_encode keeps upper val ++ (38 ∷ query pairs))),
    length-append (url_encode keeps upper val) (38 ∷ query pairs),
  )

  qstring_pairs-query :
      (fuel : ℕ) (pairs : List (List ℕ × List ℕ))
      → All IsEntered pairs
      → length pairs < fuel
      → qstring_pairs fuel buflen (query pairs) ≡ some (entered pairs)
  qstring_pairs-query zero pairs all lt = absurd (omega arith)
  qstring_pairs-query (suc fuel) [] all lt = qstring_pairs-empty fuel buflen
  qstring_pairs-query (suc fuel) ((key, val) ∷ pairs) ((plain, _, small, _, room), all) lt =
      let pair : Pair = record {
        buf = (key ++ (0 ∷ [])) ++ val;
        vbuf = length (key ++ (0 ∷ []));
        rest = query pairs;
      } in
      qstring_pairs-next fuel buflen (query ((key, val) ∷ pairs)) pair (
        qstring_next_pair-url_encode keeps upper kept_plain buflen key val (query pairs) plain small
          room)
      ∙ (ap (map_option (λ rest. pair ∷ rest)) (qstring_pairs-query fuel pairs all (omega arith)))

module _ {F : Type 0} (lib : Library F) (string : List ℕ → String)
    (strcasecmp : String → String → Bool) (local : ℕ) (keeps : ℕ → Bool) (upper : Bool)
    (kept_plain : (c : ℕ) → keeps c ≡ true → IsPlain c) where
  abbrev pub apply_all : List (List ℕ × List ℕ) → RouterRequest F → Option (RouterRequest F)
  apply_all pairs req = for_each pairs (apply_pair lib string strcasecmp local) req

  for_each-entered :
      (pairs : List (List ℕ × List ℕ)) (req : RouterRequest F)
      → All (IsEntered keeps upper kept_plain) pairs
      → for_each
          (entered keeps upper kept_plain pairs)
          (λ pair.
            apply_pair lib string strcasecmp local (key_and_val lib string strcasecmp local pair))
          req
        ≡ apply_all pairs req
  unfolding for_each
  for_each-entered [] req all = refl
  for_each-entered ((key, val) ∷ pairs) req ((_, key_chars, _, val_chars, _), all) =
      let start = key ++ (0 ∷ []) in
      let val_read : c_string (drop (length start) (start ++ val)) ≡ val =
        ap c_string (drop-append start val) ∙ c_string-All val val_chars in
      bind_same _ _ _ _
        (ap
            (λ k.
              apply_pair lib string strcasecmp local
                (k, c_string (drop (length start) (start ++ val))) req)
            (c_string-end key val key_chars)
          ∙ ap (λ v. apply_pair lib string strcasecmp local (key, v) req) val_read)
        (λ req'. for_each-entered pairs req' all)

  -- Of a query of keys and encoded values that each fit into its buffer, `parse_request_from_qstring`
  -- applies the options in the order of the query, each with its value decoded, and then completes
  -- the request.
  pub parse_request_from_qstring-query :
      (pairs : List (List ℕ × List ℕ)) (req : RouterRequest F)
      → All (IsEntered keeps upper kept_plain) pairs
      → parse_request_from_qstring lib string strcasecmp local req
          (some (query keeps upper kept_plain pairs))
        ≡ (apply_all pairs req >>= λ req'. some (finish_request lib string strcasecmp local req'))
  unfolding parse_request_from_qstring
  parse_request_from_qstring-query pairs req all =
      let q = query keeps upper kept_plain pairs in
      rw
        (qstring_pairs-query keeps upper kept_plain (length q + 1) pairs all
          (omega (arith, length-query keeps upper kept_plain pairs)))
        (ap
          (λ (o : Option (RouterRequest F)).
            o >>= λ req'. some (finish_request lib string strcasecmp local req'))
          (for_each-entered pairs req all))
