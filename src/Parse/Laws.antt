-- ===== src/Parse/Laws.antt =====
-- What the options of a request set.
use rrrr.Prelude.{
  ℕ, ◌^◌, ◌<◌, ◌≡◌, refl, ap, Bool, true, false, Option, none, some, List, [], ◌∷◌, ◌==◌, ◌&&◌,
  ◌||◌, bit_or, arith, Bool-cases, inl, inr, String, same,
}
use rrrr.Prelude.Bits.{
  test_bit, test_bit-bit_or, test_bit-pow, test_bit-zero, test_bit-le-one, test_bit-complement,
}
use rrrr.Router.{RouterRequest}
use rrrr.Router.Request.{m_all}
use rrrr.Parse.{Library, opt_m, flag, mode_token, fold, parse_request}

-- Some token of the list passes the test.
abbrev pub any : (String → Bool) → List String → Bool
any test [] = false
any test (token ∷ tokens) = test token || any test tokens

-- The token names the mode of this bit.
abbrev pub names_mode : ℕ → String → Bool
names_mode k token =
    same token "all"
    || (same token "tram" && k == 0)
    || (same token "subway" && k == 1)
    || (same token "rail" && k == 2)
    || (same token "bus" && k == 3)
    || (same token "ferry" && k == 4)
    || (same token "cablecar" && k == 5)
    || (same token "gondola" && k == 6)
    || (same token "funicular" && k == 7)

abbrev has_bit : ℕ → ℕ → Bool
has_bit flags k = test_bit flags k == 1

or_pow : (flags j k : ℕ) → has_bit (bit_or flags (2 ^ j)) k ≡ (has_bit flags k || (k == j))
or_pow flags j k =
    ground (arith, test_bit-bit_or k flags (2 ^ j), test_bit-pow j k, test_bit-le-one k flags)

flag-has_bit :
    (token word : String) (j flags k : ℕ)
    → has_bit (flag token word (2 ^ j) flags) k ≡ (has_bit flags k || (same token word && k == j))
flag-has_bit token word j flags k = elim (Bool-cases (same token word)) [
  | inl p ↦ rw p (or_pow flags j k)
  | inr p ↦ rw p (ground arith)
]

all_bits : (k : ℕ) → k < 8 → has_bit m_all k ≡ true
all_bits k lt = ground (arith, test_bit-complement 8 k 0 (omega arith) lt, test_bit-zero k)

mode_token-has_bit :
    (token : String) (mode k : ℕ)
    → k < 8
    → has_bit (mode_token token mode) k ≡ (has_bit mode k || names_mode k token)
unfolding mode_token
mode_token-has_bit token mode k lt = elim (Bool-cases (same token "all")) [
  | inl p ↦ rw p (ground (arith, all_bits k lt))
  | inr p ↦
      rw
        (
          p,
          flag-has_bit token "funicular" 7 _ k,
          flag-has_bit token "gondola" 6 _ k,
          flag-has_bit token "cablecar" 5 _ k,
          flag-has_bit token "ferry" 4 _ k,
          flag-has_bit token "bus" 3 _ k,
          flag-has_bit token "rail" 2 _ k,
          flag-has_bit token "subway" 1 _ k,
          flag-has_bit token "tram" 0 _ k,
        )
        (elim (Bool-cases (has_bit mode k)) [ inl q ↦ rw q refl | inr q ↦ rw q refl ])
]

fold-has_bit :
    (tokens : List String) (mode k : ℕ)
    → k < 8
    → has_bit (fold mode_token tokens mode) k ≡ (has_bit mode k || any (names_mode k) tokens)
fold-has_bit [] mode k lt = ground arith
fold-has_bit (token ∷ tokens) mode k lt =
    ground
      (arith, fold-has_bit tokens (mode_token token mode) k lt, mode_token-has_bit token mode k lt)

mode_of : {F : Type 0} → Option (RouterRequest F) → ℕ
mode_of none = 0
mode_of (some req) = req.mode

-- The modes that the option `m` asks for are those named among its tokens, or all of them if the
-- token `all` is among them.
pub parse_request-names_mode :
    {F : Type 0} (lib : Library F) (req req' : RouterRequest F) (optarg : String) (k : ℕ)
    → parse_request lib req opt_m optarg ≡ some req'
    → k < 8
    → (test_bit req'.mode k == 1) ≡ any (names_mode k) (lib.strtok optarg)
unfolding parse_request mode_of
parse_request-names_mode lib req req' optarg k e lt =
    let mode : fold mode_token (lib.strtok optarg) 0 ≡ req'.mode = ap (λ o. mode_of o) e in
    ground
      (arith, ap (λ m. has_bit m k) mode, fold-has_bit (lib.strtok optarg) 0 k lt, test_bit-zero k)
