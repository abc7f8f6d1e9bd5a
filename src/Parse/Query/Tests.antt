-- ===== src/Parse/Query/Tests.antt =====
-- A query of two pairs, and an instance of the theorem about queries.
use rrrr.Prelude.{
  if◌then◌else◌, ◌+◌, ℕ, ◌<◌, ◌≡◌, ◌≢◌, Bool, true, some, List, [], ◌∷◌, arith, leb, ◌==◌, ◌&&◌,
  length, String, All, same,
}
use rrrr.Prelude.Effects.{◌>>=◌}
use rrrr.Parse.Tests.{two_tokens, empty_request}
use rrrr.Qstring.Pairs.{IsPlain}
use rrrr.Parse.Query.{finish_request, parse_request_from_qstring}
use rrrr.Parse.Query.Laws.{IsEntered, query, apply_all, parse_request_from_qstring-query}

-- The strings of six letters are "arrive", the others "b".
abbrev string : List ℕ → String
string cs = if length cs == 6 then "arrive" else "b"

abbrev letters : ℕ → Bool
letters c = leb 97 c && leb c 122

letters-IsPlain : (c : ℕ) → letters c ≡ true → IsPlain c
letters-IsPlain c e = ((λ q. absurd (ground arith)), (λ q. absurd (ground arith)))

-- "arrive" and "b"
abbrev arrive : List (List ℕ × List ℕ)
arrive = (97 ∷ 114 ∷ 114 ∷ 105 ∷ 118 ∷ 101 ∷ [], 98 ∷ []) ∷ []

plain : (c : ℕ) → 97 < c + 1 → IsPlain c
plain c lt = ((λ q. absurd (omega arith)), (λ q. absurd (omega arith)))

char : (c : ℕ) → 0 < c → c ≢ 0
char c lt = λ q. absurd (omega arith)

arrive-IsEntered : All (IsEntered letters true letters-IsPlain) arrive
arrive-IsEntered = (
  (
    (
      plain 97 (omega arith),
      (
        plain 114 (omega arith),
        (
          plain 114 (omega arith),
          (plain 105 (omega arith), (plain 118 (omega arith), (plain 101 (omega arith), tt))),
        ),
      ),
    ),
    (
      char 97 (omega arith),
      (
        char 114 (omega arith),
        (
          char 114 (omega arith),
          (char 105 (omega arith), (char 118 (omega arith), (char 101 (omega arith), tt))),
        ),
      ),
    ),
    (omega arith, tt),
    (char 98 (omega arith), tt),
    omega arith,
  ),
  tt,
)

parse_request_from_qstring-query_example :
    parse_request_from_qstring two_tokens string same 0 empty_request
      (some (query letters true letters-IsPlain arrive))
    ≡ (apply_all two_tokens string same 0 letters true letters-IsPlain arrive empty_request
        >>= λ req. some (finish_request two_tokens string same 0 req))
parse_request_from_qstring-query_example =
    parse_request_from_qstring-query two_tokens string same 0 letters true letters-IsPlain arrive
      empty_request arrive-IsEntered
