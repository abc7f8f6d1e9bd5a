-- ===== src/Json/Document.antt =====
-- A JSON document as a tree: its text, and the calls of the writer of json.c that write it.
pub mod Prints
pub mod Written
use rrrr.Prelude.{◌||◌, ◌==◌, ℕ, Bool, true, false, Option, none, some, List, [], ◌∷◌, ◌++◌}
use rrrr.Json.{
  true_text, false_text, Call, call_kv, call_kd, call_kf, call_kl, call_kb, call_key_obj,
  call_key_arr, call_obj, call_arr, call_end_obj, call_end_arr,
}
use rrrr.Prelude.{if◌then◌else◌}

-- The call for a number, and the one that opens an object of an array: the text does not show them.
pub data Format : Type 0 where
  format_d format_f format_l : Format

pub data Opening : Type 0 where
  by_obj by_key_obj : Opening

mutual
  pub data Value : Type 0 where
    null : Value
    word : List ℕ → Value
    number : Format → List ℕ → Value
    truth : Bool → Value
    object : Members → Value
    array : Elements → Value

  pub data Members : Type 0 where
    no_members : Members
    member : List ℕ → Value → Members → Members

  pub data Elements : Type 0 where
    no_elements : Elements
    element : Opening → Members → Elements → Elements

-- The characters that stand behind a backslash in a text: the backslash, the six control characters
-- \b, \f, \n, \r, \t and \v, and the quote.
abbrev pub special : List ℕ
special = 92 ∷ 8 ∷ 12 ∷ 10 ∷ 13 ∷ 9 ∷ 11 ∷ 34 ∷ []

abbrev pub one_of : List ℕ → ℕ → Bool
one_of [] c = false
one_of (d ∷ ds) c = c == d || one_of ds c

abbrev pub escape : List ℕ → List ℕ
escape [] = []
escape (c ∷ cs) = (if one_of special c then 92 ∷ c ∷ [] else c ∷ []) ++ escape cs

abbrev pub quoted : List ℕ → List ℕ
quoted s = (34 ∷ []) ++ (escape s ++ 34 ∷ [])

abbrev pub null_text : List ℕ
null_text = 110 ∷ 117 ∷ 108 ∷ 108 ∷ []

abbrev pub comma_text : Bool → List ℕ
comma_text true = 44 ∷ []
comma_text false = []

-- The texts of members and of elements begin with a comma if there are others before them.
unfoldable mutual
  pub value_text : Value → List ℕ
  value_text null = null_text
  value_text (word s) = quoted s
  value_text (number f digits) = digits
  value_text (truth b) = if b then true_text else false_text
  value_text (object ms) = (123 ∷ []) ++ (members_text false ms ++ 125 ∷ [])
  value_text (array es) = (91 ∷ []) ++ (elements_text false es ++ 93 ∷ [])

  pub members_text : Bool → Members → List ℕ
  members_text b no_members = []
  members_text b (member k v ms) =
      (comma_text b ++ (quoted k ++ ((58 ∷ []) ++ value_text v))) ++ members_text true ms

  pub elements_text : Bool → Elements → List ℕ
  elements_text b no_elements = []
  elements_text b (element o ms es) =
      (comma_text b ++ ((123 ∷ []) ++ (members_text false ms ++ 125 ∷ []))) ++ elements_text true es

abbrev pub number_call : Format → Option (List ℕ) → List ℕ → Call
number_call format_d = call_kd
number_call format_f = call_kf
number_call format_l = call_kl

abbrev pub open_call : Opening → Call
open_call by_obj = call_obj
open_call by_key_obj = call_key_obj none

unfoldable mutual
  pub member_calls : List ℕ → Value → List Call
  member_calls k null = call_kv (some k) none ∷ []
  member_calls k (word s) = call_kv (some k) (some s) ∷ []
  member_calls k (number f digits) = number_call f (some k) digits ∷ []
  member_calls k (truth b) = call_kb (some k) b ∷ []
  member_calls k (object ms) = call_key_obj (some k) ∷ members_calls ms ++ call_end_obj ∷ []
  member_calls k (array es) = call_key_arr (some k) ∷ elements_calls es ++ call_end_arr ∷ []

  pub members_calls : Members → List Call
  members_calls no_members = []
  members_calls (member k v ms) = member_calls k v ++ members_calls ms

  pub elements_calls : Elements → List Call
  elements_calls no_elements = []
  elements_calls (element o ms es) =
      (open_call o ∷ members_calls ms ++ call_end_obj ∷ []) ++ elements_calls es
