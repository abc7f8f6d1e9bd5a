-- ===== src/Json.antt =====
-- json.c: the writer behind the JSON output, on its bounded buffer. The static variables are a
-- record; a character is its code. What `sprintf` prints for a number is an argument.
mod Bounds
pub mod Document
pub mod Render
mod Tests
use rrrr.Prelude.{
  ℕ, zero, suc, ◌+◌, ◌-◌, Bool, true, false, Option, none, some, List, [], ◌∷◌, ltb, leb, ◌==◌,
  ◌||◌, if◌then◌else◌, length,
}

-- `written` holds the characters from `buf_start` up to `b`, the last one first; `size` is
-- `buf_end - buf_start`.
pub record Json : Type 0 where
  pub in_list : Bool
  pub written : List ℕ
  pub size : ℕ
  pub overflowed : Bool

abbrev pub json_length : Json → ℕ
json_length j = length j.written

-- The result of `remaining`, and what it does to `overflowed`.
abbrev pub remaining : ℕ → Json → Bool
remaining n j = ltb (json_length j + n) j.size

abbrev pub overflow : Json → Json
overflow j = record j { overflowed = true }

abbrev pub put_char : ℕ → Json → Json
put_char c j = record j { written = c ∷ j.written }

-- `check`
pub check_char : ℕ → Json → Json
check_char c j = if leb j.size (json_length j) then overflow j else put_char c j

abbrev pub put_text : List ℕ → Json → Json
put_text [] j = j
put_text (c ∷ cs) j = put_text cs (put_char c j)

-- `if (remaining(n)) b += sprintf(b, ...)`
pub print_text : ℕ → List ℕ → Json → Json
print_text n text j = if remaining n j then put_text text j else overflow j

pub comma : Json → Json
comma j = let with_comma = check_char 44 j in if j.in_list then with_comma else j

-- The characters that get a backslash: \ \b \f \n \r \t \v "
abbrev pub is_escaped : ℕ → Bool
is_escaped c =
    (c == 92)
    || (c == 8)
    || (c == 12)
    || (c == 10)
    || (c == 13)
    || (c == 9)
    || (c == 11)
    || (c == 34)

pub string_chars : List ℕ → Json → Json
string_chars [] j = j
string_chars (c ∷ cs) j =
    let escaped = string_chars cs (check_char c (check_char 92 j)) in
    let plain = string_chars cs (check_char c j) in if is_escaped c then escaped else plain

-- `string`; no text stands for NULL, which is written as null.
pub write_string : Option (List ℕ) → Json → Json
write_string none j = print_text 4 (110 ∷ 117 ∷ 108 ∷ 108 ∷ []) j
write_string (some s) j = check_char 34 (string_chars s (check_char 34 j))

abbrev pub set_in_list : Bool → Json → Json
set_in_list b j = record j { in_list = b }

pub ekey : Option (List ℕ) → Json → Json
ekey k j = set_in_list true (check_char 58 (write_string k (comma j)))

-- `buf_end` is `buf + buflen - 1`.
abbrev pub json_begin : ℕ → Json
json_begin buflen = record { in_list = false; written = []; size = buflen - 1; overflowed = false }

pub json_kv : Option (List ℕ) → Option (List ℕ) → Json → Json
json_kv key value j = write_string value (ekey key j)

pub json_kd : Option (List ℕ) → List ℕ → Json → Json
json_kd key digits j = print_text 11 digits (ekey key j)

pub json_kf : Option (List ℕ) → List ℕ → Json → Json
json_kf key digits j = print_text 12 digits (ekey key j)

pub json_kl : Option (List ℕ) → List ℕ → Json → Json
json_kl key digits j = print_text 21 digits (ekey key j)

abbrev pub true_text : List ℕ
true_text = 116 ∷ 114 ∷ 117 ∷ 101 ∷ []

abbrev pub false_text : List ℕ
false_text = 102 ∷ 97 ∷ 108 ∷ 115 ∷ 101 ∷ []

pub json_kb : Option (List ℕ) → Bool → Json → Json
json_kb key value j = print_text 5 (if value then true_text else false_text) (ekey key j)

pub json_obj : Json → Json
json_obj j = set_in_list false (check_char 123 (comma j))

pub json_arr : Json → Json
json_arr j = set_in_list false (check_char 91 (comma j))

pub json_key_obj : Option (List ℕ) → Json → Json
json_key_obj none j = json_obj j
json_key_obj (some k) j = set_in_list false (check_char 123 (ekey (some k) j))

pub json_key_arr : Option (List ℕ) → Json → Json
json_key_arr key j = set_in_list false (check_char 91 (ekey key j))

pub json_end_obj : Json → Json
json_end_obj j = set_in_list true (check_char 125 j)

pub json_end_arr : Json → Json
json_end_arr j = set_in_list true (check_char 93 j)

-- A call of one of the functions that the rendering of a plan uses.
pub data Call : Type 0 where
  call_kv : Option (List ℕ) → Option (List ℕ) → Call
  call_kd call_kf call_kl : Option (List ℕ) → List ℕ → Call
  call_kb : Option (List ℕ) → Bool → Call
  call_key_obj call_key_arr : Option (List ℕ) → Call
  call_obj call_arr call_end_obj call_end_arr : Call

abbrev pub perform : Call → Json → Json
perform (call_kv key value) j = json_kv key value j
perform (call_kd key digits) j = json_kd key digits j
perform (call_kf key digits) j = json_kf key digits j
perform (call_kl key digits) j = json_kl key digits j
perform (call_kb key value) j = json_kb key value j
perform (call_key_obj key) j = json_key_obj key j
perform (call_key_arr key) j = json_key_arr key j
perform call_obj j = json_obj j
perform call_arr j = json_arr j
perform call_end_obj j = json_end_obj j
perform call_end_arr j = json_end_arr j

abbrev pub perform_all : List Call → Json → Json
perform_all [] j = j
perform_all (call ∷ calls) j = perform_all calls (perform call j)
