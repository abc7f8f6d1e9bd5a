-- ===== src/Json/Tests.antt =====
-- A run of json.c and an instance of its bound.
use rrrr.Prelude.{◌≤◌, ◌≡◌, refl, some, [], ◌∷◌, List, arith}
use rrrr.Json.{
  Call, call_obj, call_kv, call_kd, call_end_obj, json_length, perform_all, json_begin, json_obj,
  json_kv, json_kd, json_end_obj, ekey, comma, write_string, string_chars, print_text, check_char,
}
use rrrr.Json.Bounds.{json_length-perform_all}

-- {"a":"\"","n":7}
abbrev calls : List Call
calls =
    call_obj
    ∷ call_kv (some (97 ∷ [])) (some (34 ∷ []))
    ∷ call_kd (some (110 ∷ [])) (55 ∷ [])
    ∷ call_end_obj
    ∷ []

length_run : json_length (perform_all calls (json_begin 100)) ≡ 16
unfolding json_obj json_kv json_kd json_end_obj ekey comma write_string string_chars print_text
    check_char
length_run = refl

json_length-perform_all_example : json_length (perform_all calls (json_begin 10)) ≤ 9
json_length-perform_all_example =
    json_length-perform_all 10 calls (tt, (tt, (omega arith, (tt, tt))))
