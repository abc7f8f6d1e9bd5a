-- ===== src/Json/Bounds.antt =====
-- The writer of json.c stays within its buffer.
use rrrr.Prelude.{
  ℕ, ◌+◌, ◌-◌, ◌≤◌, ◌≡◌, refl, true, false, Option, none, some, List, [], ◌∷◌, leb, length, arith,
  Bool-cases, inl, inr, All, if_all, ◌∙◌,
}
use rrrr.Json.{
  Json, json_length, remaining, put_char, check_char, put_text, print_text, comma, is_escaped,
  string_chars, write_string, ekey, json_begin, json_kv, json_kd, json_kf, json_kl, json_kb,
  json_obj, json_arr, json_key_obj, json_key_arr, json_end_obj, json_end_arr, true_text, false_text,
  Call, call_kv, call_kd, call_kf, call_kl, call_kb, call_key_obj, call_key_arr, call_obj, call_arr,
  call_end_obj, call_end_arr, perform, perform_all,
}

-- The buffer has a given size, and what was written fits into it.
abbrev pub IsBounded : ℕ → Json → Type 0
IsBounded n j = (j.size ≡ n) × (json_length j ≤ n)

check_char-IsBounded : (n c : ℕ) (j : Json) → IsBounded n j → IsBounded n (check_char c j)
unfolding check_char
check_char-IsBounded n c j h = elim (Bool-cases (leb j.size (json_length j))) [
  | inl p ↦ rw p h
  | inr p ↦ rw p (h.0, ground arith)
]

length-put_text :
    (text : List ℕ) (j : Json) → json_length (put_text text j) ≡ length text + json_length j
length-put_text [] j = omega arith
length-put_text (c ∷ cs) j = omega (arith, length-put_text cs (put_char c j))

size-put_text : (text : List ℕ) (j : Json) → (put_text text j).size ≡ j.size
size-put_text [] j = refl
size-put_text (c ∷ cs) j = size-put_text cs (put_char c j)

print_text-IsBounded :
    (n m : ℕ) (text : List ℕ) (j : Json)
    → length text ≤ m
    → IsBounded n j
    → IsBounded n (print_text m text j)
unfolding print_text
print_text-IsBounded n m text j fits h = elim (Bool-cases (remaining m j)) [
  | inl p ↦ rw p (size-put_text text j ∙ h.0, ground (arith, length-put_text text j))
  | inr p ↦ rw p h
]

comma-IsBounded : (n : ℕ) (j : Json) → IsBounded n j → IsBounded n (comma j)
unfolding comma
comma-IsBounded n j h = if_all (IsBounded n) j.in_list _ j (check_char-IsBounded n 44 j h) h

string_chars-IsBounded :
    (n : ℕ) (s : List ℕ) (j : Json) → IsBounded n j → IsBounded n (string_chars s j)
unfolding string_chars
string_chars-IsBounded n [] j h = h
string_chars-IsBounded n (c ∷ cs) j h =
    if_all (IsBounded n) (is_escaped c) _ _
      (string_chars-IsBounded n cs _
        (check_char-IsBounded n c (check_char 92 j) (check_char-IsBounded n 92 j h)))
      (string_chars-IsBounded n cs _ (check_char-IsBounded n c j h))

write_string-IsBounded :
    (n : ℕ) (s : Option (List ℕ)) (j : Json) → IsBounded n j → IsBounded n (write_string s j)
unfolding write_string
write_string-IsBounded n none j h = print_text-IsBounded n 4 _ j (omega arith) h
write_string-IsBounded n (some s) j h =
    check_char-IsBounded n 34 (string_chars s (check_char 34 j))
      (string_chars-IsBounded n s (check_char 34 j) (check_char-IsBounded n 34 j h))

ekey-IsBounded : (n : ℕ) (k : Option (List ℕ)) (j : Json) → IsBounded n j → IsBounded n (ekey k j)
unfolding ekey
ekey-IsBounded n k j h =
    check_char-IsBounded n 58 (write_string k (comma j))
      (write_string-IsBounded n k (comma j) (comma-IsBounded n j h))

-- What a call prints for a number is as short as the call reckons with.
abbrev pub Fits : Call → Type 0
Fits (call_kd key digits) = length digits ≤ 11
Fits (call_kf key digits) = length digits ≤ 12
Fits (call_kl key digits) = length digits ≤ 21
Fits (call_kv key value) = Unit
Fits (call_kb key value) = Unit
Fits (call_key_obj key) = Unit
Fits (call_key_arr key) = Unit
Fits call_obj = Unit
Fits call_arr = Unit
Fits call_end_obj = Unit
Fits call_end_arr = Unit

json_obj-IsBounded : (n : ℕ) (j : Json) → IsBounded n j → IsBounded n (json_obj j)
unfolding json_obj
json_obj-IsBounded n j h = check_char-IsBounded n 123 (comma j) (comma-IsBounded n j h)

perform-IsBounded :
    (n : ℕ) (call : Call) (j : Json) → Fits call → IsBounded n j → IsBounded n (perform call j)
unfolding json_kv json_kd json_kf json_kl json_kb json_arr json_key_obj json_key_arr json_end_obj
    json_end_arr
perform-IsBounded n (call_kv key value) j f h =
    write_string-IsBounded n value (ekey key j) (ekey-IsBounded n key j h)
perform-IsBounded n (call_kd key digits) j f h =
    print_text-IsBounded n 11 digits (ekey key j) f (ekey-IsBounded n key j h)
perform-IsBounded n (call_kf key digits) j f h =
    print_text-IsBounded n 12 digits (ekey key j) f (ekey-IsBounded n key j h)
perform-IsBounded n (call_kl key digits) j f h =
    print_text-IsBounded n 21 digits (ekey key j) f (ekey-IsBounded n key j h)
perform-IsBounded n (call_kb key true) j f h =
    print_text-IsBounded n 5 true_text (ekey key j) (omega arith) (ekey-IsBounded n key j h)
perform-IsBounded n (call_kb key false) j f h =
    print_text-IsBounded n 5 false_text (ekey key j) (omega arith) (ekey-IsBounded n key j h)
perform-IsBounded n (call_key_obj none) j f h = json_obj-IsBounded n j h
perform-IsBounded n (call_key_obj (some k)) j f h =
    check_char-IsBounded n 123 (ekey (some k) j) (ekey-IsBounded n (some k) j h)
perform-IsBounded n (call_key_arr key) j f h =
    check_char-IsBounded n 91 (ekey key j) (ekey-IsBounded n key j h)
perform-IsBounded n call_obj j f h = json_obj-IsBounded n j h
perform-IsBounded n call_arr j f h = check_char-IsBounded n 91 (comma j) (comma-IsBounded n j h)
perform-IsBounded n call_end_obj j f h = check_char-IsBounded n 125 j h
perform-IsBounded n call_end_arr j f h = check_char-IsBounded n 93 j h

perform_all-IsBounded :
    (n : ℕ) (calls : List Call) (j : Json)
    → All Fits calls
    → IsBounded n j
    → IsBounded n (perform_all calls j)
perform_all-IsBounded n [] j f h = h
perform_all-IsBounded n (call ∷ calls) j f h =
    perform_all-IsBounded n calls (perform call j) f.1 (perform-IsBounded n call j f.0 h)

-- Any sequence of calls on a new buffer writes at most one character less than the buffer holds,
-- whatever the keys and the texts, if the numbers are printed as short as the calls reckon with.
pub json_length-perform_all :
    (buflen : ℕ) (calls : List Call)
    → All Fits calls
    → json_length (perform_all calls (json_begin buflen)) ≤ buflen - 1
json_length-perform_all buflen calls f =
    (perform_all-IsBounded (buflen - 1) calls (json_begin buflen) f (refl, omega arith)).1
