-- ===== src/Json/Document/Prints.antt =====
-- What the steps of the writer print.
use rrrr.Prelude.{
  ℕ, ◌+◌, ◌≤◌, ◌<◌, ◌≡◌, refl, sym, ap, ◌∙◌, Bool, true, false, none, some, List, [], ◌∷◌, ◌++◌,
  leb, ltb, length, length-append, arith, Bool-cases, inl, inr,
}
use rrrr.Json.{
  Json, check_char, print_text, string_chars, write_string, ekey, comma, is_escaped, json_kd,
  json_kf, json_kl, Call, perform, perform_all, put_text, set_in_list,
}
use rrrr.Json.Document.{
  special, one_of, Format, format_d, format_f, format_l, escape, quoted, null_text, comma_text,
  number_call,
}

-- The writer after the text `w`, the last character first.
abbrev pub writer : Bool → List ℕ → ℕ → Json
writer b w n = record { in_list = b; written = w; size = n; overflowed = false }

abbrev pub onto : List ℕ → List ℕ → List ℕ
onto [] w = w
onto (c ∷ cs) w = onto cs (c ∷ w)

onto-append : (s t w : List ℕ) → onto (s ++ t) w ≡ onto t (onto s w)
onto-append [] t w = refl
onto-append (c ∷ cs) t w = onto-append cs t (c ∷ w)

pub length-onto : (s w : List ℕ) → length (onto s w) ≡ length s + length w
length-onto [] w = omega arith
length-onto (c ∷ cs) w = omega (arith, length-onto cs (c ∷ w))

-- Where there is room, a step writes `t` and turns the flag from `b` to `c`. The room is that of
-- the text and of the longest text that `remaining` asks for.
abbrev pub Prints : (Json → Json) → Bool → Bool → List ℕ → Type 0
Prints f b c t =
    (w : List ℕ) (n : ℕ) → length w + length t + 21 < n → f (writer b w n) ≡ writer c (onto t w) n

pub then_lem :
    (f g : Json → Json) (b c d : Bool) (s t : List ℕ)
    → Prints f b c s
    → Prints g c d t
    → Prints (λ j. g (f j)) b d (s ++ t)
then_lem f g b c d s t p q w n room =
    ap g (p w n (omega (arith, length-append s t)))
    ∙ q (onto s w) n (omega (arith, length-append s t, length-onto s w))
    ∙ ap (λ v. writer d v n) (sym (onto-append s t w))

pub check_char_lem : (b : Bool) (c : ℕ) → Prints (check_char c) b b (c ∷ [])
unfolding check_char
check_char_lem b c w n room = elim (Bool-cases (leb n (length w))) [
  | inl p ↦ absurd (ground arith)
  | inr p ↦ rw p refl
]

put_text_lem : (b : Bool) (t w : List ℕ) (n : ℕ) → put_text t (writer b w n) ≡ writer b (onto t w) n
put_text_lem b [] w n = refl
put_text_lem b (c ∷ cs) w n = put_text_lem b cs (c ∷ w) n

pub print_text_lem : (b : Bool) (m : ℕ) (t : List ℕ) → m ≤ 21 → Prints (print_text m t) b b t
unfolding print_text
print_text_lem b m t fits w n room = elim (Bool-cases (ltb (length w + m) n)) [
  | inl p ↦ rw p (put_text_lem b t w n)
  | inr p ↦ absurd (ground arith)
]

-- The writer escapes the special characters and no others.
is_escaped_lem : (c : ℕ) → is_escaped c ≡ one_of special c
is_escaped_lem c = ground arith

string_chars_lem : (b : Bool) (s : List ℕ) → Prints (string_chars s) b b (escape s)
unfolding string_chars
string_chars_lem b [] = λ w n room. refl
string_chars_lem b (c ∷ cs) = elim (Bool-cases (is_escaped c)) [
  | inl p ↦
      rw (p, sym (is_escaped_lem c) ∙ p)
        (then_lem (λ j. check_char c (check_char 92 j)) (string_chars cs) b b b (92 ∷ c ∷ [])
          (escape cs)
          (then_lem (check_char 92) (check_char c) b b b (92 ∷ []) (c ∷ []) (check_char_lem b 92)
            (check_char_lem b c))
          (string_chars_lem b cs))
  | inr p ↦
      rw (p, sym (is_escaped_lem c) ∙ p)
        (then_lem (check_char c) (string_chars cs) b b b (c ∷ []) (escape cs) (check_char_lem b c)
          (string_chars_lem b cs))
]

pub word_lem : (b : Bool) (s : List ℕ) → Prints (write_string (some s)) b b (quoted s)
unfolding write_string
word_lem b s =
    then_lem (check_char 34) (λ j. check_char 34 (string_chars s j)) b b b (34 ∷ [])
      (escape s ++ 34 ∷ []) (check_char_lem b 34)
      (then_lem (string_chars s) (check_char 34) b b b (escape s) (34 ∷ []) (string_chars_lem b s)
        (check_char_lem b 34))

pub null_lem : (b : Bool) → Prints (write_string none) b b null_text
unfolding write_string
null_lem b = print_text_lem b 4 null_text (omega arith)

pub comma_lem : (b : Bool) → Prints comma b b (comma_text b)
unfolding comma
comma_lem true = check_char_lem true 44
comma_lem false = λ w n room. refl

pub flag_lem :
    (f : Json → Json) (b c d : Bool) (t : List ℕ)
    → Prints f b c t
    → Prints (λ j. set_in_list d (f j)) b d t
flag_lem f b c d t p w n room = ap (set_in_list d) (p w n room)

-- A key, and then a value.
pub ekey_lem :
    (f : Json → Json) (b d : Bool) (k t : List ℕ)
    → Prints f true d t
    → Prints (λ j. f (ekey (some k) j)) b d (comma_text b ++ (quoted k ++ ((58 ∷ []) ++ t)))
unfolding ekey
ekey_lem f b d k t p =
    then_lem comma (λ j. f (set_in_list true (check_char 58 (write_string (some k) j)))) b b d
      (comma_text b) (quoted k ++ ((58 ∷ []) ++ t)) (comma_lem b)
      (then_lem (write_string (some k)) (λ j. f (set_in_list true (check_char 58 j))) b b d
        (quoted k) ((58 ∷ []) ++ t) (word_lem b k)
        (then_lem (λ j. set_in_list true (check_char 58 j)) f b true d (58 ∷ []) t
          (flag_lem (check_char 58) b b true (58 ∷ []) (check_char_lem b 58)) p))

perform_all-append :
    (xs ys : List Call) (j : Json) → perform_all (xs ++ ys) j ≡ perform_all ys (perform_all xs j)
perform_all-append [] ys j = refl
perform_all-append (x ∷ xs) ys j = perform_all-append xs ys (perform x j)

pub calls_lem :
    (xs ys : List Call) (b c d : Bool) (s t : List ℕ)
    → Prints (perform_all xs) b c s
    → Prints (perform_all ys) c d t
    → Prints (perform_all (xs ++ ys)) b d (s ++ t)
calls_lem xs ys b c d s t p q w n room =
    perform_all-append xs ys (writer b w n)
    ∙ then_lem (perform_all xs) (perform_all ys) b c d s t p q w n room

pub number_lem :
    (f : Format) (b : Bool) (k digits : List ℕ)
    → Prints
        (perform (number_call f (some k) digits))
        b
        true
        (comma_text b ++ (quoted k ++ ((58 ∷ []) ++ digits)))
unfolding json_kd json_kf json_kl
number_lem format_d b k digits =
    ekey_lem (print_text 11 digits) b true k digits (print_text_lem true 11 digits (omega arith))
number_lem format_f b k digits =
    ekey_lem (print_text 12 digits) b true k digits (print_text_lem true 12 digits (omega arith))
number_lem format_l b k digits =
    ekey_lem (print_text 21 digits) b true k digits (print_text_lem true 21 digits (omega arith))
