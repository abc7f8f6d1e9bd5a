-- ===== src/Json/Document/Written.antt =====
-- The calls of a document write its text.
use rrrr.Prelude.{
  ℕ, ◌+◌, ◌-◌, ◌<◌, ◌≡◌, refl, ap, subst, ◌∙◌, Bool, true, false, none, some, List, [], ◌∷◌, ◌++◌,
  length, arith,
}
use rrrr.Json.{
  Json, check_char, print_text, write_string, comma, json_kv, json_kb, json_obj, json_key_obj,
  json_key_arr, json_end_obj, json_end_arr, true_text, false_text, Call, call_obj, call_end_obj,
  call_end_arr, perform, perform_all, json_begin, set_in_list,
}
use rrrr.Json.Document.{
  Opening, by_obj, by_key_obj, Value, null, word, number, truth, object, array, Members, no_members,
  member, Elements, no_elements, element, quoted, null_text, comma_text, value_text, members_text,
  elements_text, open_call, member_calls, members_calls, elements_calls,
}
use rrrr.Json.Document.Prints.{
  writer, onto, Prints, then_lem, check_char_lem, print_text_lem, word_lem, null_lem, comma_lem,
  flag_lem, ekey_lem, calls_lem, number_lem,
}

-- The flag after members and after elements.
abbrev after_members : Bool → Members → Bool
after_members b no_members = b
after_members b (member k v ms) = true

abbrev after_elements : Bool → Elements → Bool
after_elements b no_elements = b
after_elements b (element o ms es) = true

-- What stands between a bracket and its counterpart.
bracket_lem :
    (xs : List Call) (end : Call) (opened closed : ℕ) (b c : Bool) (t : List ℕ)
    → Prints (perform_all xs) false c t
    → ((j : Json) → perform end j ≡ set_in_list true (check_char closed j))
    → Prints
        (λ j. perform_all (xs ++ end ∷ []) (set_in_list false (check_char opened j)))
        b
        true
        ((opened ∷ []) ++ (t ++ closed ∷ []))
bracket_lem xs end opened closed b c t p e =
    then_lem (λ j. set_in_list false (check_char opened j)) (perform_all (xs ++ end ∷ [])) b false
      true (opened ∷ []) (t ++ closed ∷ [])
      (flag_lem (check_char opened) b b false (opened ∷ []) (check_char_lem b opened))
      (calls_lem xs (end ∷ []) false c true t (closed ∷ []) p (λ w n room.
        e (writer c w n)
        ∙ flag_lem (check_char closed) c c true (closed ∷ []) (check_char_lem c closed) w n room))

after_members-true : (ms : Members) → after_members true ms ≡ true
after_members-true no_members = refl
after_members-true (member k v ms) = refl

after_elements-true : (es : Elements) → after_elements true es ≡ true
after_elements-true no_elements = refl
after_elements-true (element o ms es) = refl

open_call_lem :
    (o : Opening) (j : Json)
    → perform (open_call o) j ≡ set_in_list false (check_char 123 (comma j))
unfolding json_obj json_key_obj
open_call_lem by_obj j = refl
open_call_lem by_key_obj j = refl

mutual
  unfolding value_text members_text elements_text member_calls members_calls elements_calls json_kv
      json_kb json_obj json_key_obj json_key_arr json_end_obj json_end_arr

  member_lem :
      (b : Bool) (k : List ℕ) (v : Value)
      → Prints
          (perform_all (member_calls k v))
          b
          true
          (comma_text b ++ (quoted k ++ ((58 ∷ []) ++ value_text v)))
  member_lem b k null = ekey_lem (write_string none) b true k null_text (null_lem true)
  member_lem b k (word s) = ekey_lem (write_string (some s)) b true k (quoted s) (word_lem true s)
  member_lem b k (number f digits) = number_lem f b k digits
  member_lem b k (truth true) =
      ekey_lem (print_text 5 true_text) b true k true_text
        (print_text_lem true 5 true_text (omega arith))
  member_lem b k (truth false) =
      ekey_lem (print_text 5 false_text) b true k false_text
        (print_text_lem true 5 false_text (omega arith))
  member_lem b k (object ms) =
      ekey_lem
        (λ j.
          perform_all (members_calls ms ++ call_end_obj ∷ [])
            (set_in_list false (check_char 123 j)))
        b true k (value_text (object ms))
        (bracket_lem (members_calls ms) call_end_obj 123 125 true (after_members false ms)
          (members_text false ms) (members_lem false ms) (λ j. refl))
  member_lem b k (array es) =
      ekey_lem
        (λ j.
          perform_all (elements_calls es ++ call_end_arr ∷ [])
            (set_in_list false (check_char 91 j)))
        b true k (value_text (array es))
        (bracket_lem (elements_calls es) call_end_arr 91 93 true (after_elements false es)
          (elements_text false es) (elements_lem false es) (λ j. refl))

  members_lem :
      (b : Bool) (ms : Members)
      → Prints (perform_all (members_calls ms)) b (after_members b ms) (members_text b ms)
  members_lem b no_members = λ w n room. refl
  members_lem b (member k v ms) =
      calls_lem (member_calls k v) (members_calls ms) b true true _ _ (member_lem b k v) (
        subst (λ c. Prints (perform_all (members_calls ms)) true c (members_text true ms))
          (after_members-true ms) (members_lem true ms))

  elements_lem :
      (b : Bool) (es : Elements)
      → Prints (perform_all (elements_calls es)) b (after_elements b es) (elements_text b es)
  elements_lem b no_elements = λ w n room. refl
  elements_lem b (element o ms es) =
      calls_lem (open_call o ∷ members_calls ms ++ call_end_obj ∷ []) (elements_calls es) b true
        true _ _
        (λ w n room.
          ap (perform_all (members_calls ms ++ call_end_obj ∷ [])) (open_call_lem o (writer b w n))
          ∙ then_lem comma
              (λ j.
                perform_all (members_calls ms ++ call_end_obj ∷ [])
                  (set_in_list false (check_char 123 j)))
              b b true (comma_text b) ((123 ∷ []) ++ (members_text false ms ++ 125 ∷ []))
              (comma_lem b)
              (bracket_lem (members_calls ms) call_end_obj 123 125 b (after_members false ms)
                (members_text false ms) (members_lem false ms) (λ j. refl))
              w n room)
        (subst (λ c. Prints (perform_all (elements_calls es)) true c (elements_text true es))
          (after_elements-true es) (elements_lem true es))

-- The calls that write a document into a new buffer.
abbrev pub document_calls : Members → List Call
document_calls ms = call_obj ∷ members_calls ms ++ call_end_obj ∷ []

-- A buffer with room for the text of a document, and for 22 characters more, holds exactly the
-- text after the calls of the document, with the separators, quotes and escapes of the text.
pub document_calls_lem :
    (ms : Members) (buflen : ℕ)
    → length (value_text (object ms)) + 22 < buflen
    → perform_all (document_calls ms) (json_begin buflen)
      ≡ writer true (onto (value_text (object ms)) []) (buflen - 1)
unfolding json_obj json_end_obj value_text comma
document_calls_lem ms buflen room =
    bracket_lem (members_calls ms) call_end_obj 123 125 false (after_members false ms)
      (members_text false ms) (members_lem false ms) (λ j. refl) [] (buflen - 1) (omega arith)
