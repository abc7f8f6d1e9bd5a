-- ===== src/Json/Render/Nested.antt =====
-- The document that json.c writes for a plan.
use rrrr.Prelude.{
  ℕ, ◌≡◌, refl, sym, ap, subst, ◌∙◌, Bool, Option, none, some, List, [], ◌∷◌, ◌++◌, append_assoc,
}
use rrrr.Json.{
  Call, call_kv, call_kd, call_kf, call_kl, call_kb, call_key_obj, call_key_arr, call_end_obj,
  call_end_arr,
}
use rrrr.Json.Document.{
  format_d, format_f, format_l, Opening, open_call, Value, null, word, number, truth, object, array,
  Members, no_members, member, Elements, no_elements, element, member_calls, members_calls,
  elements_calls,
}

-- The calls up to `rest` are those of these members of an object, and of these elements of an
-- array.
pub record IsMembers (ms : Members) (rest calls : List Call) : Type 0 where
  pub written : calls ≡ members_calls ms ++ rest

pub record IsElements (es : Elements) (rest calls : List Call) : Type 0 where
  pub written : calls ≡ elements_calls es ++ rest

-- The value of a text, or null.
abbrev pub text_value : Option (List ℕ) → Value
text_value none = null
text_value (some t) = word t

module _ {rest : List Call} where
  pub end_lem : IsMembers no_members rest rest
  unfolding members_calls
  end_lem = record { written = refl }

  pub end_elements_lem : IsElements no_elements rest rest
  unfolding elements_calls
  end_elements_lem = record { written = refl }

module _ {rest calls : List Call} {ms : Members} where
  member_lem :
      (k : List ℕ) (v : Value)
      → IsMembers ms rest calls
      → IsMembers (member k v ms) rest (member_calls k v ++ calls)
  unfolding members_calls
  member_lem k v h = record {
    written =
        ap (λ c. member_calls k v ++ c) h.written ∙ sym (append_assoc (member_calls k v) _ rest);
  }

module _ {rest calls : List Call} {ms : Members} {k : List ℕ} where
  pub kv_lem :
      {s : Option (List ℕ)}
      → IsMembers ms rest calls
      → IsMembers (member k (text_value s) ms) rest (call_kv (some k) s ∷ calls)
  unfolding member_calls
  kv_lem {s = none} = member_lem k null
  kv_lem {s = some t} = member_lem k (word t)

  pub kd_lem :
      {t : List ℕ}
      → IsMembers ms rest calls
      → IsMembers (member k (number format_d t) ms) rest (call_kd (some k) t ∷ calls)
  unfolding member_calls
  kd_lem {t = t} = member_lem k (number format_d t)

  pub kf_lem :
      {t : List ℕ}
      → IsMembers ms rest calls
      → IsMembers (member k (number format_f t) ms) rest (call_kf (some k) t ∷ calls)
  unfolding member_calls
  kf_lem {t = t} = member_lem k (number format_f t)

  pub kl_lem :
      {t : List ℕ}
      → IsMembers ms rest calls
      → IsMembers (member k (number format_l t) ms) rest (call_kl (some k) t ∷ calls)
  unfolding member_calls
  kl_lem {t = t} = member_lem k (number format_l t)

  pub kb_lem :
      {b : Bool}
      → IsMembers ms rest calls
      → IsMembers (member k (truth b) ms) rest (call_kb (some k) b ∷ calls)
  unfolding member_calls
  kb_lem {b = b} = member_lem k (truth b)

  pub object_lem :
      {inner : List Call} {ns : Members}
      → IsMembers ns (call_end_obj ∷ calls) inner
      → IsMembers ms rest calls
      → IsMembers (member k (object ns) ms) rest (call_key_obj (some k) ∷ inner)
  unfolding member_calls
  object_lem {ns = ns} g h =
      subst (λ c. IsMembers (member k (object ns) ms) rest (call_key_obj (some k) ∷ c))
        (append_assoc (members_calls ns) (call_end_obj ∷ []) calls ∙ sym g.written)
        (member_lem k (object ns) h)

  pub array_lem :
      {inner : List Call} {es : Elements}
      → IsElements es (call_end_arr ∷ calls) inner
      → IsMembers ms rest calls
      → IsMembers (member k (array es) ms) rest (call_key_arr (some k) ∷ inner)
  unfolding member_calls
  array_lem {es = es} g h =
      subst (λ c. IsMembers (member k (array es) ms) rest (call_key_arr (some k) ∷ c))
        (append_assoc (elements_calls es) (call_end_arr ∷ []) calls ∙ sym g.written)
        (member_lem k (array es) h)

module _ {rest calls inner : List Call} (o : Opening) {ms : Members} {es : Elements} where
  pub element_lem :
      IsMembers ms (call_end_obj ∷ calls) inner
      → IsElements es rest calls
      → IsElements (element o ms es) rest (open_call o ∷ inner)
  unfolding elements_calls
  element_lem g h = record {
    written =
        ap (λ c. open_call o ∷ c)
          (g.written
            ∙ ap (λ c. members_calls ms ++ call_end_obj ∷ c) h.written
            ∙ sym (append_assoc (members_calls ms) (call_end_obj ∷ []) _))
        ∙ sym (append_assoc (open_call o ∷ members_calls ms ++ call_end_obj ∷ []) _ rest);
  }
