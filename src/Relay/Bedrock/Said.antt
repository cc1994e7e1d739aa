-- ===== src/Relay/Bedrock/Said.antt =====
-- cmd/relay-core/aws_bedrock.go, `openAIMessageText`: what a message's content says.
use test_enclave_newapi.Common.{
  ◌≡◌, ◌≢◌, refl, sym, ap, ◌∙◌, inl, inr, true, false, List, [], ◌∷◌, ◌++◌, Option, none, some,
  Bool-cases, Option-cases, ok, ok_inj,
}
use test_enclave_newapi.Text.{Bytes, codes, str_eq}
use test_enclave_newapi.Text.Laws.{eq_of_str_eq, str_eq_refl}
use test_enclave_newapi.Url.Percent.{is_empty}
use test_enclave_newapi.Json.Tree.{Json, Items, null, bool, num, str, arr, obj}
use test_enclave_newapi.Json.Strings.{unquote}
use test_enclave_newapi.Json.Decode.{decode_struct, decode_slice, decode_items}
use test_enclave_newapi.Relay.Bedrock.Request.{
  TextPart, set_part, empty_part, text_of_parts, message_text,
}

-- The texts of the parts of the type "text", one after the other.
pub data Parts : List TextPart → Bytes → Type 0 where
  no_parts : Parts [] []
  text_part :
      (p : TextPart) {ps : List TextPart} {t : Bytes}
      → p.type_name ≡ codes "text"
      → Parts ps t
      → Parts (p ∷ ps) (p.text ++ t)
  other_part :
      (p : TextPart) {ps : List TextPart} {t : Bytes}
      → p.type_name ≢ codes "text"
      → Parts ps t
      → Parts (p ∷ ps) t

-- A text, or null for the empty text, or a list of parts with some text.
pub data Said : Option Json → Bytes → Type 0 where
  text : (s : Bytes) → Said (some (str s)) (unquote s)
  nothing : Said (some null) []
  parts :
      (js : Items) (ps : List TextPart) (t : Bytes)
      → decode_items (λ e. decode_struct set_part e empty_part) js ≡ some ps
      → Parts ps t
      → is_empty t ≡ false
      → Said (some (arr js)) t

differs : (a b : Bytes) → str_eq a b ≡ false → a ≢ b
differs a b f e = absurd (cc (rw (e, str_eq_refl) at f))

str_eq_differs : (a b : Bytes) → a ≢ b → str_eq a b ≡ false
str_eq_differs a b n = elim (Bool-cases (str_eq a b)) [
  | inl y ↦ absurd (n (eq_of_str_eq a b y))
  | inr f ↦ f
]

text_added :
    (p : TextPart) (ps : List TextPart)
    → str_eq p.type_name (codes "text") ≡ true
    → text_of_parts (p ∷ ps) ≡ p.text ++ text_of_parts ps
unfolding text_of_parts
text_added p ps y = elim (Bool-cases (is_empty p.text)) [
  | inr f ↦ rw (text_of_parts, y, f) refl
  | inl e ↦ rw (text_of_parts, y, e) (ap (λ t. t ++ text_of_parts ps) (sym (empty p.text e)))
]
  where
    empty : (s : Bytes) → is_empty s ≡ true → s ≡ []
    empty [] h = refl
    empty (c ∷ s) h = cc

text_skipped :
    (p : TextPart) (ps : List TextPart)
    → str_eq p.type_name (codes "text") ≡ false
    → text_of_parts (p ∷ ps) ≡ text_of_parts ps
unfolding text_of_parts
text_skipped p ps f = rw (text_of_parts, f) refl

text_of_parts-Parts : (ps : List TextPart) → Parts ps (text_of_parts ps)
unfolding text_of_parts
text_of_parts-Parts [] = no_parts
text_of_parts-Parts (p ∷ ps) = elim (Bool-cases (str_eq p.type_name (codes "text"))) [
  | inl y ↦
      rw (text_added p ps y)
        (text_part p (eq_of_str_eq p.type_name (codes "text") y) (text_of_parts-Parts ps))
  | inr f ↦
      rw (text_skipped p ps f)
        (other_part p (differs p.type_name (codes "text") f) (text_of_parts-Parts ps))
]

Parts-text_of_parts : (ps : List TextPart) (t : Bytes) → Parts ps t → text_of_parts ps ≡ t
unfolding text_of_parts
Parts-text_of_parts _ _ no_parts = refl
Parts-text_of_parts _ _ (text_part p {ps} {t} e q) =
    text_added p ps (ap (λ s. str_eq s (codes "text")) e ∙ str_eq_refl (codes "text"))
    ∙ ap (λ s. p.text ++ s) (Parts-text_of_parts ps t q)
Parts-text_of_parts _ _ (other_part p {ps} {t} n q) =
    text_skipped p ps (str_eq_differs p.type_name (codes "text") n) ∙ Parts-text_of_parts ps t q

pub message_text-Said : (c : Option Json) (t : Bytes) → message_text c ≡ ok t → Said c t
unfolding message_text decode_slice
message_text-Said none t h = absurd (cc h)
message_text-Said (some null) t h = rw (← ok_inj h) nothing
message_text-Said (some (bool b)) t h = absurd (cc h)
message_text-Said (some (num s)) t h = absurd (cc h)
message_text-Said (some (str s)) t h = rw (← ok_inj h) (text s)
message_text-Said (some (obj m)) t h = absurd (cc h)
message_text-Said (some (arr js)) t h =
    elim (Option-cases (decode_items (λ e. decode_struct set_part e empty_part) js)) [
      | inl n ↦ absurd (cc (rw (n, message_text) at h))
      | inr (ps, e) ↦ elim (Bool-cases (is_empty (text_of_parts ps))) [
        | inl y ↦ absurd (cc (rw (e, y, message_text) at h))
        | inr f ↦
            rw (← ok_inj (rw (e, f, message_text) at h))
              (parts js ps (text_of_parts ps) e (text_of_parts-Parts ps) f)
      ]
    ]

pub Said-message_text : (c : Option Json) (t : Bytes) → Said c t → message_text c ≡ ok t
unfolding message_text decode_slice
Said-message_text _ _ (text s) = refl
Said-message_text _ _ nothing = refl
Said-message_text _ _ (parts js ps t e p f) =
    let x = Parts-text_of_parts ps t p in rw (message_text, e, x, f) refl
