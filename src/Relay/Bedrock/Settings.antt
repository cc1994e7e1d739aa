-- ===== src/Relay/Bedrock/Settings.antt =====
-- cmd/relay-core/aws_bedrock.go: the limit, the stop texts and the settings of a request.
use test_enclave_newapi.Common.{
  ℕ, ℤ, pos, negsuc, ◌≤◌, ◌≡◌, ◌⊎◌, refl, inl, inr, true, false, List, [], ◌∷◌, Option, none, some,
  arith, Bool-cases, Option-cases, ok, ok_inj,
}
use test_enclave_newapi.Text.{Bytes}
use test_enclave_newapi.Url.Percent.{is_empty}
use test_enclave_newapi.Json.Tree.{Json, Items, nil, cons, null, bool, num, str, arr, obj}
use test_enclave_newapi.Json.Strings.{unquote}
use test_enclave_newapi.Json.Decode.{decode_string, decode_slice, decode_items}
use test_enclave_newapi.Relay.Bedrock.Request.{
  ChatRequest, NovaConfig, tokens_in_range, parse_nova_stop, config_of,
}

-- No limit of tokens, or one from 0 to 1073741823.
pub data InRange : Option ℤ → Type 0 where
  unlimited : InRange none
  limited : (n : ℕ) → n ≤ 1_073_741_823 → InRange (some (pos n))

pub tokens-InRange : (x : Option ℤ) → tokens_in_range x ≡ true → InRange x
unfolding tokens_in_range
tokens-InRange none h = unlimited
tokens-InRange (some (pos n)) h = limited n (ground arith)
tokens-InRange (some (negsuc n)) h = absurd (cc h)

pub InRange-tokens : (x : Option ℤ) → InRange x → tokens_in_range x ≡ true
unfolding tokens_in_range
InRange-tokens _ unlimited = refl
InRange-tokens _ (limited n h) = ground arith

-- The texts of a list; null is the empty text.
pub data Texts : Items → List Bytes → Type 0 where
  no_texts : Texts nil []
  one_text :
      (s : Bytes) {js : Items} {ts : List Bytes}
      → Texts js ts
      → Texts (cons (str s) js) (unquote s ∷ ts)
  null_text : {js : Items} {ts : List Bytes} → Texts js ts → Texts (cons null js) ([] ∷ ts)

-- The stop texts of an absent stop or null, of a text, and of a list of texts.
pub data Stops : Option Json → List Bytes → Type 0 where
  absent : Stops none []
  nulled : Stops (some null) []
  blank : (s : Bytes) → unquote s ≡ [] → Stops (some (str s)) []
  single : (s : Bytes) → ¬ (unquote s ≡ []) → Stops (some (str s)) (unquote s ∷ [])
  several : (js : Items) (ts : List Bytes) → Texts js ts → Stops (some (arr js)) ts

abbrev read_text : Json → Option Bytes
read_text e = decode_string e []

text_then :
    (j : Json) (js : Items) (x : Bytes) (ts : List Bytes)
    → read_text j ≡ some x
    → decode_items read_text (cons j js) ≡ some ts
    → (us : List Bytes) × (decode_items read_text js ≡ some us) × (x ∷ us ≡ ts)
unfolding decode_items
text_then j js x ts e h = elim (Option-cases (decode_items read_text js)) [
  | inl n ↦ absurd (cc (rw (e, n, decode_items) at h))
  | inr (us, f) ↦ (us, f, cc (rw (e, f, decode_items) at h))
]

items-Texts : (js : Items) (ts : List Bytes) → decode_items read_text js ≡ some ts → Texts js ts
unfolding decode_items decode_string
items-Texts nil ts h = let e : [] ≡ ts = cc h in rw (← e) no_texts
items-Texts (cons (str s) js) ts h =
    let (us, f, e) = text_then (str s) js (unquote s) ts refl h in
    rw (← e) (one_text s (items-Texts js us f))
items-Texts (cons null js) ts h =
    let (us, f, e) = text_then null js [] ts refl h in rw (← e) (null_text (items-Texts js us f))
items-Texts (cons (bool b) js) ts h = absurd (cc h)
items-Texts (cons (num s) js) ts h = absurd (cc h)
items-Texts (cons (arr k) js) ts h = absurd (cc h)
items-Texts (cons (obj m) js) ts h = absurd (cc h)

Texts-items : (js : Items) (ts : List Bytes) → Texts js ts → decode_items read_text js ≡ some ts
unfolding decode_items decode_string
Texts-items _ _ no_texts = refl
Texts-items _ _ (one_text s {js} {ts} t) = rw (decode_items, Texts-items js ts t) refl
Texts-items _ _ (null_text {js} {ts} t) = rw (decode_items, Texts-items js ts t) refl

empty_iff : (s : Bytes) → is_empty s ≡ true → s ≡ []
empty_iff [] h = refl
empty_iff (c ∷ s) h = cc

not_empty : (s : Bytes) → ¬ (s ≡ []) → is_empty s ≡ false
not_empty [] n = absurd (n refl)
not_empty (c ∷ s) n = refl

pub stop-Stops : (j : Option Json) (ts : List Bytes) → parse_nova_stop j ≡ ok ts → Stops j ts
unfolding parse_nova_stop decode_slice
stop-Stops none ts h = rw (← ok_inj h) absent
stop-Stops (some null) ts h = rw (← ok_inj h) nulled
stop-Stops (some (bool b)) ts h = absurd (cc h)
stop-Stops (some (num s)) ts h = absurd (cc h)
stop-Stops (some (obj m)) ts h = absurd (cc h)
stop-Stops (some (str s)) ts h = elim (Bool-cases (is_empty (unquote s))) [
  | inl y ↦ rw (← ok_inj (rw (y, parse_nova_stop) at h)) (blank s (empty_iff (unquote s) y))
  | inr f ↦ rw (← ok_inj (rw (f, parse_nova_stop) at h)) (single s (λ e. absurd (cc (rw e at f))))
]
stop-Stops (some (arr js)) ts h = elim (Option-cases (decode_items read_text js)) [
  | inl n ↦ absurd (cc (rw (n, parse_nova_stop) at h))
  | inr (us, e) ↦ rw (← ok_inj (rw (e, parse_nova_stop) at h)) (several js us (items-Texts js us e))
]

pub Stops-stop : (j : Option Json) (ts : List Bytes) → Stops j ts → parse_nova_stop j ≡ ok ts
unfolding parse_nova_stop decode_slice
Stops-stop _ _ absent = refl
Stops-stop _ _ nulled = refl
Stops-stop _ _ (blank s e) = rw (parse_nova_stop, e) refl
Stops-stop _ _ (single s n) = rw (parse_nova_stop, not_empty (unquote s) n) refl
Stops-stop _ _ (several js ts t) = rw (parse_nova_stop, Texts-items js ts t) refl

-- No setting is given.
abbrev pub Unset : ChatRequest → List Bytes → Type 0
Unset r stops = (r.max_tokens ≡ none) × (r.temperature ≡ none) × (r.top_p ≡ none) × (stops ≡ [])

abbrev pub settings : ChatRequest → List Bytes → NovaConfig
settings r stops = record {
  max_tokens = r.max_tokens;
  temperature = r.temperature;
  top_p = r.top_p;
  stop_sequences = stops;
}

-- All settings, or none where no one is given.
pub data Configured (r : ChatRequest) (stops : List Bytes) : Option NovaConfig → Type 0 where
  unset : Unset r stops → Configured r stops none
  given : ¬ Unset r stops → Configured r stops (some (settings r stops))

-- Where one is given, all of them are the request's.
config_of-given :
    (r : ChatRequest) (stops : List Bytes)
    → Unset r stops ⊎ (¬ Unset r stops × (config_of r stops ≡ some (settings r stops)))
unfolding config_of
config_of-given r stops = elim (Option-cases r.max_tokens) [
  | inr (n, e) ↦ inr ((λ u. absurd (cc (e, u.0))), simp (e, config_of))
  | inl a ↦ elim (Option-cases r.temperature) [
    | inr (n, e) ↦ inr ((λ u. absurd (cc (e, u.1))), simp (a, e, config_of))
    | inl b ↦ elim (Option-cases r.top_p) [
      | inr (n, e) ↦ inr ((λ u. absurd (cc (e, u.2))), simp (a, b, e, config_of))
      | inl c ↦
          elim stops
            as (λ ss. Unset r ss ⊎ (¬ Unset r ss × (config_of r ss ≡ some (settings r ss)))) [
              | [] ↦ inl (a, b, c, refl)
              | s ∷ ss ↦ inr ((λ u. absurd (cc u.3)), simp (a, b, c, config_of))
            ]
    ]
  ]
]

config_of-Unset : (r : ChatRequest) (stops : List Bytes) → Unset r stops → config_of r stops ≡ none
unfolding config_of
config_of-Unset r stops (a, b, c, d) = rw (config_of, a, b, c, d) refl

pub config_of-Configured :
    (r : ChatRequest) (stops : List Bytes) → Configured r stops (config_of r stops)
config_of-Configured r stops = elim (config_of-given r stops) [
  | inl u ↦ rw (config_of-Unset r stops u) (unset u)
  | inr (n, e) ↦ rw e (given n)
]

pub Configured-unique :
    (r : ChatRequest) (stops : List Bytes) (c d : Option NovaConfig)
    → Configured r stops c
    → Configured r stops d
    → c ≡ d
Configured-unique r stops _ _ (unset u) (unset v) = refl
Configured-unique r stops _ _ (unset u) (given v) = absurd (v u)
Configured-unique r stops _ _ (given u) (unset v) = absurd (u v)
Configured-unique r stops _ _ (given u) (given v) = refl
