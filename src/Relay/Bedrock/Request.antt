-- ===== src/Relay/Bedrock/Request.antt =====
-- cmd/relay-core/aws_bedrock.go: an OpenAI chat request as a Nova request.
use test_enclave_newapi.Common.{
  ℤ, pos, negsuc, Bool, true, false, not, ◌||◌, ◌&&◌, List, [], ◌∷◌, ◌++◌, Option, none, some,
  if◌then◌else◌, leb, Result, ok, err, ◌>>=◌,
}
use test_enclave_newapi.Text.{Bytes, codes, str_eq}
use test_enclave_newapi.Url.Percent.{is_empty}
use test_enclave_newapi.Json.Tree.{Json, null, num, str}
use test_enclave_newapi.Json.Strings.{key_is, unquote}
use test_enclave_newapi.Json.Decode.{
  decode_string, decode_bool, decode_int, decode_struct, decode_slice, decode_slice_over,
}
use test_enclave_newapi.Wire.Messages.{max_tokens_limit}
use test_enclave_newapi.Wire.Usage.{store}
use test_enclave_newapi.Relay.Bedrock.Credentials.{
  BedrockError, no_messages, max_tokens_range, bad_content, no_text, bad_role, no_turn, bad_stop,
  guard, ◌>>◌,
}

-- An absent `json.RawMessage` is none.
pub record ChatMessage : Type 0 where
  pub role : Bytes
  pub content : Option Json

-- A nil pointer is none; a float is the text that `json.Marshal` gives for it. `spare` is what the array
-- behind the messages still holds of an earlier key.
pub record ChatRequest : Type 0 where
  pub model : Bytes
  pub stream : Bool
  pub messages : List ChatMessage
  pub spare : List ChatMessage
  pub max_tokens : Option ℤ
  pub temperature : Option Bytes
  pub top_p : Option Bytes
  pub stop : Option Json

unfoldable pub set_message : Bytes → Json → ChatMessage → Option ChatMessage
unfolding key_is decode_string
set_message k j m =
    if key_is (codes "role") k
    then store (decode_string j m.role) (λ v. record m { role = v })
    else if key_is (codes "content") k
    then some (record m { content = some j })
    else some m

abbrev pub is_null : Json → Bool
is_null null = true
is_null _ = false

-- A field of pointer type.
unfoldable pub decode_int_pointer : Json → Option (Option ℤ)
unfolding decode_int
decode_int_pointer j = if is_null j then some none else store (decode_int j (pos 0)) (λ n. some n)

-- `reformat` reads a number literal as a float64 and writes it.
unfoldable pub decode_float_pointer : (Bytes → Option Bytes) → Json → Option (Option Bytes)
decode_float_pointer reformat (num s) = store (reformat s) (λ t. some t)
decode_float_pointer reformat null = some none
decode_float_pointer reformat _ = none

abbrev pub empty_message : ChatMessage
empty_message = record { role = []; content = none }

unfoldable pub set_chat : (Bytes → Option Bytes) → Bytes → Json → ChatRequest → Option ChatRequest
unfolding key_is decode_string decode_bool decode_slice_over decode_struct set_message
    decode_int_pointer decode_float_pointer
set_chat reformat k j r =
    if key_is (codes "model") k
    then store (decode_string j r.model) (λ v. record r { model = v })
    else if key_is (codes "stream") k
    then store (decode_bool j r.stream) (λ v. record r { stream = v })
    else if key_is (codes "messages") k
    then store
        (decode_slice_over (λ e m. decode_struct set_message e m) empty_message j
          (r.messages ++ r.spare))
        (λ v. record r { messages = v.0; spare = v.1 })
    else if key_is (codes "max_tokens") k
    then store (decode_int_pointer j) (λ v. record r { max_tokens = v })
    else if key_is (codes "temperature") k
    then store (decode_float_pointer reformat j) (λ v. record r { temperature = v })
    else if key_is (codes "top_p") k
    then store (decode_float_pointer reformat j) (λ v. record r { top_p = v })
    else if key_is (codes "stop") k
    then some (record r { stop = some j })
    else some r

pub record TextPart : Type 0 where
  pub type_name : Bytes
  pub text : Bytes

unfoldable pub set_part : Bytes → Json → TextPart → Option TextPart
unfolding key_is decode_string
set_part k j p =
    if key_is (codes "type") k
    then store (decode_string j p.type_name) (λ v. record p { type_name = v })
    else if key_is (codes "text") k
    then store (decode_string j p.text) (λ v. record p { text = v })
    else some p

unfoldable pub text_of_parts : List TextPart → Bytes
unfolding str_eq
text_of_parts [] = []
text_of_parts (p ∷ ps) =
    if str_eq p.type_name (codes "text") && not (is_empty p.text)
    then p.text ++ text_of_parts ps
    else text_of_parts ps

abbrev pub empty_part : TextPart
empty_part = record { type_name = []; text = [] }

-- `openAIMessageText`: `null` reads as the empty string.
unfoldable pub message_text : Option Json → Result BedrockError Bytes
unfolding unquote decode_slice decode_struct set_part text_of_parts
message_text none = err bad_content
message_text (some (str s)) = ok (unquote s)
message_text (some null) = ok []
message_text (some j) = elim (decode_slice (λ e. decode_struct set_part e empty_part) j) [
  | none ↦ err bad_content
  | some ps ↦ if is_empty (text_of_parts ps) then err no_text else ok (text_of_parts ps)
]

-- `parseNovaStop`
unfoldable pub parse_nova_stop : Option Json → Result BedrockError (List Bytes)
unfolding unquote decode_slice decode_string
parse_nova_stop none = ok []
parse_nova_stop (some null) = ok []
parse_nova_stop (some (str s)) = if is_empty (unquote s) then ok [] else ok (unquote s ∷ [])
parse_nova_stop (some j) = elim (decode_slice (λ e. decode_string e []) j) [
  | none ↦ err bad_stop
  | some many ↦ ok many
]

pub record NovaMessage : Type 0 where
  pub role : Bytes
  pub text : Bytes

pub record Turns : Type 0 where
  pub system : List Bytes
  pub messages : List NovaMessage

abbrev pub is_system : Bytes → Bool
is_system role = str_eq role (codes "system") || str_eq role (codes "developer")

abbrev pub is_turn : Bytes → Bool
is_turn role = str_eq role (codes "user") || str_eq role (codes "assistant")

-- The loop over the messages, in their order.
unfoldable pub convert_messages : List ChatMessage → Turns → Result BedrockError Turns
convert_messages [] t = ok t
convert_messages (m ∷ ms) t = elim (message_text m.content) [
  | err e ↦ err e
  | ok text ↦ elim (is_system m.role) [
    | true ↦ convert_messages ms (record t { system = t.system ++ text ∷ [] })
    | false ↦ elim (is_turn m.role) [
      | true ↦
          convert_messages ms
            (record t { messages = t.messages ++ record { role = m.role; text = text } ∷ [] })
      | false ↦ err bad_role
    ]
  ]
]

pub record NovaConfig : Type 0 where
  pub max_tokens : Option ℤ
  pub temperature : Option Bytes
  pub top_p : Option Bytes
  pub stop_sequences : List Bytes

pub record NovaRequest : Type 0 where
  pub turns : Turns
  pub config : Option NovaConfig

unfoldable pub tokens_in_range : Option ℤ → Bool
tokens_in_range none = true
tokens_in_range (some (pos n)) = leb n max_tokens_limit
tokens_in_range (some (negsuc n)) = false

abbrev pub no_turns : Turns
no_turns = record { system = []; messages = [] }

unfoldable pub config_of : ChatRequest → List Bytes → Option NovaConfig
config_of r stops = elim r.max_tokens [
  | some n ↦ some (record {
    max_tokens = some n;
    temperature = r.temperature;
    top_p = r.top_p;
    stop_sequences = stops;
  })
  | none ↦ elim r.temperature [
    | some t ↦ some (record {
      max_tokens = none;
      temperature = some t;
      top_p = r.top_p;
      stop_sequences = stops;
    })
    | none ↦ elim r.top_p [
      | some p ↦
          some (record {
            max_tokens = none;
            temperature = none;
            top_p = some p;
            stop_sequences = stops;
          })
      | none ↦ elim stops [
        | [] ↦ none
        | s ∷ ss ↦ some (record {
          max_tokens = none;
          temperature = none;
          top_p = none;
          stop_sequences = s ∷ ss;
        })
      ]
    ]
  ]
]

abbrev pub none_left : {A : Type 0} → List A → Bool
none_left [] = true
none_left (_ ∷ _) = false

-- The conversion of a decoded request.
unfoldable pub to_nova : ChatRequest → Result BedrockError NovaRequest
to_nova r = do
  guard (not (none_left r.messages)) no_messages
  guard (tokens_in_range r.max_tokens) max_tokens_range
  t ← convert_messages r.messages no_turns
  guard (not (none_left t.messages)) no_turn
  stops ← parse_nova_stop r.stop
  ok (record { turns = t; config = config_of r stops })
