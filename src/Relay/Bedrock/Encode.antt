-- ===== src/Relay/Bedrock/Encode.antt =====
-- cmd/relay-core/aws_bedrock.go: the Nova request as JSON, and `convertOpenAIRequestToNova`.
use test_enclave_newapi.Common.{
  ℤ, pos, negsuc, suc, zero, ◌≡◌, refl, false, List, [], ◌∷◌, ◌++◌, Option, none, some, map, Result,
  ok, err,
}
use test_enclave_newapi.Text.{Bytes, codes}
use test_enclave_newapi.Json.Tree.{Json, num, str, arr, obj, of_fields, of_items}
use test_enclave_newapi.Json.Scan.{parse_json}
use test_enclave_newapi.Json.Decode.{decode_struct}
use test_enclave_newapi.Json.Strings.{quote}
use test_enclave_newapi.Text.{str_eq}
use test_enclave_newapi.Json.Print.{print, string_value}
use test_enclave_newapi.Relay.Tokens.{digits_of}
use test_enclave_newapi.Relay.Bedrock.Credentials.{BedrockError, bad_request}
use test_enclave_newapi.Relay.Bedrock.Request.{
  ChatRequest, set_chat, NovaMessage, NovaConfig, NovaRequest, to_nova, convert_messages,
  message_text, config_of, parse_nova_stop, tokens_in_range,
}

-- The decimal text of an int64.
unfoldable pub int_text : ℤ → Bytes
unfolding digits_of
int_text (pos zero) = codes "0"
int_text (pos (suc n)) = digits_of 20 (suc n) []
int_text (negsuc n) = b'-' ∷ digits_of 20 (suc n) []

abbrev pub int_value : ℤ → Json
int_value n = num (int_text n)

-- A field that `omitempty` drops.
abbrev pub optional_field : Bytes → Option Json → List (Bytes × Json)
optional_field k none = []
optional_field k (some j) = (k, j) ∷ []

abbrev pub text_block : Bytes → Json
text_block t = obj (of_fields ((codes "text", string_value t) ∷ []))

abbrev pub unless_empty : List Json → Option Json
unless_empty [] = none
unless_empty (j ∷ js) = some (arr (of_items (j ∷ js)))

abbrev pub message_value : NovaMessage → Json
message_value m = obj (
    of_fields (
      (codes "role", string_value m.role)
      ∷ (codes "content", arr (of_items (text_block m.text ∷ [])))
      ∷ []))

abbrev pub map_option {ℓ κ} : {A : Type ℓ} {B : Type κ} → (A → B) → Option A → Option B
map_option f none = none
map_option f (some a) = some (f a)

abbrev pub config_value : NovaConfig → Json
config_value c = obj (
    of_fields (
      optional_field (codes "maxTokens") (map_option int_value c.max_tokens)
      ++ (optional_field (codes "temperature") (map_option num c.temperature)
          ++ (optional_field (codes "topP") (map_option num c.top_p)
              ++ optional_field (codes "stopSequences")
                  (unless_empty (map string_value c.stop_sequences))))))

unfoldable pub nova_value : NovaRequest → Json
unfolding int_text
nova_value r = obj (
    of_fields (
      (codes "schemaVersion", string_value (codes "messages-v1"))
      ∷ (optional_field (codes "system") (unless_empty (map text_block r.turns.system))
          ++ ((codes "messages", arr (of_items (map message_value r.turns.messages)))
              ∷ optional_field (codes "inferenceConfig") (map_option config_value r.config)))))

abbrev empty_chat : ChatRequest
empty_chat = record {
  model = [];
  stream = false;
  messages = [];
  spare = [];
  max_tokens = none;
  temperature = none;
  top_p = none;
  stop = none;
}

unfoldable pub decode_chat : (Bytes → Option Bytes) → Bytes → Option ChatRequest
unfolding parse_json decode_struct set_chat
decode_chat reformat body = elim (parse_json body) [
  | none ↦ none
  | some j ↦ decode_struct (set_chat reformat) j empty_chat
]

unfoldable pub convert_openai_request_to_nova :
    (Bytes → Option Bytes) → Bytes → Result BedrockError Bytes
convert_openai_request_to_nova reformat body = elim (decode_chat reformat body) [
  | none ↦ err bad_request
  | some r ↦ elim (to_nova r) [ err e ↦ err e | ok n ↦ ok (print (nova_value n)) ]
]

-- A repeated key decodes onto the messages of the first one.
repeated_messages :
    map_option
      (λ r. r.messages)
      (decode_chat
        (λ s. none)
        (codes
          "{\"messages\":[{\"role\":\"user\",\"content\":\"a\"}],\"messages\":[{\"content\":\"b\"}]}"))
    ≡ some (record { role = codes "user"; content = some (str (codes "b")) } ∷ [])
unfolding decode_chat
repeated_messages = refl

abbrev same_text : Bytes → Option Bytes
same_text s = some s

converted :
    convert_openai_request_to_nova same_text (
      codes
        "{\"model\":\"m\",\"messages\":[{\"role\":\"system\",\"content\":\"s\"},{\"role\":\"user\",\"content\":[{\"type\":\"text\",\"text\":\"hi\"}]}],\"max_tokens\":5}")
    ≡ ok (
        codes
          "{\"schemaVersion\":\"messages-v1\",\"system\":[{\"text\":\"s\"}],\"messages\":[{\"role\":\"user\",\"content\":[{\"text\":\"hi\"}]}],\"inferenceConfig\":{\"maxTokens\":5}}")
unfolding quote str_eq convert_openai_request_to_nova decode_chat to_nova nova_value print
    convert_messages message_text config_of parse_nova_stop tokens_in_range
converted = refl
