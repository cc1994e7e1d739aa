-- ===== src/Relay/Bedrock/Response.antt =====
-- cmd/relay-core/aws_bedrock.go: a Nova response as an OpenAI response.
use test_enclave_newapi.Common.{
  ℤ, pos, ◌≡◌, refl, ◌||◌, List, [], ◌∷◌, ◌++◌, Option, none, some, if◌then◌else◌, add64, int_eq,
}
use test_enclave_newapi.Text.{Bytes, codes, str_eq}
use test_enclave_newapi.Url.Percent.{is_empty}
use test_enclave_newapi.Json.Tree.{Json, arr, obj, of_fields, of_items}
use test_enclave_newapi.Json.Scan.{parse_json}
use test_enclave_newapi.Json.Strings.{key_is, quote}
use test_enclave_newapi.Json.Decode.{decode_string, decode_int, decode_struct, decode_slice_over}
use test_enclave_newapi.Json.Print.{print, string_value}
use test_enclave_newapi.Wire.Usage.{Usage, store}
use test_enclave_newapi.Relay.Bedrock.Encode.{int_value, int_text}

-- `spare` is what the array behind the blocks still holds of an earlier key.
pub record NovaResponse : Type 0 where
  pub blocks : List Bytes
  pub spare : List Bytes
  pub stop_reason : Bytes
  pub input_tokens : ℤ
  pub output_tokens : ℤ
  pub total_tokens : ℤ

abbrev empty_response : NovaResponse
empty_response = record {
  blocks = [];
  spare = [];
  stop_reason = [];
  input_tokens = pos 0;
  output_tokens = pos 0;
  total_tokens = pos 0;
}

unfoldable pub set_block : Bytes → Json → Bytes → Option Bytes
unfolding key_is decode_string
set_block k j t = if key_is (codes "text") k then decode_string j t else some t

unfoldable pub set_content : Bytes → Json → NovaResponse → Option NovaResponse
unfolding key_is decode_slice_over decode_struct set_block
set_content k j r =
    if key_is (codes "content") k
    then store (decode_slice_over (λ e b. decode_struct set_block e b) [] j (r.blocks ++ r.spare))
        (λ v. record r { blocks = v.0; spare = v.1 })
    else some r

unfoldable pub set_output : Bytes → Json → NovaResponse → Option NovaResponse
unfolding key_is decode_struct set_content
set_output k j r = if key_is (codes "message") k then decode_struct set_content j r else some r

unfoldable pub set_tokens : Bytes → Json → NovaResponse → Option NovaResponse
unfolding key_is decode_int
set_tokens k j r =
    if key_is (codes "inputTokens") k
    then store (decode_int j r.input_tokens) (λ v. record r { input_tokens = v })
    else if key_is (codes "outputTokens") k
    then store (decode_int j r.output_tokens) (λ v. record r { output_tokens = v })
    else if key_is (codes "totalTokens") k
    then store (decode_int j r.total_tokens) (λ v. record r { total_tokens = v })
    else some r

unfoldable pub set_response : Bytes → Json → NovaResponse → Option NovaResponse
unfolding key_is decode_struct decode_string set_output set_tokens
set_response k j r =
    if key_is (codes "output") k
    then decode_struct set_output j r
    else if key_is (codes "stopReason") k
    then store (decode_string j r.stop_reason) (λ v. record r { stop_reason = v })
    else if key_is (codes "usage") k
    then decode_struct set_tokens j r
    else some r

unfoldable pub decode_nova_response : Bytes → Option NovaResponse
unfolding parse_json decode_struct set_response
decode_nova_response body = elim (parse_json body) [
  | none ↦ none
  | some j ↦ decode_struct set_response j empty_response
]

unfoldable pub nova_finish_reason : Bytes → Bytes
unfolding str_eq
nova_finish_reason reason =
    if str_eq reason (codes "max_tokens") || str_eq reason (codes "maxTokens")
    then codes "length"
    else codes "stop"

abbrev pub joined : List Bytes → Bytes
joined [] = []
joined (t ∷ ts) = t ++ joined ts

unfoldable pub nova_usage : NovaResponse → Usage
nova_usage r = record {
  prompt_tokens = r.input_tokens;
  completion_tokens = r.output_tokens;
  total_tokens =
      if int_eq r.total_tokens (pos 0)
      then add64 r.input_tokens r.output_tokens
      else r.total_tokens;
  image_count = pos 0;
}

unfoldable pub openai_value : NovaResponse → Bytes → Bytes → ℤ → Json
unfolding int_text
openai_value r model request_id created = obj (
    of_fields (
      (
        codes "id",
        string_value (if is_empty request_id then codes "chatcmpl-bedrock" else request_id),
      )
      ∷ (codes "object", string_value (codes "chat.completion"))
      ∷ (codes "created", int_value created)
      ∷ (codes "model", string_value model)
      ∷ (
        codes "choices",
        arr (
            of_items (
              obj (
                of_fields (
                  (codes "index", int_value (pos 0))
                  ∷ (
                    codes "message",
                    obj (
                        of_fields (
                          (codes "role", string_value (codes "assistant"))
                          ∷ (codes "content", string_value (joined r.blocks))
                          ∷ [])),
                  )
                  ∷ (codes "finish_reason", string_value (nova_finish_reason r.stop_reason))
                  ∷ []))
              ∷ [])),
      )
      ∷ (
        codes "usage",
        obj (
            of_fields (
              (codes "prompt_tokens", int_value (nova_usage r).prompt_tokens)
              ∷ (codes "completion_tokens", int_value (nova_usage r).completion_tokens)
              ∷ (codes "total_tokens", int_value (nova_usage r).total_tokens)
              ∷ [])),
      )
      ∷ []))

-- The response for the client and the usage; none where the body is no Nova response.
unfoldable pub convert_nova_response_to_openai : Bytes → Bytes → Bytes → ℤ → Option (Bytes × Usage)
convert_nova_response_to_openai body model request_id created = elim (decode_nova_response body) [
  | none ↦ none
  | some r ↦ some (print (openai_value r model request_id created), nova_usage r)
]

answer :
    convert_nova_response_to_openai
      (codes
        "{\"output\":{\"message\":{\"content\":[{\"text\":\"a\"},{\"text\":\"b\"}]}},\"stopReason\":\"max_tokens\",\"usage\":{\"inputTokens\":1,\"outputTokens\":2}}")
      (codes "m")
      []
      (pos 7)
    ≡ some (
      codes
          "{\"id\":\"chatcmpl-bedrock\",\"object\":\"chat.completion\",\"created\":7,\"model\":\"m\",\"choices\":[{\"index\":0,\"message\":{\"role\":\"assistant\",\"content\":\"ab\"},\"finish_reason\":\"length\"}],\"usage\":{\"prompt_tokens\":1,\"completion_tokens\":2,\"total_tokens\":3}}",
      record {
        prompt_tokens = pos 1;
        completion_tokens = pos 2;
        total_tokens = pos 3;
        image_count = pos 0;
      },
    )
unfolding quote convert_nova_response_to_openai decode_nova_response openai_value nova_usage
    nova_finish_reason print
answer = refl
