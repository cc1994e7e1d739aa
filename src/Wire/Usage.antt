-- ===== src/Wire/Usage.antt =====
-- pkg/relaycontrol/wire.go: `PeekUsage` reads the token counts of a response body or stream frame.
use test_enclave_newapi.Common.{
  ℤ, pos, int_eq, add64, ◌≡◌, refl, ◌&&◌, Option, none, some, if◌then◌else◌,
}
use test_enclave_newapi.Text.{Bytes, codes}
use test_enclave_newapi.Json.Tree.{Json}
use test_enclave_newapi.Json.Scan.{parse_json}
use test_enclave_newapi.Json.Strings.{key_is}
use test_enclave_newapi.Json.Decode.{decode_int, decode_struct}

-- The blocks `usage`, `message.usage`, `response.usage` and `usageMetadata`.
pub record TokenBlock : Type 0 where
  pub prompt_tokens : ℤ
  pub completion_tokens : ℤ
  pub total_tokens : ℤ
  pub input_tokens : ℤ
  pub output_tokens : ℤ

pub record MessageBlock : Type 0 where
  pub input_tokens : ℤ
  pub output_tokens : ℤ

pub record ResponseBlock : Type 0 where
  pub input_tokens : ℤ
  pub output_tokens : ℤ
  pub total_tokens : ℤ

pub record GeminiBlock : Type 0 where
  pub prompt_token_count : ℤ
  pub candidates_token_count : ℤ
  pub total_token_count : ℤ
  pub tool_use_prompt_token_count : ℤ
  pub thoughts_token_count : ℤ

pub record UsagePeek : Type 0 where
  pub usage : TokenBlock
  pub message : MessageBlock
  pub response : ResponseBlock
  pub usage_metadata : GeminiBlock

pub record Usage : Type 0 where
  pub prompt_tokens : ℤ
  pub completion_tokens : ℤ
  pub total_tokens : ℤ
  pub image_count : ℤ

abbrev pub no_usage : Usage
no_usage = record {
  prompt_tokens = pos 0;
  completion_tokens = pos 0;
  total_tokens = pos 0;
  image_count = pos 0;
}

abbrev pub empty_peek : UsagePeek
empty_peek = record {
  usage = record {
    prompt_tokens = pos 0;
    completion_tokens = pos 0;
    total_tokens = pos 0;
    input_tokens = pos 0;
    output_tokens = pos 0;
  };
  message = record { input_tokens = pos 0; output_tokens = pos 0 };
  response = record { input_tokens = pos 0; output_tokens = pos 0; total_tokens = pos 0 };
  usage_metadata = record {
    prompt_token_count = pos 0;
    candidates_token_count = pos 0;
    total_token_count = pos 0;
    tool_use_prompt_token_count = pos 0;
    thoughts_token_count = pos 0;
  };
}

-- Stores a decoded value in a struct.
abbrev pub store {ℓ κ} : {A : Type ℓ} {S : Type κ} → Option A → (A → S) → Option S
store none f = none
store (some a) f = some (f a)

unfoldable pub set_usage : Bytes → Json → TokenBlock → Option TokenBlock
unfolding key_is decode_int
set_usage k j u =
    if key_is (codes "prompt_tokens") k
    then store (decode_int j u.prompt_tokens) (λ n. record u { prompt_tokens = n })
    else if key_is (codes "completion_tokens") k
    then store (decode_int j u.completion_tokens) (λ n. record u { completion_tokens = n })
    else if key_is (codes "total_tokens") k
    then store (decode_int j u.total_tokens) (λ n. record u { total_tokens = n })
    else if key_is (codes "input_tokens") k
    then store (decode_int j u.input_tokens) (λ n. record u { input_tokens = n })
    else if key_is (codes "output_tokens") k
    then store (decode_int j u.output_tokens) (λ n. record u { output_tokens = n })
    else some u

unfoldable pub set_message_usage : Bytes → Json → MessageBlock → Option MessageBlock
unfolding key_is decode_int
set_message_usage k j u =
    if key_is (codes "input_tokens") k
    then store (decode_int j u.input_tokens) (λ n. record u { input_tokens = n })
    else if key_is (codes "output_tokens") k
    then store (decode_int j u.output_tokens) (λ n. record u { output_tokens = n })
    else some u

unfoldable pub set_message : Bytes → Json → MessageBlock → Option MessageBlock
unfolding key_is decode_struct set_message_usage
set_message k j u = if key_is (codes "usage") k then decode_struct set_message_usage j u else some u

unfoldable pub set_response_usage : Bytes → Json → ResponseBlock → Option ResponseBlock
unfolding key_is decode_int
set_response_usage k j u =
    if key_is (codes "input_tokens") k
    then store (decode_int j u.input_tokens) (λ n. record u { input_tokens = n })
    else if key_is (codes "output_tokens") k
    then store (decode_int j u.output_tokens) (λ n. record u { output_tokens = n })
    else if key_is (codes "total_tokens") k
    then store (decode_int j u.total_tokens) (λ n. record u { total_tokens = n })
    else some u

unfoldable pub set_response : Bytes → Json → ResponseBlock → Option ResponseBlock
unfolding key_is decode_struct set_response_usage
set_response k j u =
    if key_is (codes "usage") k then decode_struct set_response_usage j u else some u

unfoldable pub set_metadata : Bytes → Json → GeminiBlock → Option GeminiBlock
unfolding key_is decode_int
set_metadata k j u =
    if key_is (codes "promptTokenCount") k
    then store (decode_int j u.prompt_token_count) (λ n. record u { prompt_token_count = n })
    else if key_is (codes "candidatesTokenCount") k
    then store (decode_int j u.candidates_token_count)
        (λ n. record u { candidates_token_count = n })
    else if key_is (codes "totalTokenCount") k
    then store (decode_int j u.total_token_count) (λ n. record u { total_token_count = n })
    else if key_is (codes "toolUsePromptTokenCount") k
    then store (decode_int j u.tool_use_prompt_token_count)
        (λ n. record u { tool_use_prompt_token_count = n })
    else if key_is (codes "thoughtsTokenCount") k
    then store (decode_int j u.thoughts_token_count) (λ n. record u { thoughts_token_count = n })
    else some u

unfoldable pub set_peek : Bytes → Json → UsagePeek → Option UsagePeek
unfolding key_is decode_struct set_usage set_message set_response set_metadata
set_peek k j p =
    if key_is (codes "usage") k
    then store (decode_struct set_usage j p.usage) (λ u. record p { usage = u })
    else if key_is (codes "message") k
    then store (decode_struct set_message j p.message) (λ u. record p { message = u })
    else if key_is (codes "response") k
    then store (decode_struct set_response j p.response) (λ u. record p { response = u })
    else if key_is (codes "usageMetadata") k
    then store (decode_struct set_metadata j p.usage_metadata)
        (λ u. record p { usage_metadata = u })
    else some p

-- `if a == 0 { a = b }`
abbrev pub or_else : ℤ → ℤ → ℤ
or_else a b = if int_eq a (pos 0) then b else a

-- The selection that `PeekUsage` makes among the decoded blocks.
unfoldable pub select_usage : UsagePeek → Option Usage
select_usage p =
    let g = p.usage_metadata in
    let prompt =
      or_else
        (or_else
          (or_else (or_else p.usage.prompt_tokens p.usage.input_tokens) p.message.input_tokens)
          p.response.input_tokens)
        (add64 g.prompt_token_count g.tool_use_prompt_token_count) in
    let completion =
      or_else
        (or_else
          (or_else (or_else p.usage.completion_tokens p.usage.output_tokens)
            p.message.output_tokens)
          p.response.output_tokens)
        (add64 g.candidates_token_count g.thoughts_token_count) in
    let total =
      or_else (or_else p.usage.total_tokens p.response.total_tokens) g.total_token_count in
    if int_eq prompt (pos 0) && int_eq completion (pos 0) && int_eq total (pos 0)
    then none
    else some (record {
      prompt_tokens = prompt;
      completion_tokens = completion;
      total_tokens = or_else total (add64 prompt completion);
      image_count = pos 0;
    })

unfoldable pub peek_usage : Bytes → Option Usage
unfolding parse_json decode_struct set_peek select_usage
peek_usage chunk = elim (parse_json chunk) [
  | none ↦ none
  | some j ↦ elim (decode_struct set_peek j empty_peek) [ none ↦ none | some p ↦ select_usage p ]
]

shapes :
    (peek_usage (codes "{\"usage\":{\"prompt_tokens\":3,\"completion_tokens\":4}}")
      ≡ some (record {
        prompt_tokens = pos 3;
        completion_tokens = pos 4;
        total_tokens = pos 7;
        image_count = pos 0;
      }))
    × (peek_usage (codes "{\"message\":{\"usage\":{\"input_tokens\":5}}}")
        ≡ some (record {
          prompt_tokens = pos 5;
          completion_tokens = pos 0;
          total_tokens = pos 5;
          image_count = pos 0;
        }))
    × (peek_usage (
          codes
            "{\"usageMetadata\":{\"promptTokenCount\":2,\"thoughtsTokenCount\":9,\"totalTokenCount\":11}}")
        ≡ some (record {
          prompt_tokens = pos 2;
          completion_tokens = pos 9;
          total_tokens = pos 11;
          image_count = pos 0;
        }))
    × (peek_usage (codes "{\"choices\":[]}") ≡ none)
unfolding peek_usage
shapes = (refl, refl, refl, refl)
