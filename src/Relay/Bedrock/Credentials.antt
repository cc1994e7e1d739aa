-- ===== src/Relay/Bedrock/Credentials.antt =====
-- cmd/relay-core/aws_bedrock.go: the errors of the Bedrock path, and its credentials.
use test_enclave_newapi.Common.{
  ◌≡◌, refl, Bool, true, false, List, [], ◌∷◌, if◌then◌else◌, any, Result, ok, err, ◌>>=◌,
}
use test_enclave_newapi.Text.{Bytes, codes, split, trim_space}
use test_enclave_newapi.Url.Percent.{is_empty}
use test_enclave_newapi.Regex.{matches}
use test_enclave_newapi.Wire.Region.{aws_region_pattern}

pub data BedrockError : Type 0 where
  field_count empty_field bad_region : BedrockError
  bad_request no_messages max_tokens_range bad_content no_text bad_role no_turn bad_stop :
      BedrockError
  streaming unofficial_host bad_url unsigned : BedrockError

abbrev pub guard : Bool → BedrockError → Result BedrockError (Unit {0})
guard true e = ok tt
guard false e = err e

infixl 5 ◌>>◌
abbrev pub ◌>>◌ :
    {B : Type 0} → Result BedrockError (Unit {0}) → Result BedrockError B → Result BedrockError B
m >> k = m >>= λ _. k

pub record Credentials : Type 0 where
  pub access_key : Bytes
  pub secret_key : Bytes
  pub region : Bytes
  pub session_token : Bytes

abbrev pub has_blank : List Bytes → Bool
has_blank parts = any (λ p. is_empty (trim_space p)) parts

-- The fields of a key with three or four parts.
unfoldable pub checked : Bytes → Bytes → Bytes → Bytes → Result BedrockError Credentials
checked access secret region token =
    if matches aws_region_pattern (trim_space region)
    then ok (record {
      access_key = trim_space access;
      secret_key = trim_space secret;
      region = trim_space region;
      session_token = trim_space token;
    })
    else err bad_region

unfoldable pub parts_checked : List Bytes → Result BedrockError Credentials
unfolding checked
parts_checked (a ∷ s ∷ r ∷ []) =
    if has_blank (a ∷ s ∷ r ∷ []) then err empty_field else checked a s r []
parts_checked (a ∷ s ∷ r ∷ t ∷ []) =
    if has_blank (a ∷ s ∷ r ∷ t ∷ []) then err empty_field else checked a s r t
parts_checked _ = err field_count

unfoldable pub parse_aws_bedrock_credentials : Bytes → Result BedrockError Credentials
parse_aws_bedrock_credentials raw = parts_checked (split raw b'|')

credentials :
    (parse_aws_bedrock_credentials (codes " AK |SK|us-east-1")
      ≡ ok (record {
        access_key = codes "AK";
        secret_key = codes "SK";
        region = codes "us-east-1";
        session_token = [];
      }))
    × (parse_aws_bedrock_credentials (codes "AK|SK|us-east-1| ") ≡ err empty_field)
    × (parse_aws_bedrock_credentials (codes "AK|SK|evil.com/") ≡ err bad_region)
    × (parse_aws_bedrock_credentials (codes "AK|SK") ≡ err field_count)
unfolding parse_aws_bedrock_credentials parts_checked split trim_space matches
credentials = (refl, refl, refl, refl)
