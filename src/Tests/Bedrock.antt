-- ===== src/Tests/Bedrock.antt =====
-- cmd/relay-core/aws_bedrock.go on one request with a region in the model name.
use test_enclave_newapi.Common.{pos, ◌≡◌, ◌↔◌, refl, false, [], ◌∷◌, none, some, Result, ok, err}
use test_enclave_newapi.Text.{Bytes, codes}
use test_enclave_newapi.Relay.World.{HttpRequest}
use test_enclave_newapi.Relay.Bedrock.Credentials.{BedrockError}
use test_enclave_newapi.Relay.Bedrock.Call.{prepare_aws_bedrock_request}
use test_enclave_newapi.Relay.Bedrock.Region.{Regional, prepare_aws_bedrock_request-Regional}
use test_enclave_newapi.Relay.Bedrock.Described.{described, prepare_aws_bedrock_request_lem}
use test_enclave_newapi.Relay.Bedrock.Request.{
  ChatRequest, NovaRequest, convert_messages, message_text, parse_nova_stop, config_of,
  tokens_in_range, to_nova,
}
use test_enclave_newapi.Relay.Bedrock.Conversion.{Converted, to_nova_iff}
use test_enclave_newapi.Json.Tree.{str}
use test_enclave_newapi.Json.Strings.{unquote}
use test_enclave_newapi.Json.Octets.{constant}
use test_enclave_newapi.Tests.Relay.{world}

abbrev blank : HttpRequest
blank = record {
  address = [];
  url = record { scheme = []; opaque = []; host = []; path = []; raw_query = [] };
  headers = [];
  body = [];
}

abbrev request_of : Result BedrockError HttpRequest → HttpRequest
request_of (err e) = blank
request_of (ok r) = r

abbrev chat_body : Bytes
chat_body = codes "{\"messages\":[{\"role\":\"user\",\"content\":\"hi\"}]}"

abbrev credentials : Bytes
credentials = codes "AK|SK|us-east-1"

abbrev model_name : Bytes
model_name = codes "nova@eu-west-1"

abbrev prepared : HttpRequest
prepared = request_of (prepare_aws_bedrock_request world chat_body credentials model_name false)

succeeds : prepare_aws_bedrock_request world chat_body credentials model_name false ≡ ok prepared
unfolding prepare_aws_bedrock_request test_enclave_newapi.Official.Rules.normalize_host
    test_enclave_newapi.Official.Rules.as_authority test_enclave_newapi.Official.Rules.host_key
    test_enclave_newapi.Official.Rules.in_family
    test_enclave_newapi.Relay.Bedrock.Credentials.parse_aws_bedrock_credentials
    test_enclave_newapi.Relay.Bedrock.Credentials.parts_checked test_enclave_newapi.Text.split
    test_enclave_newapi.Text.trim_space test_enclave_newapi.Regex.matches
    test_enclave_newapi.Relay.Bedrock.Encode.convert_openai_request_to_nova
    test_enclave_newapi.Relay.Bedrock.Encode.decode_chat
    test_enclave_newapi.Relay.Bedrock.Request.to_nova
    test_enclave_newapi.Relay.Bedrock.Request.tokens_in_range
    test_enclave_newapi.Relay.Bedrock.Request.convert_messages
    test_enclave_newapi.Relay.Bedrock.Request.message_text
    test_enclave_newapi.Relay.Bedrock.Request.parse_nova_stop
    test_enclave_newapi.Official.Rules.is_official_host_suffix
    test_enclave_newapi.Relay.Bedrock.Call.bedrock_host
    test_enclave_newapi.Relay.Bedrock.Call.bedrock_url
    test_enclave_newapi.Relay.Bedrock.Call.routed_model
    test_enclave_newapi.Relay.Bedrock.Call.path_escape
    test_enclave_newapi.Relay.Bedrock.Call.addressed
    test_enclave_newapi.Relay.Bedrock.Call.signed_request
    test_enclave_newapi.Wire.Region.split_model_region test_enclave_newapi.Text.last_cut
    test_enclave_newapi.Url.parse test_enclave_newapi.Url.parse_unfragmented
    test_enclave_newapi.Url.parse_rest test_enclave_newapi.Url.parse_hierarchy
    test_enclave_newapi.Url.with_path test_enclave_newapi.Url.has_control_byte
    test_enclave_newapi.Url.get_scheme test_enclave_newapi.Url.Percent.unescape
    test_enclave_newapi.Url.Address.parse_authority test_enclave_newapi.Text.from
    test_enclave_newapi.Text.before test_enclave_newapi.Text.str_eq
    test_enclave_newapi.Text.to_lower test_enclave_newapi.Text.has_prefix
    test_enclave_newapi.Official.SigV4.Sign.sign_sig_v4
succeeds = refl

prepare_aws_bedrock_request-Regional_example : Regional prepared.url
prepare_aws_bedrock_request-Regional_example =
    prepare_aws_bedrock_request-Regional world chat_body credentials model_name false prepared
      succeeds

prepare_aws_bedrock_request_example :
    prepare_aws_bedrock_request world chat_body credentials model_name false
    ≡ described world chat_body credentials model_name false
prepare_aws_bedrock_request_example =
    prepare_aws_bedrock_request_lem world chat_body credentials model_name false
      (constant model_name refl)

-- A system prompt and a turn, with a limit.
abbrev chat_request : ChatRequest
chat_request = record {
  model = codes "m";
  stream = false;
  messages =
      record { role = codes "developer"; content = some (str (codes "be brief")) }
      ∷ record { role = codes "user"; content = some (str (codes "hi")) }
      ∷ [];
  spare = [];
  max_tokens = some (pos 5);
  temperature = none;
  top_p = none;
  stop = none;
}

abbrev nova_request : NovaRequest
nova_request = record {
  turns = record {
    system = codes "be brief" ∷ [];
    messages = record { role = codes "user"; text = codes "hi" } ∷ [];
  };
  config =
      some (record {
        max_tokens = some (pos 5);
        temperature = none;
        top_p = none;
        stop_sequences = [];
      });
}

converts : to_nova chat_request ≡ ok nova_request
unfolding to_nova convert_messages message_text unquote parse_nova_stop config_of tokens_in_range
    test_enclave_newapi.Text.str_eq
converts = refl

to_nova_iff_example : (to_nova chat_request ≡ ok nova_request) ↔ Converted chat_request nova_request
to_nova_iff_example = to_nova_iff chat_request nova_request
