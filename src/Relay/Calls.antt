-- ===== src/Relay/Calls.antt =====
-- cmd/relay-core: every upstream call that `serveRelay` makes goes to an official address, and what it
-- carries.
use test_enclave_newapi.Common.{◌≡◌, ap, ◌∙◌, true, false, some, ok}
use test_enclave_newapi.Text.{Bytes}
use test_enclave_newapi.Url.{parse}
use test_enclave_newapi.Wire.Messages.{SelectChannelResponse}
use test_enclave_newapi.Official.Profiles.{supports_official}
use test_enclave_newapi.Relay.World.{HttpRequest, World}
use test_enclave_newapi.Relay.Bedrock.Call.{aws_bedrock_channel_type, prepare_aws_bedrock_request}
use test_enclave_newapi.Relay.Bedrock.Encode.{convert_openai_request_to_nova}
use test_enclave_newapi.Relay.Route.{Routing}
use test_enclave_newapi.Relay.Officiality.{OfficialAddress, by_region}
use test_enclave_newapi.Relay.Bedrock.Prepared.{prepare_aws_bedrock_request-Prepared}

-- The call is addressed to a URL that `url.Parse` accepts and that is official for the channel.
pub record OfficialCall (sel : SelectChannelResponse) (in_path : Bytes) (c : HttpRequest)
    : Type 0 where
  pub parsed : parse c.address ≡ some c.url
  pub official : OfficialAddress sel in_path c.address

-- What a call carries of the body that the routing hands on: this body, or, for AWS Bedrock and without
-- streaming, its conversion.
pub data Carried (w : World) (rt : Routing) (c : HttpRequest) : Type 0 where
  verbatim : c.body ≡ rt.body → Carried w rt c
  translated :
      rt.is_stream ≡ false
      → convert_openai_request_to_nova w.reformat_float rt.body ≡ ok c.body
      → Carried w rt c

pub record ProviderCall (w : World) (rt : Routing) (sel : SelectChannelResponse) (in_path : Bytes)
    (c : HttpRequest) : Type 0 where
  pub official : OfficialCall sel in_path c
  pub carried : Carried w rt c

-- A prepared Bedrock request goes to the host of a region that passes the host rule, with the
-- converted body.
pub prepare_sound :
    (w : World) (rt : Routing) (creds model : Bytes) (sel : SelectChannelResponse) (in_path : Bytes)
    (req : HttpRequest)
    → sel.channel_type ≡ aws_bedrock_channel_type
    → supports_official sel.channel_type ≡ true
    → prepare_aws_bedrock_request w rt.body creds model rt.is_stream ≡ ok req
    → ProviderCall w rt sel in_path req
prepare_sound w rt creds model sel in_path req t v h =
    let p = prepare_aws_bedrock_request-Prepared w rt.body creds model rt.is_stream req h in
    record {
      official = record {
        parsed = ap parse p.address ∙ p.parsed;
        official = by_region p.region p.model t v p.pattern p.accepted p.address;
      };
      carried = translated p.at_once p.converted;
    }
