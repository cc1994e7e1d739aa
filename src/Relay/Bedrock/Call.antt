-- ===== src/Relay/Bedrock/Call.antt =====
-- cmd/relay-core/aws_bedrock.go: the signed call to a region's host.
use test_enclave_newapi.Common.{
  ℤ, pos, ◌/◌, ◌%◌, Bool, false, not, ◌||◌, [], ◌∷◌, ◌++◌, none, some, if◌then◌else◌, int_leb,
  int_ltb, Result, ok, err, ◌>>=◌,
}
use test_enclave_newapi.Text.{Bytes, codes}
use test_enclave_newapi.Headers.{Headers, header_set}
use test_enclave_newapi.Url.{Url, parse}
use test_enclave_newapi.Url.Percent.{is_alnum, one_of}
use test_enclave_newapi.Wire.Usage.{Usage, no_usage}
use test_enclave_newapi.Wire.Region.{split_model_region}
use test_enclave_newapi.Official.Rules.{is_official_host_suffix}
use test_enclave_newapi.Url.Percent.{upper_hex}
use test_enclave_newapi.Official.SigV4.Sign.{sign_sig_v4}
use test_enclave_newapi.Relay.World.{
  HttpRequest, HttpResponse, World, Session, called, content_type, note, write_header,
  header_panics, write,
}
use test_enclave_newapi.Relay.Dispatch.{Outcome, failure}
use test_enclave_newapi.Relay.Bedrock.Credentials.{
  BedrockError, streaming, unofficial_host, bad_url, unsigned, Credentials,
  parse_aws_bedrock_credentials, guard, ◌>>◌,
}
use test_enclave_newapi.Relay.Bedrock.Encode.{convert_openai_request_to_nova}
use test_enclave_newapi.Relay.Bedrock.Response.{convert_nova_response_to_openai}

abbrev pub aws_bedrock_channel_type : ℤ
aws_bedrock_channel_type = pos 33

-- `url.PathEscape`
unfoldable pub path_escape : Bytes → Bytes
path_escape [] = []
path_escape (c ∷ s) =
    (if is_alnum c || one_of (codes "-_.~$&+:=@") c
      then c ∷ []
      else b'%' ∷ upper_hex (c / 16) ∷ upper_hex (c % 16) ∷ [])
    ++ path_escape s

-- The model and the region of a call: a suffix of the model name takes the place of the region of
-- the credentials.
unfoldable pub routed_model : Bytes → Bytes → Bytes × Bytes
routed_model model region = elim (split_model_region model) [
  | none ↦ (model, region)
  | some (m, r) ↦ (m, r)
]

unfoldable pub bedrock_host : Bytes → Bytes
bedrock_host region = codes "bedrock-runtime." ++ (region ++ codes ".amazonaws.com")

unfoldable pub bedrock_url : Bytes → Bytes → Bytes
bedrock_url host model =
    codes "https://" ++ (host ++ (codes "/model/" ++ (path_escape model ++ codes "/invoke")))

abbrev pub json_headers : Headers
json_headers =
    header_set (codes "Accept") (codes "application/json")
      (header_set (codes "Content-Type") (codes "application/json") [])

-- The request with its signature.
unfoldable pub signed_request :
    World → Credentials → Bytes → Bytes → Url → Bytes → Result BedrockError HttpRequest
signed_request w c region address u body =
    elim (sign_sig_v4 w.sha256 w.hmac_sha256
      (record {
        method = codes "POST";
        host = u.host;
        path = u.path;
        raw_query = u.raw_query;
        headers = json_headers;
        body = body;
      })
      (record {
        access_key = c.access_key;
        secret_key = c.secret_key;
        session_token = c.session_token;
        region = region;
        service = codes "bedrock";
      })
      w.amz_date) [
        | none ↦ err unsigned
        | some h ↦ ok (record { address = address; url = u; headers = h; body = body })
      ]

unfoldable pub addressed :
    World → Credentials → Bytes → Bytes → Bytes → Result BedrockError HttpRequest
addressed w c region address body = elim (parse address) [
  | none ↦ err bad_url
  | some u ↦ signed_request w c region address u body
]

unfoldable pub prepare_aws_bedrock_request :
    World → Bytes → Bytes → Bytes → Bool → Result BedrockError HttpRequest
prepare_aws_bedrock_request w body raw_credentials model is_stream = do
  guard (not is_stream) streaming
  credentials ← parse_aws_bedrock_credentials raw_credentials
  converted ← convert_openai_request_to_nova w.reformat_float body
  let routed = routed_model model credentials.region
  guard (is_official_host_suffix aws_bedrock_channel_type (bedrock_host routed.1)) unofficial_host
  addressed w credentials routed.1 (bedrock_url (bedrock_host routed.1) routed.0) converted

abbrev pub rejected_body : Bytes
rejected_body =
    codes
      "{\"error\":{\"message\":\"AWS Bedrock upstream rejected the request\",\"type\":\"relay_core_error\"}}"

-- The model without its region suffix.
unfoldable pub response_model : Bytes → Bytes
response_model model = elim (split_model_region model) [ none ↦ model | some (m, _) ↦ m ]

abbrev succeeded : Usage → ℤ → Bool → Outcome
succeeded usage code wrote_all =
    if wrote_all then record { usage = usage; status = code; failed = false } else failure code

unfoldable pub answer_client : World → HttpResponse → Bytes → Bytes → Session → Outcome × Session
answer_client w resp model request_id s =
    elim (convert_nova_response_to_openai resp.body (response_model model) request_id w.now_unix) [
      | none ↦ (failure resp.status, s)
      | some (converted, usage) ↦
          let r =
            write w converted
              (write_header resp.status (note (content_type (codes "application/json")) s)) in
          (succeeded usage resp.status r.0, r.1)
    ]

-- A status that `WriteHeader` panics on ends the handler there, as in `pass_through`.
unfoldable pub rejected : World → HttpResponse → Session → Outcome × Session
rejected w resp s =
    let headed = write_header resp.status (note (content_type (codes "application/json")) s) in
    if header_panics resp.status s then (failure resp.status, headed) else (
      record { usage = no_usage; status = resp.status; failed = false },
      (write w rejected_body headed).1,
    )

unfoldable pub bedrock_response : World → HttpResponse → Bytes → Bytes → Session → Outcome × Session
bedrock_response w resp model request_id s =
    if resp.body_fails
    then (failure resp.status, s)
    else if int_ltb resp.status (pos 200) || int_leb (pos 300) resp.status
    then rejected w resp s
    else answer_client w resp model request_id s

unfoldable pub forward_aws_bedrock :
    World → Bytes → Bytes → Bytes → Bool → Bytes → Session → Outcome × Session
forward_aws_bedrock w body raw_credentials model is_stream request_id s =
    elim (prepare_aws_bedrock_request w body raw_credentials model is_stream) [
      | err _ ↦ (failure (pos 0), s)
      | ok req ↦ elim (w.do_request req) [
        | none ↦ (failure (pos 0), note (called req) s)
        | some resp ↦ bedrock_response w resp model request_id (note (called req) s)
      ]
    ]
