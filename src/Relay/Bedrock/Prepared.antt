-- ===== src/Relay/Bedrock/Prepared.antt =====
-- cmd/relay-core/aws_bedrock.go, `prepareAWSBedrockRequest`: what holds when it prepares a request.
use test_enclave_newapi.Common.{
  ◌≡◌, refl, sym, ap, ◌∙◌, inl, inr, Bool, true, false, List, [], ◌∷◌, Option, none, some,
  Bool-cases, Option-cases, Result-cases, Result, ok, err, ok_inj,
}
use test_enclave_newapi.Text.{Bytes, split, trim_space}
use test_enclave_newapi.Url.{Url, parse}
use test_enclave_newapi.Headers.{Headers}
use test_enclave_newapi.Regex.{matches}
use test_enclave_newapi.Wire.Region.{aws_region_pattern, split_model_region}
use test_enclave_newapi.Wire.Region.Laws.{split_model_region_iff}
use test_enclave_newapi.Official.Rules.{is_official_host_suffix}
use test_enclave_newapi.Relay.World.{HttpRequest, World}
use test_enclave_newapi.Relay.Bedrock.Credentials.{
  BedrockError, unsigned, Credentials, has_blank, checked, parts_checked,
  parse_aws_bedrock_credentials,
}
use test_enclave_newapi.Relay.Bedrock.Encode.{convert_openai_request_to_nova}
use test_enclave_newapi.Relay.Bedrock.Call.{
  aws_bedrock_channel_type, bedrock_host, bedrock_url, routed_model, addressed, signed_request,
  prepare_aws_bedrock_request,
}

abbrev pub IsRegion : Bytes → Type 0
IsRegion r = matches aws_region_pattern r ≡ true

checked-IsRegion : (a s r t : Bytes) (c : Credentials) → checked a s r t ≡ ok c → IsRegion c.region
unfolding checked
checked-IsRegion a s r t c h = elim (Bool-cases (matches aws_region_pattern (trim_space r))) [
  | inl y ↦ rw (← ok_inj (rw (y, checked) at h)) y
  | inr n ↦ absurd (cc (rw (n, checked) at h))
]

parts_checked-IsRegion :
    (ps : List Bytes) (c : Credentials) → parts_checked ps ≡ ok c → IsRegion c.region
unfolding parts_checked
parts_checked-IsRegion [] c h = absurd (cc h)
parts_checked-IsRegion (a ∷ []) c h = absurd (cc h)
parts_checked-IsRegion (a ∷ s ∷ []) c h = absurd (cc h)
parts_checked-IsRegion (a ∷ s ∷ r ∷ []) c h = elim (Bool-cases (has_blank (a ∷ s ∷ r ∷ []))) [
  | inl y ↦ absurd (cc (rw (y, parts_checked) at h))
  | inr n ↦ checked-IsRegion a s r [] c (rw (n, parts_checked) at h)
]
parts_checked-IsRegion (a ∷ s ∷ r ∷ t ∷ []) c h =
    elim (Bool-cases (has_blank (a ∷ s ∷ r ∷ t ∷ []))) [
      | inl y ↦ absurd (cc (rw (y, parts_checked) at h))
      | inr n ↦ checked-IsRegion a s r t c (rw (n, parts_checked) at h)
    ]
parts_checked-IsRegion (a ∷ s ∷ r ∷ t ∷ x ∷ ps) c h = absurd (cc h)

pub routed-IsRegion : (model r : Bytes) → IsRegion r → IsRegion (routed_model model r).1
unfolding routed_model
routed-IsRegion model r h = elim (Option-cases (split_model_region model)) [
  | inl n ↦ rw (n, routed_model) h
  | inr (x, e) ↦ rw (e, routed_model) ((split_model_region_iff model x.0 x.1).0 e).2
]

pub credentials-IsRegion :
    (raw : Bytes) (c : Credentials) → parse_aws_bedrock_credentials raw ≡ ok c → IsRegion c.region
unfolding parse_aws_bedrock_credentials
credentials-IsRegion raw c h = parts_checked-IsRegion (split raw b'|') c h

with_headers : Bytes → Url → Bytes → Option Headers → Result BedrockError HttpRequest
with_headers address u body x = elim x [
  | none ↦ err unsigned
  | some h ↦ ok (record { address = address; url = u; headers = h; body = body })
]

with_headers_sound :
    (address : Bytes) (u : Url) (body : Bytes) (x : Option Headers) (req : HttpRequest)
    → with_headers address u body x ≡ ok req
    → (req.address ≡ address) × (req.url ≡ u) × (req.body ≡ body)
unfolding with_headers
with_headers_sound address u body none req h = cc
with_headers_sound address u body (some x) req h =
    (rw (← ok_inj h) refl, rw (← ok_inj h) refl, rw (← ok_inj h) refl)

signed_request_sound :
    (w : World) (c : Credentials) (region address body : Bytes) (u : Url) (req : HttpRequest)
    → signed_request w c region address u body ≡ ok req
    → (req.address ≡ address) × (req.url ≡ u) × (req.body ≡ body)
unfolding signed_request with_headers
signed_request_sound w c region address body u req h = with_headers_sound address u body _ req h

addressed_sound :
    (w : World) (c : Credentials) (region address body : Bytes) (req : HttpRequest)
    → addressed w c region address body ≡ ok req
    → (req.address ≡ address) × (parse address ≡ some req.url) × (req.body ≡ body)
unfolding addressed
addressed_sound w c region address body req h = elim (Option-cases (parse address)) [
  | inl n ↦ absurd (cc (rw (n, addressed) at h))
  | inr (u, e) ↦
      let (a, b, d) = signed_request_sound w c region address body u req (rw (e, addressed) at h) in
      (a, rw (b, e) refl, d)
]

-- The region and the model that a request is prepared for, and the body that it is prepared from.
pub record Prepared (w : World) (body : Bytes) (stream : Bool) (req : HttpRequest) : Type 0 where
  pub region : Bytes
  pub model : Bytes
  pub pattern : IsRegion region
  pub accepted : is_official_host_suffix aws_bedrock_channel_type (bedrock_host region) ≡ true
  pub address : req.address ≡ bedrock_url (bedrock_host region) model
  pub parsed : parse (bedrock_url (bedrock_host region) model) ≡ some req.url
  pub at_once : stream ≡ false
  pub converted : convert_openai_request_to_nova w.reformat_float body ≡ ok req.body

pub prepare_aws_bedrock_request-Prepared :
    (w : World) (body creds model : Bytes) (stream : Bool) (req : HttpRequest)
    → prepare_aws_bedrock_request w body creds model stream ≡ ok req
    → Prepared w body stream req
unfolding prepare_aws_bedrock_request
prepare_aws_bedrock_request-Prepared w body creds model stream req h = elim (Bool-cases stream) [
  | inl y ↦ absurd (cc (rw (y, prepare_aws_bedrock_request) at h))
  | inr n ↦ elim (Result-cases (parse_aws_bedrock_credentials creds)) [
    | inl (_, f) ↦ absurd (cc (rw (n, f, prepare_aws_bedrock_request) at h))
    | inr (c, e) ↦ elim (Result-cases (convert_openai_request_to_nova w.reformat_float body)) [
      | inl (_, f) ↦ absurd (cc (rw (n, e, f, prepare_aws_bedrock_request) at h))
      | inr (converted, d) ↦
          let x = routed_model model c.region in
          elim (Bool-cases (is_official_host_suffix aws_bedrock_channel_type (bedrock_host x.1))) [
            | inr f ↦ absurd (cc (rw (n, e, d, f, prepare_aws_bedrock_request) at h))
            | inl g ↦
                let (a, p, b) =
                  addressed_sound w c x.1 (bedrock_url (bedrock_host x.1) x.0) converted req
                    (rw (n, e, d, g, prepare_aws_bedrock_request) at h) in
                record {
                  region = x.1;
                  model = x.0;
                  pattern = routed-IsRegion model c.region (credentials-IsRegion creds c e);
                  accepted = g;
                  address = a;
                  parsed = p;
                  at_once = n;
                  converted = d ∙ ap ok (sym b);
                }
          ]
    ]
  ]
]
