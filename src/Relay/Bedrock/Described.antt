-- ===== src/Relay/Bedrock/Described.antt =====
-- cmd/relay-core/aws_bedrock.go, `prepareAWSBedrockRequest`: the request that is prepared, written out.
use test_enclave_newapi.Common.{
  ◌≡◌, refl, inl, inr, Bool, false, not, List, [], ◌∷◌, ◌++◌, arith, Bool-cases, Option-cases,
  Result-cases, Result, ok, ok_inj, ◌>>=◌, All,
}
use test_enclave_newapi.Text.{Bytes, codes, split, trim_space}
use test_enclave_newapi.Regex.{matches}
use test_enclave_newapi.Url.Percent.{is_empty}
use test_enclave_newapi.Wire.Region.{aws_region_pattern, split_model_region}
use test_enclave_newapi.Wire.Region.Laws.{split_model_region_iff}
use test_enclave_newapi.Official.SigV4.Sign.{SigningKeys}
use test_enclave_newapi.Verify.Comparison.{IsByte}
use test_enclave_newapi.Relay.World.{HttpRequest, World}
use test_enclave_newapi.Relay.Bedrock.Credentials.{
  BedrockError, streaming, Credentials, guard, ◌>>◌, has_blank, checked, parts_checked,
  parse_aws_bedrock_credentials,
}
use test_enclave_newapi.Relay.Bedrock.Encode.{convert_openai_request_to_nova}
use test_enclave_newapi.Relay.Bedrock.Call.{
  bedrock_host, bedrock_url, routed_model, addressed, signed_request, prepare_aws_bedrock_request,
}
use test_enclave_newapi.Relay.Bedrock.Prepared.{IsRegion, credentials-IsRegion, routed-IsRegion}
use test_enclave_newapi.Relay.Bedrock.Host.{bedrock_host-official}
use test_enclave_newapi.Relay.Bedrock.Path.{model_path, model_url, parse-bedrock_url}
use test_enclave_newapi.Relay.Bedrock.Signed.{post_headers, sign_sig_v4-post}

abbrev pub bedrock_keys : Credentials → Bytes → SigningKeys
bedrock_keys c region = record {
  access_key = c.access_key;
  secret_key = c.secret_key;
  session_token = c.session_token;
  region = region;
  service = codes "bedrock";
}

-- The call for a model in a region.
abbrev pub bedrock_request : World → Credentials → Bytes → Bytes → Bytes → HttpRequest
bedrock_request w c model region body = record {
  address = bedrock_url (bedrock_host region) model;
  url = model_url (bedrock_host region) model;
  headers =
      post_headers w.sha256 w.hmac_sha256 (bedrock_keys c region) w.amz_date (bedrock_host region)
        (model_path model) body;
  body = body;
}

-- What `prepareAWSBedrockRequest` is to do.
abbrev pub described : World → Bytes → Bytes → Bytes → Bool → Result BedrockError HttpRequest
described w body raw_credentials model is_stream = do
  guard (not is_stream) streaming
  c ← parse_aws_bedrock_credentials raw_credentials
  converted ← convert_openai_request_to_nova w.reformat_float body
  let routed = routed_model model c.region
  ok (bedrock_request w c routed.0 routed.1 converted)

-- Credentials with which a request can be signed.
record Keyed (c : Credentials) : Type 0 where
  access : is_empty c.access_key ≡ false
  secret : is_empty c.secret_key ≡ false

any-inv :
    (p : Bytes) (ps : List Bytes)
    → has_blank (p ∷ ps) ≡ false
    → (is_empty (trim_space p) ≡ false) × (has_blank ps ≡ false)
any-inv p ps h = (ground arith, ground arith)

checked-Keyed :
    (a s r t : Bytes) (c : Credentials)
    → is_empty (trim_space a) ≡ false
    → is_empty (trim_space s) ≡ false
    → checked a s r t ≡ ok c
    → Keyed c
unfolding checked
checked-Keyed a s r t c p q h = elim (Bool-cases (matches aws_region_pattern (trim_space r))) [
  | inl y ↦ rw (← ok_inj (rw (y, checked) at h)) (record { access = p; secret = q })
  | inr n ↦ absurd (cc (rw (n, checked) at h))
]

parts_checked-Keyed : (ps : List Bytes) (c : Credentials) → parts_checked ps ≡ ok c → Keyed c
unfolding parts_checked
parts_checked-Keyed [] c h = absurd (cc h)
parts_checked-Keyed (a ∷ []) c h = absurd (cc h)
parts_checked-Keyed (a ∷ s ∷ []) c h = absurd (cc h)
parts_checked-Keyed (a ∷ s ∷ r ∷ []) c h = elim (Bool-cases (has_blank (a ∷ s ∷ r ∷ []))) [
  | inl y ↦ absurd (cc (rw (y, parts_checked) at h))
  | inr n ↦
      let (p, m) = any-inv a (s ∷ r ∷ []) n in
      checked-Keyed a s r [] c p (any-inv s (r ∷ []) m).0 (rw (n, parts_checked) at h)
]
parts_checked-Keyed (a ∷ s ∷ r ∷ t ∷ []) c h = elim (Bool-cases (has_blank (a ∷ s ∷ r ∷ t ∷ []))) [
  | inl y ↦ absurd (cc (rw (y, parts_checked) at h))
  | inr n ↦
      let (p, m) = any-inv a (s ∷ r ∷ t ∷ []) n in
      checked-Keyed a s r t c p (any-inv s (r ∷ t ∷ []) m).0 (rw (n, parts_checked) at h)
]
parts_checked-Keyed (a ∷ s ∷ r ∷ t ∷ x ∷ ps) c h = absurd (cc h)

region_given : (r : Bytes) → IsRegion r → is_empty r ≡ false
unfolding matches
region_given [] h = absurd (cc h)
region_given (c ∷ r) h = refl

All-front : (xs ys : Bytes) → All IsByte (xs ++ ys) → All IsByte xs
All-front [] ys h = tt
All-front (x ∷ xs) ys (p, h) = (p, All-front xs ys h)

routed-IsByte : (model r : Bytes) → All IsByte model → All IsByte (routed_model model r).0
unfolding routed_model
routed-IsByte model r b = elim (Option-cases (split_model_region model)) [
  | inl n ↦ rw (n, routed_model) b
  | inr (x, e) ↦
      rw (e, routed_model)
        (All-front x.0 (b'@' ∷ x.1) (rw ((split_model_region_iff model x.0 x.1).0 e).0 at b))
]

-- A call with keys to a region is put together without an error.
addressed-bedrock :
    (w : World) (c : Credentials) (model region body : Bytes)
    → Keyed c
    → IsRegion region
    → All IsByte model
    → addressed w c region (bedrock_url (bedrock_host region) model) body
      ≡ ok (bedrock_request w c model region body)
unfolding addressed signed_request
addressed-bedrock w c model region body k r b =
    let s =
      sign_sig_v4-post w.sha256 w.hmac_sha256 (bedrock_keys c region) w.amz_date
        (bedrock_host region) (model_path model) body (rw (k.access, k.secret) refl)
        (rw (region_given region r) refl) in
    rw (addressed, parse-bedrock_url region model r b, signed_request, s) refl

-- Where a request is not to be streamed, the credentials are accepted and the body can be converted,
-- prepareAWSBedrockRequest gives the POST of the converted body to the model's path at the host of the
-- region, of the model name or else of the credentials, with the headers of Signature Version 4; it
-- has no errors but those of these three steps. The condition is that the model name consists of
-- bytes.
pub prepare_aws_bedrock_request_lem :
    (w : World) (body creds model : Bytes) (stream : Bool)
    → All IsByte model
    → prepare_aws_bedrock_request w body creds model stream ≡ described w body creds model stream
unfolding prepare_aws_bedrock_request parse_aws_bedrock_credentials
prepare_aws_bedrock_request_lem w body creds model stream b = elim (Bool-cases stream) [
  | inl y ↦ rw (y, prepare_aws_bedrock_request) refl
  | inr n ↦ elim (Result-cases (parse_aws_bedrock_credentials creds)) [
    | inl (_, e) ↦ rw (n, e, prepare_aws_bedrock_request) refl
    | inr (c, e) ↦ elim (Result-cases (convert_openai_request_to_nova w.reformat_float body)) [
      | inl (_, f) ↦ rw (n, e, f, prepare_aws_bedrock_request) refl
      | inr (converted, d) ↦
          let x = routed_model model c.region in
          let r = routed-IsRegion model c.region (credentials-IsRegion creds c e) in
          rw (n, e, d, bedrock_host-official x.1 r, prepare_aws_bedrock_request)
            (addressed-bedrock w c x.0 x.1 converted (parts_checked-Keyed (split creds b'|') c e) r
              (routed-IsByte model c.region b))
    ]
  ]
]
