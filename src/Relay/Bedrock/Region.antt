-- ===== src/Relay/Bedrock/Region.antt =====
-- cmd/relay-core/aws_bedrock.go, `prepareAWSBedrockRequest`: where a prepared request is sent.
use test_enclave_newapi.Common.{
  ℕ, ◌≡◌, refl, sym, ◌∙◌, Bool, true, [], ◌∷◌, ◌++◌, some, arith, all, and-eq-true, ok, All,
  All-append, some_inj,
}
use test_enclave_newapi.Text.{Bytes, codes}
use test_enclave_newapi.Url.{Url, parse}
use test_enclave_newapi.Url.Laws.{https, parse_host_of}
use test_enclave_newapi.Url.Plain.{Plain, is_plain, Plain-Lacks, parse_authority-Plain}
use test_enclave_newapi.Wire.Region.Laws.{IsRegionByte, region_bytes}
use test_enclave_newapi.Relay.World.{HttpRequest, World}
use test_enclave_newapi.Relay.Bedrock.Call.{
  bedrock_host, bedrock_url, path_escape, prepare_aws_bedrock_request,
}
use test_enclave_newapi.Relay.Bedrock.Prepared.{IsRegion, prepare_aws_bedrock_request-Prepared}

region_byte-plain : (c : ℕ) → IsRegionByte c → is_plain c ≡ true
region_byte-plain c h = ground arith

region-Plain : (r : Bytes) → All IsRegionByte r → Plain r
region-Plain [] h = tt
region-Plain (c ∷ r) (p, h) = (region_byte-plain c p, region-Plain r h)

text-Plain : (s : Bytes) → all is_plain s ≡ true → Plain s
text-Plain [] h = tt
text-Plain (c ∷ s) h =
    let (p, q) = and-eq-true (is_plain c) (all is_plain s) h in (p, text-Plain s q)

pub bedrock_host-Plain : (r : Bytes) → IsRegion r → Plain (bedrock_host r)
unfolding bedrock_host
bedrock_host-Plain r h =
    All-append (λ c. is_plain c ≡ true) (codes "bedrock-runtime.") (r ++ codes ".amazonaws.com")
      (text-Plain (codes "bedrock-runtime.") refl)
      (All-append (λ c. is_plain c ≡ true) r (codes ".amazonaws.com")
        (region-Plain r (region_bytes r h)) (text-Plain (codes ".amazonaws.com") refl))

-- The URL of a call to a region.
pub record Regional (u : Url) : Type 0 where
  pub region : Bytes
  pub pattern : IsRegion region
  pub secure : u.scheme ≡ https
  pub host : u.host ≡ bedrock_host region

pub bedrock_url-Regional :
    (r model : Bytes) (u : Url)
    → IsRegion r
    → parse (bedrock_url (bedrock_host r) model) ≡ some u
    → Regional u
unfolding bedrock_url
bedrock_url-Regional r model u k h =
    let p = bedrock_host-Plain r k in
    let (s, a) =
      parse_host_of (bedrock_host r) (codes "model/" ++ (path_escape model ++ codes "/invoke")) u
        (Plain-Lacks b'/' (bedrock_host r) refl p) (Plain-Lacks b'?' (bedrock_host r) refl p)
        (Plain-Lacks b'#' (bedrock_host r) refl p) h in
    record {
      region = r;
      pattern = k;
      secure = s;
      host = some_inj (sym a ∙ parse_authority-Plain (bedrock_host r) p);
    }

-- A request that is prepared for AWS Bedrock is sent over https to `bedrock-runtime`, a text of the AWS
-- region pattern, and `amazonaws.com`, whatever the client's body, the model name and the channel's
-- credentials are.
pub prepare_aws_bedrock_request-Regional :
    (w : World) (body creds model : Bytes) (stream : Bool) (req : HttpRequest)
    → prepare_aws_bedrock_request w body creds model stream ≡ ok req
    → Regional req.url
prepare_aws_bedrock_request-Regional w body creds model stream req h =
    let p = prepare_aws_bedrock_request-Prepared w body creds model stream req h in
    bedrock_url-Regional p.region p.model req.url p.pattern p.parsed
