-- ===== src/Official/SigV4/Sign.antt =====
-- pkg/officialurls/sigv4.go: `SignSigV4`, over a hash and a keyed hash.
use test_enclave_newapi.Common.{
  ℕ, ◌/◌, ◌%◌, ◌+◌, ◌-◌, ◌||◌, [], ◌∷◌, ◌++◌, Option, none, some, if◌then◌else◌, take, ltb,
}
use test_enclave_newapi.Text.{Bytes, codes, join}
use test_enclave_newapi.Url.Percent.{is_empty}
use test_enclave_newapi.Headers.{Headers, header_set}
use test_enclave_newapi.Official.SigV4.{
  canonical_uri_path, canonical_query_string, canonicalize_headers,
}

pub record SignedRequest : Type 0 where
  pub method : Bytes
  pub host : Bytes
  pub path : Bytes
  pub raw_query : Bytes
  pub headers : Headers
  pub body : Bytes

pub record SigningKeys : Type 0 where
  pub access_key : Bytes
  pub secret_key : Bytes
  pub session_token : Bytes
  pub region : Bytes
  pub service : Bytes

abbrev lower_hex : ℕ → ℕ
lower_hex n = if ltb n 10 then b'0' + n else b'a' + (n - 10)

-- `hex.EncodeToString`
unfoldable pub hex_encode : Bytes → Bytes
hex_encode [] = []
hex_encode (c ∷ s) = lower_hex (c / 16) ∷ lower_hex (c % 16) ∷ hex_encode s

abbrev newline : Bytes
newline = 10 ∷ []

abbrev pub algorithm : Bytes
algorithm = codes "AWS4-HMAC-SHA256"

-- The headers that are set before the signed set is collected.
unfoldable pub dated_headers : SigningKeys → Bytes → Headers → Headers
dated_headers k amz_date h =
    let dated = header_set (codes "X-Amz-Date") amz_date h in
    if is_empty k.session_token
    then dated
    else header_set (codes "X-Amz-Security-Token") k.session_token dated

unfoldable pub credential_scope : SigningKeys → Bytes → Bytes
credential_scope k short_date =
    join (short_date ∷ k.region ∷ k.service ∷ codes "aws4_request" ∷ []) (codes "/")

module _ (sha256 : Bytes → Bytes) (hmac_sha256 : Bytes → Bytes → Bytes) where
  unfoldable pub hex_sha256 : Bytes → Bytes
  hex_sha256 s = hex_encode (sha256 s)

  unfoldable pub derive_signing_key : Bytes → Bytes → Bytes → Bytes → Bytes
  derive_signing_key secret_key short_date region service =
      let k_date = hmac_sha256 (codes "AWS4" ++ secret_key) short_date in
      let k_region = hmac_sha256 k_date region in
      let k_service = hmac_sha256 k_region service in hmac_sha256 k_service (codes "aws4_request")

  unfoldable pub canonical_request : SignedRequest → Headers → Bytes
  canonical_request r h =
      join
        (r.method
          ∷ canonical_uri_path r.path
          ∷ canonical_query_string r.raw_query
          ∷ (canonicalize_headers h r.host).0
          ∷ (canonicalize_headers h r.host).1
          ∷ hex_sha256 r.body
          ∷ [])
        newline

  unfoldable pub string_to_sign : SignedRequest → SigningKeys → Bytes → Headers → Bytes
  string_to_sign r k amz_date h =
      join
        (algorithm
          ∷ amz_date
          ∷ credential_scope k (take 8 amz_date)
          ∷ hex_sha256 (canonical_request r h)
          ∷ [])
        newline

  unfoldable pub authorization : SignedRequest → SigningKeys → Bytes → Headers → Bytes
  authorization r k amz_date h =
      let key = derive_signing_key k.secret_key (take 8 amz_date) k.region k.service in
      algorithm
      ++ (codes " Credential="
          ++ (k.access_key
              ++ (codes "/"
                  ++ (credential_scope k (take 8 amz_date)
                      ++ (codes ", SignedHeaders="
                          ++ ((canonicalize_headers h r.host).1
                              ++ (codes ", Signature="
                                  ++ hex_encode
                                      (hmac_sha256 key (string_to_sign r k amz_date h)))))))))

  -- The request's headers after signing; none where a key, the region or the service is missing.
  unfoldable pub sign_sig_v4 : SignedRequest → SigningKeys → Bytes → Option Headers
  sign_sig_v4 r k amz_date =
      if is_empty k.access_key || is_empty k.secret_key
      then none
      else if is_empty k.region || is_empty k.service
      then none
      else let h = dated_headers k amz_date r.headers in
        some (
          header_set (codes "X-Amz-Content-Sha256") (hex_sha256 r.body)
            (header_set (codes "Authorization") (authorization r k amz_date h) h))
