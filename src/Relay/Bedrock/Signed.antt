-- ===== src/Relay/Bedrock/Signed.antt =====
-- pkg/officialurls/sigv4.go and cmd/relay-core/aws_bedrock.go: the signature of a Bedrock call, written
-- out.
use test_enclave_newapi.Common.{
  ◌≡◌, refl, ap, inl, inr, false, ◌||◌, [], ◌∷◌, ◌++◌, some, take, Bool-cases, if◌then◌else◌,
}
use test_enclave_newapi.Text.{Bytes, codes, join, trim_space, to_lower}
use test_enclave_newapi.SortedMap
use test_enclave_newapi.Headers.{Headers, header_put, header_set, canonical_key}
use test_enclave_newapi.Url.Percent.{is_empty}
use test_enclave_newapi.Official.SigV4.{
  canonical_uri_path, canonical_query_string, canonicalize_headers, signed_values, lower_headers,
  header_lines,
}
use test_enclave_newapi.Official.SigV4.Sign.{
  SignedRequest, SigningKeys, hex_sha256, hex_encode, derive_signing_key, dated_headers,
  credential_scope, canonical_request, string_to_sign, authorization, sign_sig_v4,
}
use test_enclave_newapi.Relay.Bedrock.Call.{json_headers}

-- The headers that are signed, in the order of their names.
abbrev pub signed_names : Bytes → Bytes
signed_names token =
    if is_empty token
    then codes "accept;content-type;host;x-amz-date"
    else codes "accept;content-type;host;x-amz-date;x-amz-security-token"

abbrev pub token_line : Bytes → Bytes
token_line token =
    if is_empty token then [] else codes "x-amz-security-token:" ++ (trim_space token ++ codes "\n")

abbrev pub signed_lines : Bytes → Bytes → Bytes → Bytes
signed_lines host date token =
    codes "accept:application/json\ncontent-type:application/json\nhost:"
    ++ (trim_space host
        ++ (codes "\nx-amz-date:" ++ (trim_space date ++ (codes "\n" ++ token_line token))))

abbrev pub token_header : Bytes → Headers
token_header token = if is_empty token then [] else (codes "X-Amz-Security-Token", token) ∷ []

canonical_headers :
    (k : SigningKeys) (host date : Bytes)
    → canonicalize_headers (dated_headers k date json_headers) host
      ≡ (signed_lines host date k.session_token, signed_names k.session_token)
unfolding canonicalize_headers signed_values lower_headers header_lines SortedMap.set SortedMap.keys
    join dated_headers header_put canonical_key to_lower trim_space
canonical_headers k host date = elim (Bool-cases (is_empty k.session_token)) [
  | inl y ↦ rw y refl
  | inr n ↦ rw n refl
]

dated :
    (k : SigningKeys) (date : Bytes)
    → dated_headers k date json_headers
      ≡ (codes "Content-Type", codes "application/json")
        ∷ (codes "Accept", codes "application/json")
        ∷ (codes "X-Amz-Date", date)
        ∷ token_header k.session_token
unfolding dated_headers header_put canonical_key
dated k date = elim (Bool-cases (is_empty k.session_token)) [
  | inl y ↦ rw y refl
  | inr n ↦ rw n refl
]

-- A POST of a JSON body without a query.
abbrev pub json_post : Bytes → Bytes → Bytes → SignedRequest
json_post host path body = record {
  method = codes "POST";
  host = host;
  path = path;
  raw_query = [];
  headers = json_headers;
  body = body;
}

module _ (sha256 : Bytes → Bytes) (hmac_sha256 : Bytes → Bytes → Bytes) (k : SigningKeys)
    (date host path body : Bytes) where
  -- The canonical request of AWS for it.
  abbrev pub canonical_post : Bytes
  canonical_post =
      codes "POST\n"
      ++ (canonical_uri_path path
          ++ (codes "\n\n"
              ++ (signed_lines host date k.session_token
                  ++ (codes "\n"
                      ++ (signed_names k.session_token
                          ++ (codes "\n" ++ hex_encode (sha256 body)))))))

  abbrev pub post_scope : Bytes
  post_scope =
      take 8 date
      ++ (codes "/" ++ (k.region ++ (codes "/" ++ (k.service ++ codes "/aws4_request"))))

  abbrev pub post_to_sign : Bytes
  post_to_sign =
      codes "AWS4-HMAC-SHA256\n"
      ++ (date
          ++ (codes "\n" ++ (post_scope ++ (codes "\n" ++ hex_encode (sha256 canonical_post)))))

  abbrev pub post_key : Bytes
  post_key =
      hmac_sha256
        (hmac_sha256
          (hmac_sha256 (hmac_sha256 (codes "AWS4" ++ k.secret_key) (take 8 date)) k.region)
          k.service)
        (codes "aws4_request")

  abbrev pub post_authorization : Bytes
  post_authorization =
      codes "AWS4-HMAC-SHA256 Credential="
      ++ (k.access_key
          ++ (codes "/"
              ++ (post_scope
                  ++ (codes ", SignedHeaders="
                      ++ (signed_names k.session_token
                          ++ (codes ", Signature="
                              ++ hex_encode (hmac_sha256 post_key post_to_sign)))))))

  abbrev pub post_headers : Headers
  post_headers =
      (codes "Content-Type", codes "application/json")
      ∷ (codes "Accept", codes "application/json")
      ∷ (codes "X-Amz-Date", date)
      ∷ (token_header k.session_token
          ++ ((codes "Authorization", post_authorization)
              ∷ (codes "X-Amz-Content-Sha256", hex_encode (sha256 body))
              ∷ []))

  scope : credential_scope k (take 8 date) ≡ post_scope
  unfolding credential_scope join
  scope = refl

  canonical :
      canonical_request sha256 hmac_sha256
        (json_post host path body)
        (dated_headers k date json_headers)
      ≡ canonical_post
  unfolding canonical_request join canonical_query_string hex_sha256
  canonical = rw (canonical_request, canonical_headers k host date) refl

  to_sign :
      string_to_sign sha256 hmac_sha256
        (json_post host path body)
        k
        date
        (dated_headers k date json_headers)
      ≡ post_to_sign
  unfolding string_to_sign join hex_sha256
  to_sign = rw (string_to_sign, canonical, scope) refl

  authorized :
      authorization sha256 hmac_sha256
        (json_post host path body)
        k
        date
        (dated_headers k date json_headers)
      ≡ post_authorization
  unfolding authorization derive_signing_key
  authorized = rw (authorization, to_sign, scope, canonical_headers k host date) refl

  completed :
      header_set
        (codes "X-Amz-Content-Sha256")
        (hex_encode (sha256 body))
        (header_set (codes "Authorization") post_authorization (dated_headers k date json_headers))
      ≡ post_headers
  unfolding header_put canonical_key dated_headers
  completed = elim (Bool-cases (is_empty k.session_token)) [ inl y ↦ rw y refl | inr n ↦ rw n refl ]

  -- With its keys, the region and the service, the post is signed with these headers.
  pub sign_sig_v4-post :
      (is_empty k.access_key || is_empty k.secret_key) ≡ false
      → (is_empty k.region || is_empty k.service) ≡ false
      → sign_sig_v4 sha256 hmac_sha256 (json_post host path body) k date ≡ some post_headers
  unfolding sign_sig_v4 hex_sha256
  sign_sig_v4-post p q = rw (sign_sig_v4, p, q, authorized) (ap some completed)
