-- ===== src/Vertex/Mint.antt =====
-- pkg/officialurls/vertexoauth.go, `MintVertexAccessToken`: the assertion is exchanged for a token
-- over an HTTP client that is a parameter.
use test_enclave_newapi.Common.{
  ℤ, pos, not, ◌||◌, [], Option, none, some, if◌then◌else◌, int_eq, Result, ok, err,
}
use test_enclave_newapi.Text.{Bytes, codes}
use test_enclave_newapi.SortedMap
use test_enclave_newapi.Url.{parse}
use test_enclave_newapi.Url.Percent.{is_empty}
use test_enclave_newapi.Url.Form.{encode_values}
use test_enclave_newapi.Json.Tree.{Json}
use test_enclave_newapi.Json.Scan.{parse_json}
use test_enclave_newapi.Json.Strings.{key_is}
use test_enclave_newapi.Json.Decode.{decode_string, decode_int, decode_struct}
use test_enclave_newapi.Wire.Usage.{store}
use test_enclave_newapi.Vertex.{Minted, TokenCache, cached_vertex_token}
use test_enclave_newapi.Vertex.Jwt.{
  ServiceAccount, read_account, Signer, KeyError, build_signed_sa_jwt,
}

abbrev pub default_token_uri : Bytes
default_token_uri = codes "https://oauth2.googleapis.com/token"

abbrev pub jwt_bearer_grant : Bytes
jwt_bearer_grant = codes "urn:ietf:params:oauth:grant-type:jwt-bearer"

pub record TokenRequest : Type 0 where
  pub method : Bytes
  pub url : Bytes
  pub content_type : Bytes
  pub body : Bytes

-- The body is none where reading it fails.
pub record TokenReply : Type 0 where
  pub status : ℤ
  pub body : Option Bytes

-- `client.Do`: none where the exchange fails.
abbrev pub Client : Type 0
Client = TokenRequest → Option TokenReply

-- The struct `tr` of the reply.
pub record TokenBody : Type 0 where
  pub access_token : Bytes
  pub expires_in : ℤ
  pub error : Bytes
  pub error_description : Bytes

unfoldable pub set_token : Bytes → Json → TokenBody → Option TokenBody
set_token k j t =
    if key_is (codes "access_token") k
    then store (decode_string j t.access_token) (λ v. record t { access_token = v })
    else if key_is (codes "expires_in") k
    then store (decode_int j t.expires_in) (λ v. record t { expires_in = v })
    else if key_is (codes "error") k
    then store (decode_string j t.error) (λ v. record t { error = v })
    else if key_is (codes "error_description") k
    then store (decode_string j t.error_description) (λ v. record t { error_description = v })
    else some t

unfoldable pub read_token : Bytes → Option TokenBody
unfolding parse_json
read_token body = elim (parse_json body) [
  | none ↦ none
  | some j ↦
      decode_struct set_token j
        (record { access_token = []; expires_in = pos 0; error = []; error_description = [] })
]

pub data MintError : Type 0 where
  bad_account incomplete_account bad_token_uri exchange_failed unreadable_reply : MintError
  assertion_failed : KeyError → MintError
  bad_reply : ℤ → MintError
  rejected : ℤ → Bytes → Bytes → MintError
  no_access_token : ℤ → MintError

unfoldable pub token_uri_of : ServiceAccount → Bytes
token_uri_of sa = if is_empty sa.token_uri then default_token_uri else sa.token_uri

unfoldable pub token_request : Bytes → Bytes → TokenRequest
unfolding encode_values
token_request uri assertion = record {
  method = codes "POST";
  url = uri;
  content_type = codes "application/x-www-form-urlencoded";
  body = encode_values (
      SortedMap.set (codes "assertion") assertion
        (SortedMap.set (codes "grant_type") jwt_bearer_grant []));
}

-- What is made of a decoded reply.
unfoldable pub token_of : ℤ → TokenBody → Result MintError Minted
token_of status t =
    if not (int_eq status (pos 200)) || is_empty t.access_token
    then if not (is_empty t.error)
      then err (rejected status t.error t.error_description)
      else err (no_access_token status)
    else ok (record { token = t.access_token; expires_in = t.expires_in })

unfoldable pub exchange : Client → TokenRequest → Result MintError Minted
exchange client req = elim (client req) [
  | none ↦ err exchange_failed
  | some resp ↦ elim resp.body [
    | none ↦ err unreadable_reply
    | some body ↦ elim (read_token body) [
      | none ↦ err (bad_reply resp.status)
      | some t ↦ token_of resp.status t
    ]
  ]
]

abbrev pub minted_option : Result MintError Minted → Option Minted
minted_option (err cause) = none
minted_option (ok m) = some m

module _ {Key : Type 0} (signer : Signer Key) where
  -- The account is complete.
  unfoldable pub mint_for : Client → ServiceAccount → Bytes → ℤ → Result MintError Minted
  mint_for client sa scope now =
      let uri = token_uri_of sa in
      elim (build_signed_sa_jwt signer sa scope uri now) [
        | err cause ↦ err (assertion_failed cause)
        | ok assertion ↦ elim (parse uri) [
          | none ↦ err bad_token_uri
          | some _ ↦ exchange client (token_request uri assertion)
        ]
      ]

  unfoldable pub mint_vertex_access_token : Client → Bytes → Bytes → ℤ → Result MintError Minted
  mint_vertex_access_token client sa_json scope now = elim (read_account sa_json) [
    | none ↦ err bad_account
    | some sa ↦
        if is_empty sa.client_email || is_empty sa.private_key
        then err incomplete_account
        else mint_for client sa scope now
  ]

  -- `CachedVertexToken`: none where it gives an error.
  unfoldable pub vertex_token : Client → Bytes → Bytes → ℤ → TokenCache → Option Bytes × TokenCache
  vertex_token client sa_json scope now cache = elim (read_account sa_json) [
    | none ↦ (none, cache)
    | some sa ↦
        cached_vertex_token sa.client_email scope now
          (minted_option (mint_vertex_access_token client sa_json scope now)) cache
  ]
