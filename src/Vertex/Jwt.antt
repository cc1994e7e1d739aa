-- ===== src/Vertex/Jwt.antt =====
-- pkg/officialurls/vertexoauth.go: the service account, and the assertion that is signed for it
-- (`BuildSignedSAJWT`, `parseRSAPrivateKey`). PEM, X.509, SHA-256 and RSA are Go's packages.
use test_enclave_newapi.Common.{
  List, ℤ, ◌≡◌, refl, true, false, ◌&&◌, [], ◌∷◌, ◌++◌, Option, none, some, if◌then◌else◌, ◌==◌,
  add64, Result, ok, err, pos,
}
use test_enclave_newapi.Text.{Bytes, codes}
use test_enclave_newapi.Base64.{encode_raw, url}
use test_enclave_newapi.Json.Tree.{Json, obj, of_fields}
use test_enclave_newapi.Json.Scan.{parse_json}
use test_enclave_newapi.Json.Strings.{key_is, quote}
use test_enclave_newapi.Json.Decode.{decode_string, decode_struct}
use test_enclave_newapi.Json.Print.{print, string_value}
use test_enclave_newapi.Wire.Usage.{store}
use test_enclave_newapi.Relay.Bedrock.Encode.{int_value, int_text}
use test_enclave_newapi.Vertex.{token_lifetime_seconds}

-- `googleSAKey`
pub record ServiceAccount : Type 0 where
  pub client_email : Bytes
  pub private_key : Bytes
  pub token_uri : Bytes

unfoldable pub set_account : Bytes → Json → ServiceAccount → Option ServiceAccount
set_account k j a =
    if key_is (codes "client_email") k
    then store (decode_string j a.client_email) (λ v. record a { client_email = v })
    else if key_is (codes "private_key") k
    then store (decode_string j a.private_key) (λ v. record a { private_key = v })
    else if key_is (codes "token_uri") k
    then store (decode_string j a.token_uri) (λ v. record a { token_uri = v })
    else some a

-- `json.Unmarshal(saJSON, &sa)`
unfoldable pub read_account : Bytes → Option ServiceAccount
unfolding parse_json
read_account sa_json = elim (parse_json sa_json) [
  | none ↦ none
  | some j ↦
      decode_struct set_account j (record { client_email = []; private_key = []; token_uri = [] })
]

-- Go's crypto packages. A PKCS #8 key that is read is RSA, or of another kind: `some none`.
pub record Signer (Key : Type 0) : Type 0 where
  pub pem_decode : Bytes → Option Bytes
  pub parse_pkcs8 : Bytes → Option (Option Key)
  pub parse_pkcs1 : Bytes → Option Key
  pub sha256 : Bytes → Bytes
  pub sign_pkcs1v15 : Key → Bytes → Option Bytes

pub data KeyError : Type 0 where
  no_pem_block not_rsa not_a_key sign_failed : KeyError

-- `strings.ReplaceAll(pemStr, "\\n", "\n")`
unfoldable pub unescape_newlines : Bytes → Bytes
unescape_newlines [] = []
unescape_newlines (c ∷ []) = c ∷ []
unescape_newlines (c ∷ d ∷ s) = elim (c == b'\\' && d == b'n') [
  | true ↦ 10 ∷ unescape_newlines s
  | false ↦ c ∷ unescape_newlines (d ∷ s)
]

pub record JwtHeader : Type 0 where
  pub alg : Bytes
  pub typ : Bytes

pub record JwtClaims : Type 0 where
  pub iss : Bytes
  pub scope : Bytes
  pub aud : Bytes
  pub iat : ℤ
  pub exp : ℤ

abbrev pub header_members : JwtHeader → List (Bytes × Json)
header_members h = (codes "alg", string_value h.alg) ∷ (codes "typ", string_value h.typ) ∷ []

unfoldable pub header_json : JwtHeader → Bytes
unfolding print quote
header_json h = print (obj (of_fields (header_members h)))

abbrev pub claims_members : JwtClaims → List (Bytes × Json)
claims_members c =
    (codes "iss", string_value c.iss)
    ∷ (codes "scope", string_value c.scope)
    ∷ (codes "aud", string_value c.aud)
    ∷ (codes "iat", int_value c.iat)
    ∷ (codes "exp", int_value c.exp)
    ∷ []

unfoldable pub claims_json : JwtClaims → Bytes
unfolding print quote int_text
claims_json c = print (obj (of_fields (claims_members c)))

abbrev pub jwt_header : JwtHeader
jwt_header = record { alg = codes "RS256"; typ = codes "JWT" }

-- The claims of a service account: the assertion ends an hour after it is issued.
unfoldable pub jwt_claims : ServiceAccount → Bytes → Bytes → ℤ → JwtClaims
jwt_claims sa scope aud now = record {
  iss = sa.client_email;
  scope = scope;
  aud = aud;
  iat = now;
  exp = add64 now token_lifetime_seconds;
}

abbrev pub dotted : Bytes → Bytes → Bytes
dotted a b = a ++ (b'.' ∷ b)

unfoldable pub signing_input : ServiceAccount → Bytes → Bytes → ℤ → Bytes
signing_input sa scope aud now =
    dotted (encode_raw url (header_json jwt_header))
      (encode_raw url (claims_json (jwt_claims sa scope aud now)))

module _ {Key : Type 0} (signer : Signer Key) where
  unfoldable pub parse_rsa_private_key : Bytes → Result KeyError Key
  unfolding unescape_newlines
  parse_rsa_private_key pem = elim (signer.pem_decode (unescape_newlines pem)) [
    | none ↦ err no_pem_block
    | some block ↦ elim (signer.parse_pkcs8 block) [
      | some none ↦ err not_rsa
      | some (some key) ↦ ok key
      | none ↦ elim (signer.parse_pkcs1 block) [ some key ↦ ok key | none ↦ err not_a_key ]
    ]
  ]

  -- `BuildSignedSAJWT`
  unfoldable pub build_signed_sa_jwt : ServiceAccount → Bytes → Bytes → ℤ → Result KeyError Bytes
  build_signed_sa_jwt sa scope aud now = elim (parse_rsa_private_key sa.private_key) [
    | err cause ↦ err cause
    | ok key ↦
        let input = signing_input sa scope aud now in
        elim (signer.sign_pkcs1v15 key (signer.sha256 input)) [
          | none ↦ err sign_failed
          | some sig ↦ ok (dotted input (encode_raw url sig))
        ]
  ]

header_text : header_json jwt_header ≡ codes "{\"alg\":\"RS256\",\"typ\":\"JWT\"}"
unfolding header_json
header_text = refl

claims_text :
    claims_json (record {
      iss = codes "a@b";
      scope = codes "s";
      aud = codes "u";
      iat = pos 0;
      exp = pos 3600;
    })
    ≡ codes "{\"iss\":\"a@b\",\"scope\":\"s\",\"aud\":\"u\",\"iat\":0,\"exp\":3600}"
unfolding claims_json
claims_text = refl

newlines : unescape_newlines (codes "a\\nb\\") ≡ b'a' ∷ 10 ∷ b'b' ∷ b'\\' ∷ []
unfolding unescape_newlines
newlines = refl
