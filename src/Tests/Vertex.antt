-- ===== src/Tests/Vertex.antt =====
-- pkg/officialurls/vertexoauth.go on small inputs.
use test_enclave_newapi.Common.{
  pos, ◌≡◌, refl, sym, ◌∙◌, false, [], ◌∷◌, some, none, ok, some_inj, List, arith,
}
use test_enclave_newapi.Text.{Bytes, codes}
use test_enclave_newapi.Text.Laws.{Lacks}
use test_enclave_newapi.Url.Percent.{is_empty}
use test_enclave_newapi.Base64.{standard, encode_std, encode_raw, decode}
use test_enclave_newapi.Base64.Laws.{decode-encode_std}
use test_enclave_newapi.Json.Octets.{constant}
use test_enclave_newapi.Vertex.{Minted}
use test_enclave_newapi.Vertex.Jwt.{
  ServiceAccount, Signer, read_account, jwt_claims, signing_input, dotted, build_signed_sa_jwt,
}
use test_enclave_newapi.Vertex.Mint.{Client, mint_vertex_access_token}
use test_enclave_newapi.Vertex.Refinement.{Call, tokens, log_tokens, tokens_refines}
use test_enclave_newapi.Vertex.Assertion.{SignsBytes, Jwt, build_signed_sa_jwt-Jwt}
use test_enclave_newapi.Vertex.Exchange.{Exchanged, mint_vertex_access_token_sound}

abbrev signer : Signer Bytes
signer = record {
  pem_decode = λ p. some p;
  parse_pkcs8 = λ b. some (some b);
  parse_pkcs1 = λ b. none;
  sha256 = λ m. 5 ∷ [];
  sign_pkcs1v15 = λ k d. some (1 ∷ 2 ∷ 3 ∷ []);
}

signer-SignsBytes : SignsBytes signer
signer-SignsBytes key digest sig h = rw (← some_inj h) (constant (1 ∷ 2 ∷ 3 ∷ []) refl)

abbrev account : ServiceAccount
account = record { client_email = codes "a@b"; private_key = codes "k"; token_uri = [] }

abbrev account_json : Bytes
account_json = codes "{\"client_email\":\"a@b\",\"private_key\":\"k\"}"

abbrev client : Client
client req = some (record {
  status = pos 200;
  body = some (codes "{\"access_token\":\"t\",\"expires_in\":3599}");
})

abbrev scope : Bytes
scope = codes "s"

read : read_account account_json ≡ some account
unfolding read_account test_enclave_newapi.Json.Decode.decode_struct
    test_enclave_newapi.Vertex.Jwt.set_account test_enclave_newapi.Json.Strings.key_is
    test_enclave_newapi.Json.Decode.decode_string
read = refl

abbrev jwt : Bytes
jwt = dotted (signing_input account scope (codes "u") (pos 7)) (codes "AQID")

built : build_signed_sa_jwt signer account scope (codes "u") (pos 7) ≡ ok jwt
unfolding build_signed_sa_jwt test_enclave_newapi.Vertex.Jwt.parse_rsa_private_key encode_raw
built = refl

build_signed_sa_jwt-Jwt_example : Jwt signer account scope (codes "u") (pos 7) jwt
build_signed_sa_jwt-Jwt_example =
    build_signed_sa_jwt-Jwt signer signer-SignsBytes account scope (codes "u") (pos 7) jwt
      (constant (codes "a@b") refl) (constant scope refl) (constant (codes "u") refl) built

minted :
    mint_vertex_access_token signer client account_json scope (pos 7)
    ≡ ok (record { token = codes "t"; expires_in = pos 3599 })
unfolding mint_vertex_access_token read_account test_enclave_newapi.Json.Decode.decode_struct
    test_enclave_newapi.Vertex.Jwt.set_account test_enclave_newapi.Json.Strings.key_is
    test_enclave_newapi.Json.Decode.decode_string test_enclave_newapi.Vertex.Mint.mint_for
    build_signed_sa_jwt test_enclave_newapi.Vertex.Jwt.parse_rsa_private_key encode_raw
    test_enclave_newapi.Url.parse test_enclave_newapi.Url.Percent.unescape
    test_enclave_newapi.Text.from test_enclave_newapi.Vertex.Mint.token_uri_of
    test_enclave_newapi.Url.parse_unfragmented test_enclave_newapi.Url.has_control_byte
    test_enclave_newapi.Text.before test_enclave_newapi.Url.get_scheme
    test_enclave_newapi.Url.parse_rest test_enclave_newapi.Url.parse_hierarchy
    test_enclave_newapi.Text.to_lower test_enclave_newapi.Url.Address.parse_authority
    test_enclave_newapi.Url.with_path test_enclave_newapi.Vertex.Mint.exchange
    test_enclave_newapi.Vertex.Mint.read_token test_enclave_newapi.Vertex.Mint.set_token
    test_enclave_newapi.Json.Decode.decode_int test_enclave_newapi.Vertex.Mint.token_of
minted = refl

mint_vertex_access_token_sound_example :
    (is_empty account.client_email ≡ false)
    × (is_empty account.private_key ≡ false)
    × Exchanged signer client account scope
        (pos 7)
        (record { token = codes "t"; expires_in = pos 3599 })
mint_vertex_access_token_sound_example =
    mint_vertex_access_token_sound signer signer-SignsBytes client account_json scope (pos 7)
      account (record { token = codes "t"; expires_in = pos 3599 }) read
      (constant (codes "a@b") refl) tt (constant scope refl) minted

-- The second call comes while the token is valid, the third does not.
abbrev calls : List Call
calls =
    record { client = client; sa_json = account_json; scope = scope; now = pos 7 }
    ∷ record { client = client; sa_json = account_json; scope = scope; now = pos 9 }
    ∷ record { client = λ r. none; sa_json = account_json; scope = scope; now = pos 4000 }
    ∷ []

account-plain :
    (sa : ServiceAccount) → read_account account_json ≡ some sa → Lacks 0 sa.client_email
account-plain sa h = rw (← some_inj (sym read ∙ h)) (ground arith)

tokens_refines_example : tokens signer calls [] ≡ log_tokens signer calls []
tokens_refines_example =
    tokens_refines signer calls (account-plain, (account-plain, (account-plain, tt)))

decode-encode_std_example : decode standard (encode_std (codes "key")) ≡ some (codes "key")
decode-encode_std_example = decode-encode_std (codes "key") (constant (codes "key") refl)
