-- ===== src/Vertex/Assertion.antt =====
-- pkg/officialurls/vertexoauth.go, `BuildSignedSAJWT`: what the assertion says and who signs it.
use test_enclave_newapi.Common.{
  append_assoc, pos, add64, ◌∙◌, ℕ, ℤ, ◌≡◌, ◌≢◌, refl, ap, inl, inr, true, ◌∷◌, some, arith, ok,
  ok_inj, Result-cases, Option-cases, All, All-append,
}
use test_enclave_newapi.Text.{Bytes, codes, cut}
use test_enclave_newapi.Text.Laws.{Lacks}
use test_enclave_newapi.Text.Cuts.{cut-append}
use test_enclave_newapi.Base64.{encode_raw, url, decode, character}
use test_enclave_newapi.Base64.Laws.{decode-encode_raw, All-encode_raw}
use test_enclave_newapi.Url.Form.{is_query_safe}
use test_enclave_newapi.Json.Tree.{obj, end, field}
use test_enclave_newapi.Json.Strings.{quote}
use test_enclave_newapi.Json.Print.{print, string_value}
use test_enclave_newapi.Relay.Bedrock.Encode.{int_value}
use test_enclave_newapi.Json.Octets.{
  constant, AllBytes, int_text-AllBytes, string_value-AllBytes, object-AllBytes,
}
use test_enclave_newapi.Vertex.Jwt.{
  ServiceAccount, Signer, parse_rsa_private_key, JwtClaims, header_members, claims_members,
  header_json, claims_json, jwt_header, jwt_claims, dotted, signing_input, build_signed_sa_jwt,
}

character-not-dot : (v : ℕ) → character url v ≢ b'.'
character-not-dot v = ground arith

character-safe : (v : ℕ) → is_query_safe (character url v) ≡ true
character-safe v = ground arith

encoded-Lacks_dot : (s : Bytes) → Lacks b'.' (encode_raw url s)
encoded-Lacks_dot s = All-encode_raw (λ c. c ≢ b'.') url character-not-dot s

-- A text that a form carries as it is.
abbrev pub QuerySafe : Bytes → Type 0
QuerySafe = All (λ c. is_query_safe c ≡ true)

encoded-QuerySafe : (s : Bytes) → QuerySafe (encode_raw url s)
encoded-QuerySafe s = All-encode_raw (λ c. is_query_safe c ≡ true) url character-safe s

dotted-QuerySafe : (a b : Bytes) → QuerySafe a → QuerySafe b → QuerySafe (dotted a b)
dotted-QuerySafe a b h k = All-append _ a (b'.' ∷ b) h (refl, k)

header-AllBytes : AllBytes (header_json jwt_header)
unfolding header_json
header-AllBytes = object-AllBytes (header_members jwt_header) (
  (refl, string_value-AllBytes (codes "RS256") (constant (codes "RS256") refl)),
  ((refl, string_value-AllBytes (codes "JWT") (constant (codes "JWT") refl)), tt),
)

claims-AllBytes :
    (c : JwtClaims) → AllBytes c.iss → AllBytes c.scope → AllBytes c.aud → AllBytes (claims_json c)
unfolding claims_json
claims-AllBytes c i s a = object-AllBytes (claims_members c) (
  (refl, string_value-AllBytes c.iss i),
  (
    (refl, string_value-AllBytes c.scope s),
    (
      (refl, string_value-AllBytes c.aud a),
      ((refl, int_text-AllBytes c.iat), ((refl, int_text-AllBytes c.exp), tt)),
    ),
  ),
)

-- The signer gives bytes.
abbrev pub SignsBytes : {Key : Type 0} → Signer Key → Type 0
SignsBytes {Key} signer =
    (key : Key) (digest sig : Bytes) → signer.sign_pkcs1v15 key digest ≡ some sig → AllBytes sig

-- The claims as the JSON object that they are sent as: they end 3600 seconds after `now`.
abbrev pub payload_text : ServiceAccount → Bytes → Bytes → ℤ → Bytes
payload_text sa scope aud now = print (
    obj (
      field (codes "iss") (string_value sa.client_email) (
        field (codes "scope") (string_value scope) (
          field (codes "aud") (string_value aud) (
            field (codes "iat") (int_value now)
              (field (codes "exp") (int_value (add64 now (pos 3600))) end))))))

-- A compact JWT: three parts between dots, of which the first two are what was signed.
pub record Jwt {Key : Type 0} (signer : Signer Key) (sa : ServiceAccount) (scope aud : Bytes)
    (now : ℤ) (jwt : Bytes) : Type 0 where
  pub key : Key
  pub header_part : Bytes
  pub claims_part : Bytes
  pub signature_part : Bytes
  pub signature : Bytes
  pub private : parse_rsa_private_key signer sa.private_key ≡ ok key
  pub signed :
      signer.sign_pkcs1v15 key (signer.sha256 (dotted header_part claims_part)) ≡ some signature
  pub first_dot : cut jwt b'.' ≡ some (header_part, dotted claims_part signature_part)
  pub second_dot : cut (dotted claims_part signature_part) b'.' ≡ some (claims_part, signature_part)
  pub no_third : Lacks b'.' signature_part
  pub header : decode url header_part ≡ some (codes "{\"alg\":\"RS256\",\"typ\":\"JWT\"}")
  pub payload : decode url claims_part ≡ some (payload_text sa scope aud now)
  pub tail : decode url signature_part ≡ some signature
  pub safe : QuerySafe jwt

header_text : header_json jwt_header ≡ codes "{\"alg\":\"RS256\",\"typ\":\"JWT\"}"
unfolding header_json print quote
header_text = refl

claims_text :
    (sa : ServiceAccount) (scope aud : Bytes) (now : ℤ)
    → claims_json (jwt_claims sa scope aud now) ≡ payload_text sa scope aud now
unfolding claims_json jwt_claims
claims_text sa scope aud now = refl

module _ {Key : Type 0} (signer : Signer Key) (signs : SignsBytes signer) where
  assembled :
      (sa : ServiceAccount) (scope aud : Bytes) (now : ℤ) (key : Key) (sig : Bytes)
      → let claims = jwt_claims sa scope aud now in
        parse_rsa_private_key signer sa.private_key ≡ ok key
        → AllBytes (claims_json claims)
        → signer.sign_pkcs1v15 key (
            signer.sha256 (
              dotted
                (encode_raw url (header_json jwt_header))
                (encode_raw url (claims_json claims))))
          ≡ some sig
        → Jwt signer sa scope aud now (
            dotted
              (dotted
                (encode_raw url (header_json jwt_header))
                (encode_raw url (claims_json claims)))
              (encode_raw url sig))
  assembled sa scope aud now key sig k b s =
      let claims = jwt_claims sa scope aud now in
      let h = encode_raw url (header_json jwt_header) in
      let c = encode_raw url (claims_json claims) in
      let t = encode_raw url sig in
      record {
        key = key;
        header_part = h;
        claims_part = c;
        signature_part = t;
        signature = sig;
        private = k;
        signed = s;
        first_dot =
            ap (λ x. cut x b'.') (append_assoc h (b'.' ∷ c) (b'.' ∷ t))
            ∙ cut-append h (dotted c t) b'.' (encoded-Lacks_dot (header_json jwt_header));
        second_dot = cut-append c t b'.' (encoded-Lacks_dot (claims_json claims));
        no_third = encoded-Lacks_dot sig;
        header =
            decode-encode_raw url (header_json jwt_header) header-AllBytes ∙ ap some header_text;
        payload =
            decode-encode_raw url (claims_json claims) b ∙ ap some (claims_text sa scope aud now);
        tail = decode-encode_raw url sig (signs key _ sig s);
        safe =
            dotted-QuerySafe (dotted h c) t
              (dotted-QuerySafe h c (encoded-QuerySafe (header_json jwt_header))
                (encoded-QuerySafe (claims_json claims)))
              (encoded-QuerySafe sig);
      }

  claims_of :
      (sa : ServiceAccount) (scope aud : Bytes) (now : ℤ)
      → AllBytes sa.client_email
      → AllBytes scope
      → AllBytes aud
      → AllBytes (claims_json (jwt_claims sa scope aud now))
  unfolding jwt_claims
  claims_of sa scope aud now e s a = claims-AllBytes (jwt_claims sa scope aud now) e s a

  -- The assertion of BuildSignedSAJWT, for an account, scope and audience of bytes, and a signer that
  -- gives bytes, is a compact JWT: its first part decodes to the RS256 header, the second to the JSON
  -- object of the account's address, the scope, the audience, the time and the time 3600 seconds later,
  -- as the 64-bit sum, and the third to the signature of the two under the account's key; a form carries
  -- it as it is.
  pub build_signed_sa_jwt-Jwt :
      (sa : ServiceAccount) (scope aud : Bytes) (now : ℤ) (jwt : Bytes)
      → AllBytes sa.client_email
      → AllBytes scope
      → AllBytes aud
      → build_signed_sa_jwt signer sa scope aud now ≡ ok jwt
      → Jwt signer sa scope aud now jwt
  unfolding build_signed_sa_jwt signing_input
  build_signed_sa_jwt-Jwt sa scope aud now jwt e s a h =
      elim (Result-cases (parse_rsa_private_key signer sa.private_key)) [
        | inl (cause, r) ↦ absurd (cc (rw (r, build_signed_sa_jwt) at h))
        | inr (key, r) ↦
            elim (Option-cases
              (signer.sign_pkcs1v15 key (signer.sha256 (signing_input sa scope aud now)))) [
                | inl o ↦ absurd (cc (rw (r, o, build_signed_sa_jwt) at h))
                | inr (sig, o) ↦
                    let j =
                      assembled sa scope aud now key sig r (claims_of sa scope aud now e s a) o in
                    rw (← ok_inj (rw (r, o, build_signed_sa_jwt) at h)) j
              ]
      ]
