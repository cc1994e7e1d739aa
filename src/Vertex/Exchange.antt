-- ===== src/Vertex/Exchange.antt =====
-- pkg/officialurls/vertexoauth.go, `MintVertexAccessToken`: what has happened when a token is given.
use test_enclave_newapi.Common.{
  ℤ, pos, ◌≡◌, refl, sym, inl, inr, false, ◌++◌, some, ok, ok_inj, Result-cases, Option-cases,
  Bool-cases, int_eq, int_eq_iff,
}
use test_enclave_newapi.Text.{Bytes, codes}
use test_enclave_newapi.SortedMap
use test_enclave_newapi.Url.{parse}
use test_enclave_newapi.Url.Percent.{is_empty}
use test_enclave_newapi.Url.Form.{encode_values, query_escape_of_safe}
use test_enclave_newapi.Json.Octets.{AllBytes, constant}
use test_enclave_newapi.Vertex.{Minted}
use test_enclave_newapi.Vertex.Jwt.{ServiceAccount, read_account, Signer, build_signed_sa_jwt}
use test_enclave_newapi.Vertex.Mint.{
  Client, TokenRequest, TokenReply, TokenBody, default_token_uri, token_uri_of, token_request,
  token_of, read_token, exchange, mint_for, mint_vertex_access_token,
}
use test_enclave_newapi.Vertex.Assertion.{Jwt, SignsBytes, QuerySafe, build_signed_sa_jwt-Jwt}

-- The POST request of RFC 7523 to this address.
abbrev pub grant_request : Bytes → Bytes → TokenRequest
grant_request uri assertion = record {
  method = codes "POST";
  url = uri;
  content_type = codes "application/x-www-form-urlencoded";
  body =
      codes "assertion="
      ++ (assertion ++ codes "&grant_type=urn%3Aietf%3Aparams%3Aoauth%3Agrant-type%3Ajwt-bearer");
}

token_request-grant :
    (uri assertion : Bytes)
    → QuerySafe assertion
    → token_request uri assertion ≡ grant_request uri assertion
unfolding token_request encode_values SortedMap.set
token_request-grant uri assertion h = rw (query_escape_of_safe assertion h) refl

-- A reply of status 200 whose body has the token.
pub record Granted (client : Client) (req : TokenRequest) (m : Minted) : Type 0 where
  pub reply : TokenReply
  pub body : Bytes
  pub decoded : TokenBody
  pub answered : client req ≡ some reply
  pub status : reply.status ≡ pos 200
  pub read : reply.body ≡ some body
  pub parsed : read_token body ≡ some decoded
  pub token : m ≡ record { token = decoded.access_token; expires_in = decoded.expires_in }
  pub non_empty : is_empty m.token ≡ false

abbrev minted_of : TokenBody → Minted
minted_of t = record { token = t.access_token; expires_in = t.expires_in }

token_of_sound :
    (status : ℤ) (t : TokenBody) (m : Minted)
    → token_of status t ≡ ok m
    → (status ≡ pos 200) × (is_empty t.access_token ≡ false) × (minted_of t ≡ m)
unfolding token_of
token_of_sound status t m h = elim (Bool-cases (int_eq status (pos 200))) [
  | inr n ↦ elim (Bool-cases (is_empty t.error)) [
    | inl y ↦ absurd (cc (rw (n, y, token_of) at h))
    | inr f ↦ absurd (cc (rw (n, f, token_of) at h))
  ]
  | inl e ↦ elim (Bool-cases (is_empty t.access_token)) [
    | inr f ↦ ((int_eq_iff status (pos 200)).0 e, f, ok_inj (rw (e, f, token_of) at h))
    | inl y ↦ elim (Bool-cases (is_empty t.error)) [
      | inl z ↦ absurd (cc (rw (e, y, z, token_of) at h))
      | inr f ↦ absurd (cc (rw (e, y, f, token_of) at h))
    ]
  ]
]

exchange_sound :
    (client : Client) (req : TokenRequest) (m : Minted)
    → exchange client req ≡ ok m
    → Granted client req m
unfolding exchange
exchange_sound client req m h = elim (Option-cases (client req)) [
  | inl o ↦ absurd (cc (rw (o, exchange) at h))
  | inr (r, o) ↦ elim (Option-cases r.body) [
    | inl b ↦ absurd (cc (rw (o, b, exchange) at h))
    | inr (body, b) ↦ elim (Option-cases (read_token body)) [
      | inl d ↦ absurd (cc (rw (o, b, d, exchange) at h))
      | inr (t, d) ↦
          let (p, q, e) = token_of_sound r.status t m (rw (o, b, d, exchange) at h) in
          record {
            reply = r;
            body = body;
            decoded = t;
            answered = o;
            status = p;
            read = b;
            parsed = d;
            token = sym e;
            non_empty = rw (← e) q;
          }
    ]
  ]
]

-- An assertion of the account, meant for the address that it is sent to, was exchanged for the token.
pub record Exchanged {Key : Type 0} (signer : Signer Key) (client : Client) (sa : ServiceAccount)
    (scope : Bytes) (now : ℤ) (m : Minted) : Type 0 where
  pub assertion : Bytes
  pub jwt : Jwt signer sa scope (token_uri_of sa) now assertion
  pub granted : Granted client (grant_request (token_uri_of sa) assertion) m

token_uri_of-AllBytes : (sa : ServiceAccount) → AllBytes sa.token_uri → AllBytes (token_uri_of sa)
unfolding token_uri_of
token_uri_of-AllBytes sa h = elim (Bool-cases (is_empty sa.token_uri)) [
  | inl y ↦ rw (y, token_uri_of) (constant default_token_uri refl)
  | inr n ↦ rw (n, token_uri_of) h
]

module _ {Key : Type 0} (signer : Signer Key) (signs : SignsBytes signer) where
  mint_for_sound :
      (client : Client) (sa : ServiceAccount) (scope : Bytes) (now : ℤ) (m : Minted)
      → AllBytes sa.client_email
      → AllBytes sa.token_uri
      → AllBytes scope
      → mint_for signer client sa scope now ≡ ok m
      → Exchanged signer client sa scope now m
  unfolding mint_for
  mint_for_sound client sa scope now m e u s h =
      let uri = token_uri_of sa in
      elim (Result-cases (build_signed_sa_jwt signer sa scope uri now)) [
        | inl (c, b) ↦ absurd (cc (rw (b, mint_for) at h))
        | inr (a, b) ↦ elim (Option-cases (parse uri)) [
          | inl o ↦ absurd (cc (rw (b, o, mint_for) at h))
          | inr (v, o) ↦
              let j =
                build_signed_sa_jwt-Jwt signer signs sa scope uri now a e s
                  (token_uri_of-AllBytes sa u) b in
              let g = rw (b, o, mint_for) at h in
              record {
                assertion = a;
                jwt = j;
                granted = exchange_sound client _ m (rw (token_request-grant uri a j.safe) at g);
              }
        ]
      ]

  -- When MintVertexAccessToken gives a token for a readable account whose address and token URI, like
  -- the scope, are bytes, the account is complete, and the token is the one in a reply of status 200
  -- to one POST request, which carries a JWT of the account whose audience is the address it is sent to.
  pub mint_vertex_access_token_sound :
      (client : Client) (sa_json scope : Bytes) (now : ℤ) (sa : ServiceAccount) (m : Minted)
      → read_account sa_json ≡ some sa
      → AllBytes sa.client_email
      → AllBytes sa.token_uri
      → AllBytes scope
      → mint_vertex_access_token signer client sa_json scope now ≡ ok m
      → (is_empty sa.client_email ≡ false)
        × (is_empty sa.private_key ≡ false)
        × Exchanged signer client sa scope now m
  unfolding mint_vertex_access_token
  mint_vertex_access_token_sound client sa_json scope now sa m r e u s h =
      elim (Bool-cases (is_empty sa.client_email)) [
        | inl y ↦ absurd (cc (rw (r, y, mint_vertex_access_token) at h))
        | inr f ↦ elim (Bool-cases (is_empty sa.private_key)) [
          | inl y ↦ absurd (cc (rw (r, f, y, mint_vertex_access_token) at h))
          | inr g ↦ (
            f,
            g,
            mint_for_sound client sa scope now m e u s
                (rw (r, f, g, mint_vertex_access_token) at h),
          )
        ]
      ]
