-- ===== src/Vertex/Refinement.antt =====
-- pkg/officialurls/vertexoauth.go, `CachedVertexToken`, against a log of all tokens ever minted.
use test_enclave_newapi.Common.{
  ℕ, ℤ, ◌≡◌, ◌≢◌, refl, ◌∙◌, inl, inr, Bool, false, ◌&&◌, List, [], ◌∷◌, Option, none, some,
  if◌then◌else◌, int_ltb, Bool-cases, and-eq-true, Option-cases, All, ◌==◌, arith,
}
use test_enclave_newapi.Text.{Bytes, str_eq}
use test_enclave_newapi.Text.Laws.{Lacks, eq_of_str_eq}
use test_enclave_newapi.Url.Percent.{is_empty}
use test_enclave_newapi.SortedMap
use test_enclave_newapi.SortedMap.Laws.{get-set, get-set_other}
use test_enclave_newapi.Vertex.{
  TokenCacheEntry, TokenCache, Minted, cache_key, expiry, minted_token, cached_vertex_token,
}
use test_enclave_newapi.Vertex.Jwt.{ServiceAccount, read_account, Signer}
use test_enclave_newapi.Vertex.Mint.{Client, mint_vertex_access_token, minted_option, vertex_token}

-- A token that was minted for an account and a scope.
pub record Issue : Type 0 where
  pub client_email : Bytes
  pub scope : Bytes
  pub entry : TokenCacheEntry

abbrev pub Log : Type 0
Log = List Issue

abbrev pub is_for : Bytes → Bytes → Issue → Bool
is_for email scope i = str_eq email i.client_email && str_eq scope i.scope

-- The last token minted for an account and a scope.
abbrev pub latest : Bytes → Bytes → Log → Option TokenCacheEntry
latest email scope [] = none
latest email scope (i ∷ log) = if is_for email scope i then some i.entry else latest email scope log

abbrev pub issue : Bytes → Bytes → ℤ → Option Minted → Log → Option Bytes × Log
issue email scope now none log = (none, log)
issue email scope now (some m) log = (
  some m.token,
  record {
    client_email = email;
    scope = scope;
    entry = record { token = m.token; expires_at = expiry now m.expires_in };
  }
      ∷ log,
)

-- The abstract cache: the last token for the account and the scope while it is valid, else a new one.
abbrev pub token_from : Bytes → Bytes → ℤ → Option Minted → Log → Option Bytes × Log
token_from email scope now mint log =
    if is_empty email then (none, log) else elim (latest email scope log) [
      | none ↦ issue email scope now mint log
      | some e ↦
          if int_ltb now e.expires_at then (some e.token, log) else issue email scope now mint log
    ]

-- The cache has, for every account whose address has no zero byte, the last token in the log.
abbrev pub Tracks : TokenCache → Log → Type 0
Tracks cache log =
    (email scope : Bytes)
    → Lacks 0 email
    → SortedMap.get (cache_key email scope) cache ≡ latest email scope log

zero_test : (c : ℕ) → c ≢ 0 → (c == 0) ≡ false
zero_test c h = ground arith

zero_test_sym : (c : ℕ) → c ≢ 0 → (0 == c) ≡ false
zero_test_sym c h = ground arith

-- Addresses without a zero byte make the joint key unambiguous.
cache_key-str_eq :
    (e f s t : Bytes)
    → Lacks 0 e
    → Lacks 0 f
    → str_eq (cache_key e s) (cache_key f t) ≡ str_eq e f && str_eq s t
unfolding cache_key str_eq
cache_key-str_eq [] [] s t h k = refl
cache_key-str_eq [] (d ∷ f) s t h (p, k) = rw (zero_test_sym d p) refl
cache_key-str_eq (c ∷ e) [] s t (p, h) k = rw (zero_test c p) refl
cache_key-str_eq (c ∷ e) (d ∷ f) s t (p, h) (q, k) =
    let rest = cache_key-str_eq e f s t h k in
    elim (Bool-cases (c == d)) [ inl y ↦ rw y rest | inr n ↦ rw n refl ]

Tracks-issue :
    (email scope : Bytes) (v : TokenCacheEntry) (cache : TokenCache) (log : Log)
    → Lacks 0 email
    → Tracks cache log
    → Tracks
        (SortedMap.set (cache_key email scope) v cache)
        (record { client_email = email; scope = scope; entry = v } ∷ log)
Tracks-issue email scope v cache log z t e s h =
    let k = cache_key-str_eq e email s scope h z in
    elim (Bool-cases (str_eq e email && str_eq s scope)) [
      | inl y ↦
          let (p, q) = and-eq-true (str_eq e email) (str_eq s scope) y in
          rw (y, eq_of_str_eq e email p, eq_of_str_eq s scope q)
            (get-set (cache_key email scope) v cache)
      | inr n ↦
          rw n (get-set_other (cache_key e s) (cache_key email scope) v cache (k ∙ n) ∙ t e s h)
    ]

-- What a call gives, and the state it leaves, agree.
abbrev Agree : Option Bytes × TokenCache → Option Bytes × Log → Type 0
Agree a b = (a.0 ≡ b.0) × Tracks a.1 b.1

minted_token-Agree :
    (email scope : Bytes) (now : ℤ) (mint : Option Minted) (cache : TokenCache) (log : Log)
    → Lacks 0 email
    → Tracks cache log
    → Agree (minted_token (cache_key email scope) now mint cache) (issue email scope now mint log)
unfolding minted_token
minted_token-Agree email scope now none cache log z t = (refl, t)
minted_token-Agree email scope now (some m) cache log z t =
    (refl, Tracks-issue email scope _ cache log z t)

cached_vertex_token-Agree :
    (email scope : Bytes) (now : ℤ) (mint : Option Minted) (cache : TokenCache) (log : Log)
    → Lacks 0 email
    → Tracks cache log
    → Agree (cached_vertex_token email scope now mint cache) (token_from email scope now mint log)
unfolding cached_vertex_token
cached_vertex_token-Agree email scope now mint cache log z t =
    let miss = minted_token-Agree email scope now mint cache log z t in
    let found = t email scope z in
    elim (Bool-cases (is_empty email)) [
      | inl y ↦ rw (y, cached_vertex_token) (refl, t)
      | inr n ↦ elim (Option-cases (latest email scope log)) [
        | inl o ↦ rw (n, found, o, cached_vertex_token) miss
        | inr (e, o) ↦ elim (Bool-cases (int_ltb now e.expires_at)) [
          | inl y ↦ rw (n, found, o, y, cached_vertex_token) (refl, t)
          | inr f ↦ rw (n, found, o, f, cached_vertex_token) miss
        ]
      ]
    ]

-- One call of `CachedVertexToken`.
pub record Call : Type 0 where
  pub client : Client
  pub sa_json : Bytes
  pub scope : Bytes
  pub now : ℤ

-- No account with a zero byte in its address.
abbrev pub IsPlain : Call → Type 0
IsPlain c = (sa : ServiceAccount) → read_account c.sa_json ≡ some sa → Lacks 0 sa.client_email

module _ {Key : Type 0} (signer : Signer Key) where
  abbrev pub call : Call → TokenCache → Option Bytes × TokenCache
  call c cache = vertex_token signer c.client c.sa_json c.scope c.now cache

  unfoldable pub log_call : Call → Log → Option Bytes × Log
  log_call c log = elim (read_account c.sa_json) [
    | none ↦ (none, log)
    | some sa ↦
        token_from sa.client_email c.scope c.now
          (minted_option (mint_vertex_access_token signer c.client c.sa_json c.scope c.now)) log
  ]

  -- The tokens of one call after the other.
  abbrev pub tokens : List Call → TokenCache → List (Option Bytes)
  tokens [] cache = []
  tokens (c ∷ calls) cache = (call c cache).0 ∷ tokens calls (call c cache).1

  abbrev pub log_tokens : List Call → Log → List (Option Bytes)
  log_tokens [] log = []
  log_tokens (c ∷ calls) log = (log_call c log).0 ∷ log_tokens calls (log_call c log).1

  call-Agree :
      (c : Call) (cache : TokenCache) (log : Log)
      → IsPlain c
      → Tracks cache log
      → Agree (call c cache) (log_call c log)
  unfolding vertex_token log_call
  call-Agree c cache log p t = elim (Option-cases (read_account c.sa_json)) [
    | inl o ↦ rw (o, vertex_token, log_call) (refl, t)
    | inr (sa, o) ↦
        rw (o, vertex_token, log_call)
          (cached_vertex_token-Agree sa.client_email c.scope c.now _ cache log (p sa o) t)
  ]

  tokens-from :
      (calls : List Call) (cache : TokenCache) (log : Log)
      → All IsPlain calls
      → Tracks cache log
      → tokens calls cache ≡ log_tokens calls log
  tokens-from [] cache log p t = refl
  tokens-from (c ∷ calls) cache log (p, ps) t =
      let (a, b) = call-Agree c cache log p t in
      rw (a, tokens-from calls (call c cache).1 (log_call c log).1 ps b) refl

  -- A run of calls of CachedVertexToken from the empty cache gives the tokens that a log of all
  -- tokens ever minted gives, where a call takes the last token for its account and scope while that
  -- is valid, provided no account's address has a zero byte: no token goes to another account or
  -- scope, and none is lost.
  pub tokens_refines :
      (calls : List Call) → All IsPlain calls → tokens calls [] ≡ log_tokens calls []
  unfolding SortedMap.get
  tokens_refines calls p = tokens-from calls [] [] p (λ email scope z. refl)
