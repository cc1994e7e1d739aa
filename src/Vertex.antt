-- ===== src/Vertex.antt =====
-- pkg/officialurls/vertexoauth.go: the cache of Vertex access tokens. Minting a token (JWT signature
-- and exchange) is a parameter.
pub mod Laws
pub mod Jwt
pub mod Mint
pub mod Refinement
pub mod Assertion
pub mod Exchange
use test_enclave_newapi.Common.{
  ℤ, pos, negsuc, ◌≡◌, refl, Bool, true, false, List, [], ◌∷◌, ◌++◌, Option, none, some,
  if◌then◌else◌, int_leb, int_ltb, add64,
}
use test_enclave_newapi.Text.{Bytes, codes}
use test_enclave_newapi.Url.Percent.{is_empty}
use test_enclave_newapi.SortedMap
use test_enclave_newapi.SortedMap.{SortedMap}

pub record TokenCacheEntry : Type 0 where
  pub token : Bytes
  pub expires_at : ℤ

abbrev pub TokenCache : Type 0
TokenCache = SortedMap TokenCacheEntry

pub record Minted : Type 0 where
  pub token : Bytes
  pub expires_in : ℤ

abbrev pub token_lifetime_seconds : ℤ
token_lifetime_seconds = pos 3600

-- `-cacheSkewSeconds`
abbrev minus_skew : ℤ
minus_skew = negsuc 59

unfoldable pub cache_key : Bytes → Bytes → Bytes
cache_key client_email scope = client_email ++ (0 ∷ scope)

-- When a token minted at `now` is to be replaced.
unfoldable pub expiry : ℤ → ℤ → ℤ
expiry now expires_in =
    let lifetime = if int_leb expires_in (pos 0) then token_lifetime_seconds else expires_in in
    let at = add64 (add64 now lifetime) minus_skew in if int_leb at now then now else at

unfoldable pub minted_token : Bytes → ℤ → Option Minted → TokenCache → Option Bytes × TokenCache
minted_token key now none cache = (none, cache)
minted_token key now (some m) cache = (
  some m.token,
  SortedMap.set key (record { token = m.token; expires_at = expiry now m.expires_in }) cache,
)

-- `CachedVertexToken` for a service account with this address; the token, and the cache after it.
unfoldable pub cached_vertex_token :
    Bytes → Bytes → ℤ → Option Minted → TokenCache → Option Bytes × TokenCache
cached_vertex_token client_email scope now mint cache =
    if is_empty client_email
    then (none, cache)
    else elim (SortedMap.get (cache_key client_email scope) cache) [
      | none ↦ minted_token (cache_key client_email scope) now mint cache
      | some e ↦
          if int_ltb now e.expires_at
          then (some e.token, cache)
          else minted_token (cache_key client_email scope) now mint cache
    ]
