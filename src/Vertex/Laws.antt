-- ===== src/Vertex/Laws.antt =====
-- pkg/officialurls/vertexoauth.go, `CachedVertexToken`: which tokens are handed out, and for how long.
use test_enclave_newapi.Common.{
  ℕ, ℤ, pos, ◌+◌, ◌-◌, ◌<◌, ◌≡◌, refl, sym, ap, ◌∙◌, ◌⊎◌, inl, inr, true, false, Option, none, some,
  int_ltb, arith, Bool-cases, Option-cases, some_inj, two63,
}
use test_enclave_newapi.Text.{Bytes}
use test_enclave_newapi.Url.Percent.{is_empty}
use test_enclave_newapi.SortedMap
use test_enclave_newapi.SortedMap.Laws.{get-set}
use test_enclave_newapi.Vertex.{
  TokenCacheEntry, TokenCache, Minted, cache_key, expiry, minted_token, cached_vertex_token,
}

-- The token stands in the cache for this account and scope, and is not to be replaced yet.
pub record Cached (client_email scope : Bytes) (now : ℤ) (cache : TokenCache) (token : Bytes)
    : Type 0 where
  pub expires_at : ℤ
  pub entry :
      SortedMap.get (cache_key client_email scope) cache
      ≡ some (record { token = token; expires_at = expires_at })
  pub current : int_ltb now expires_at ≡ true

-- The token has just been minted, and the cache holds it under its expiry.
pub record Renewed (client_email scope : Bytes) (now : ℤ) (mint : Option Minted)
    (cache : TokenCache) (token : Bytes) : Type 0 where
  pub minted : Minted
  pub source : mint ≡ some minted
  pub same : minted.token ≡ token
  pub stored :
      SortedMap.get (cache_key client_email scope) cache
      ≡ some (record { token = token; expires_at = expiry now minted.expires_in })

minted_token_sound :
    (email scope : Bytes) (now : ℤ) (mint : Option Minted) (cache after : TokenCache)
    (token : Bytes)
    → minted_token (cache_key email scope) now mint cache ≡ (some token, after)
    → Renewed email scope now mint after token
unfolding minted_token
minted_token_sound email scope now none cache after token h = absurd (cc (ap (λ x. x.0) h))
minted_token_sound email scope now (some m) cache after token h =
    let t = some_inj (ap (λ x. x.0) h) in
    let c = ap (λ x. x.1) h in
    record {
      minted = m;
      source = refl;
      same = t;
      stored = rw (← c, ← t) (get-set (cache_key email scope) _ cache);
    }

-- A token that is handed out is one from the cache that is not to be replaced yet, and then the
-- cache stays, or one minted for this call, and then the cache holds it for the calls to come.
pub cached_vertex_token_sound :
    (email scope : Bytes) (now : ℤ) (mint : Option Minted) (cache after : TokenCache)
    (token : Bytes)
    → cached_vertex_token email scope now mint cache ≡ (some token, after)
    → (Cached email scope now cache token × (after ≡ cache))
      ⊎ Renewed email scope now mint after token
unfolding cached_vertex_token
cached_vertex_token_sound email scope now mint cache after token h =
    elim (Bool-cases (is_empty email)) [
      | inl y ↦ absurd (cc (ap (λ x. x.0) (rw (y, cached_vertex_token) at h)))
      | inr n ↦ elim (Option-cases (SortedMap.get (cache_key email scope) cache)) [
        | inl m ↦ inr (
            minted_token_sound email scope now mint cache after token
              (rw (n, m, cached_vertex_token) at h))
        | inr (e, m) ↦ elim (Bool-cases (int_ltb now e.expires_at)) [
          | inr f ↦ inr (
              minted_token_sound email scope now mint cache after token
                (rw (n, m, f, cached_vertex_token) at h))
          | inl y ↦
              let g = rw (n, m, y, cached_vertex_token) at h in
              inl (
                record {
                  expires_at = e.expires_at;
                  entry = m ∙ ap (λ t. some (record e { token = t })) (some_inj (ap (λ x. x.0) g));
                  current = y;
                },
                sym (ap (λ x. x.1) g),
              )
        ]
      ]
    ]

expiry_value : (n e : ℕ) → 60 < e → n + e < two63 → expiry (pos n) (pos e) ≡ pos (n + e - 60)
unfolding expiry
expiry_value n e h b = ground arith

-- The cache has no token for this account and scope, or one that is to be replaced.
abbrev pub Outdated : Bytes → Bytes → ℤ → TokenCache → Type 0
Outdated email scope now cache =
    (SortedMap.get (cache_key email scope) cache ≡ none)
    ⊎ ((v : TokenCacheEntry) × (SortedMap.get (cache_key email scope) cache ≡ some v)
        × (int_ltb now v.expires_at ≡ false))

missed :
    (email scope : Bytes) (now : ℤ) (token : Bytes) (e : ℤ) (cache : TokenCache)
    → is_empty email ≡ false
    → Outdated email scope now cache
    → cached_vertex_token email scope now (some (record { token = token; expires_in = e })) cache
      ≡ (
        some token,
        SortedMap.set
            (cache_key email scope)
            (record { token = token; expires_at = expiry now e })
            cache,
      )
unfolding cached_vertex_token minted_token
missed email scope now token e cache a (inl g) = rw (a, g) refl
missed email scope now token e cache a (inr (v, g, lt)) = rw (a, g, lt) refl

hit :
    (email scope : Bytes) (now : ℤ) (mint : Option Minted) (cache : TokenCache)
    (v : TokenCacheEntry)
    → is_empty email ≡ false
    → SortedMap.get (cache_key email scope) cache ≡ some v
    → int_ltb now v.expires_at ≡ true
    → cached_vertex_token email scope now mint cache ≡ (some v.token, cache)
unfolding cached_vertex_token
hit email scope now mint cache v a g lt = rw (a, g, lt) refl

-- After a token has been minted at time `n` for `e` seconds, more than a minute, because the cache held
-- none for this account and scope or one to be replaced, every call before the last minute of its
-- lifetime gets the same token and leaves the cache as it is, whatever minting would give by then.
pub cached_vertex_token_reused :
    (email scope : Bytes) (n e later : ℕ) (token : Bytes) (mint : Option Minted)
    (cache : TokenCache)
    → is_empty email ≡ false
    → Outdated email scope (pos n) cache
    → 60 < e
    → n + e < two63
    → later + 60 < n + e
    → let first =
        cached_vertex_token email scope
          (pos n)
          (some (record { token = token; expires_in = pos e }))
          cache in
      cached_vertex_token email scope (pos later) mint first.1 ≡ (some token, first.1)
cached_vertex_token_reused email scope n e later token mint cache a g h b l =
    let v : TokenCacheEntry = record { token = token; expires_at = expiry (pos n) (pos e) } in
    let lt : int_ltb (pos later) (expiry (pos n) (pos e)) ≡ true =
      rw (expiry_value n e h b) (ground arith) in
    rw (missed email scope (pos n) token (pos e) cache a g)
      (hit email scope (pos later) mint _ v a (get-set (cache_key email scope) v cache) lt)
