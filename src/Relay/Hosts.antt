-- ===== src/Relay/Hosts.antt =====
-- cmd/relay-core/main.go, `officialUpstreamURL`: the host that a call to a fixed URL is dialled at.
use test_enclave_newapi.Common.{
  ℕ, ℤ, pos, ◌≡◌, refl, sym, ◌∙◌, inl, inr, true, [], ◌∷◌, ◌++◌, some, arith, int_eq, int_eq_iff,
  all, not, ◌==◌, and-eq-true, Bool-cases, some_inj, ok, ok_inj,
}
use test_enclave_newapi.Text.{Bytes, codes}
use test_enclave_newapi.Text.Laws.{Lacks}
use test_enclave_newapi.Url.{Url, parse}
use test_enclave_newapi.Url.Laws.{address, https, parse_host_of}
use test_enclave_newapi.Url.Percent.{is_empty}
use test_enclave_newapi.Url.Address.{parse_authority}
use test_enclave_newapi.Official.Rules.{for_type}
use test_enclave_newapi.Official.Profiles.{UpstreamProfile, profile_for}
use test_enclave_newapi.Relay.Upstream.{official_upstream_url}

-- The hosts of the providers with a fixed URL, by channel type.
pub data Pinned : ℤ → Bytes → Type 0 where
  openai : Pinned (pos 1) (codes "api.openai.com")
  anthropic : Pinned (pos 14) (codes "api.anthropic.com")
  openrouter : Pinned (pos 20) (codes "openrouter.ai")
  gemini : Pinned (pos 24) (codes "generativelanguage.googleapis.com")

-- The channel types with a profile.
data Profiled : ℤ → Type 0 where
  is_openai : Profiled (pos 1)
  is_openrouter : Profiled (pos 20)
  is_anthropic : Profiled (pos 14)
  is_gemini : Profiled (pos 24)
  is_aws : Profiled (pos 33)
  is_databricks : Profiled (pos 59)

profile_for-Profiled : (t : ℤ) (p : UpstreamProfile) → profile_for t ≡ some p → Profiled t
unfolding profile_for
profile_for-Profiled t p h = elim (Bool-cases (int_eq t (pos 1))) [
  | inl y ↦ rw ((int_eq_iff t (pos 1)).0 y) is_openai
  | inr a ↦ elim (Bool-cases (int_eq t (pos 20))) [
    | inl y ↦ rw ((int_eq_iff t (pos 20)).0 y) is_openrouter
    | inr b ↦ elim (Bool-cases (int_eq t (pos 14))) [
      | inl y ↦ rw ((int_eq_iff t (pos 14)).0 y) is_anthropic
      | inr c ↦ elim (Bool-cases (int_eq t (pos 24))) [
        | inl y ↦ rw ((int_eq_iff t (pos 24)).0 y) is_gemini
        | inr d ↦ elim (Bool-cases (int_eq t (pos 33))) [
          | inl y ↦ rw ((int_eq_iff t (pos 33)).0 y) is_aws
          | inr e ↦ elim (Bool-cases (int_eq t (pos 59))) [
            | inl y ↦ rw ((int_eq_iff t (pos 59)).0 y) is_databricks
            | inr f ↦ absurd (cc (rw (a, b, c, d, e, f) at h))
          ]
        ]
      ]
    ]
  ]
]

abbrev Clean : Bytes → Type 0
Clean a = Lacks b'/' a × Lacks b'?' a × Lacks b'#' a

-- An address whose authority is a clean host is dialled at this host.
dialled :
    (a r url : Bytes) (u : Url)
    → Clean a
    → parse_authority a ≡ some a
    → url ≡ address a r
    → parse url ≡ some u
    → (u.scheme ≡ https) × (u.host ≡ a)
dialled a r url u (l, m, k) p e h =
    let (s, q) = parse_host_of a r u l m k (rw e at h) in (s, some_inj (sym q ∙ p))

without : (b : ℕ) (a : Bytes) → all (λ c. not (c == b)) a ≡ true → Lacks b a
without b [] h = tt
without b (c ∷ a) h =
    let (p, q) = and-eq-true (not (c == b)) (all (λ c. not (c == b)) a) h in
    (ground arith, without b a q)

openai_url :
    (path : Bytes) (url : Bytes)
    → official_upstream_url (pos 1) (b'/' ∷ path) ≡ ok url
    → url ≡ address (codes "api.openai.com") path
unfolding official_upstream_url for_type
openai_url path url h = sym (ok_inj h)

anthropic_url :
    (path : Bytes) (url : Bytes)
    → official_upstream_url (pos 14) (b'/' ∷ path) ≡ ok url
    → url ≡ address (codes "api.anthropic.com") path
unfolding official_upstream_url for_type
anthropic_url path url h = sym (ok_inj h)

openrouter_url :
    (path : Bytes) (url : Bytes)
    → official_upstream_url (pos 20) (b'/' ∷ path) ≡ ok url
    → url ≡ address (codes "openrouter.ai") (codes "api/" ++ path)
unfolding official_upstream_url for_type
openrouter_url path url h = sym (ok_inj h)

gemini_url :
    (path : Bytes) (url : Bytes)
    → official_upstream_url (pos 24) (b'/' ∷ path) ≡ ok url
    → url ≡ address (codes "generativelanguage.googleapis.com") path
unfolding official_upstream_url for_type
gemini_url path url h = sym (ok_inj h)

no_url :
    (t : ℤ) (path url : Bytes)
    → is_empty (for_type t) ≡ true
    → official_upstream_url t path ≡ ok url
    → ⊥
unfolding official_upstream_url
no_url t path url e h = cc (rw (e, official_upstream_url) at h)

-- The authority of a plain host is the host.
plain_hosts :
    (parse_authority (codes "api.openai.com") ≡ some (codes "api.openai.com"))
    × (parse_authority (codes "api.anthropic.com") ≡ some (codes "api.anthropic.com"))
    × (parse_authority (codes "openrouter.ai") ≡ some (codes "openrouter.ai"))
    × (parse_authority (codes "generativelanguage.googleapis.com")
        ≡ some (codes "generativelanguage.googleapis.com"))
unfolding parse_authority
plain_hosts = (refl, refl, refl, refl)

clean :
    (a : Bytes)
    → all (λ c. not (c == b'/')) a ≡ true
    → all (λ c. not (c == b'?')) a ≡ true
    → all (λ c. not (c == b'#')) a ≡ true
    → Clean a
clean a l m k = (without b'/' a l, without b'?' a m, without b'#' a k)

Pinned-url :
    (t : ℤ) (path url : Bytes) (u : Url)
    → Profiled t
    → official_upstream_url t (b'/' ∷ path) ≡ ok url
    → parse url ≡ some u
    → (u.scheme ≡ https) × Pinned t u.host
unfolding for_type
Pinned-url _ path url u is_openai h e =
    let (s, q) =
      dialled (codes "api.openai.com") path url u (clean (codes "api.openai.com") refl refl refl)
        plain_hosts.0 (openai_url path url h) e in
    (s, rw q openai)
Pinned-url _ path url u is_anthropic h e =
    let (s, q) =
      dialled (codes "api.anthropic.com") path url u
        (clean (codes "api.anthropic.com") refl refl refl) plain_hosts.1 (anthropic_url path url h)
        e in
    (s, rw q anthropic)
Pinned-url _ path url u is_openrouter h e =
    let (s, q) =
      dialled (codes "openrouter.ai") (codes "api/" ++ path) url u
        (clean (codes "openrouter.ai") refl refl refl) plain_hosts.2 (openrouter_url path url h)
        e in
    (s, rw q openrouter)
Pinned-url _ path url u is_gemini h e =
    let (s, q) =
      dialled (codes "generativelanguage.googleapis.com") path url u
        (clean (codes "generativelanguage.googleapis.com") refl refl refl) plain_hosts.3
        (gemini_url path url h) e in
    (s, rw q gemini)
Pinned-url _ path url u is_aws h e = absurd (no_url (pos 33) (b'/' ∷ path) url refl h)
Pinned-url _ path url u is_databricks h e = absurd (no_url (pos 59) (b'/' ∷ path) url refl h)

-- The URL of a vetted channel with a fixed base URL, for a path that starts with a slash, is dialled
-- over https at the host that is pinned for the channel's type, whatever the rest of the path is.
pub official_upstream_url-Pinned :
    (t : ℤ) (p : UpstreamProfile) (path url : Bytes) (u : Url)
    → profile_for t ≡ some p
    → official_upstream_url t (b'/' ∷ path) ≡ ok url
    → parse url ≡ some u
    → (u.scheme ≡ https) × Pinned t u.host
official_upstream_url-Pinned t p path url u k h e =
    Pinned-url t path url u (profile_for-Profiled t p k) h e
