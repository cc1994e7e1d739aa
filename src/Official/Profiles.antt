-- ===== src/Official/Profiles.antt =====
-- pkg/officialurls/profiles.go: how a vetted provider is authenticated to, and at which path.
use test_enclave_newapi.Common.{
  ℤ, pos, int_eq, ◌≡◌, refl, Bool, true, false, not, ◌&&◌, List, [], ◌∷◌, ◌++◌, Option, none, some,
  if◌then◌else◌,
}
use test_enclave_newapi.Text.{Bytes, codes, str_eq, has_prefix, trim_prefix}
use test_enclave_newapi.Url.Percent.{is_empty}
use test_enclave_newapi.Headers.{Headers}
use test_enclave_newapi.Official.Rules.{has_official, has_official_host_rule}

pub record FormatRoute : Type 0 where
  pub auth_header : Bytes
  pub auth_prefix : Bytes
  pub extra_headers : Headers
  pub path_rewrite : Option (Bytes → Bytes)

-- `routes` is none where the Go map is nil.
pub record UpstreamProfile : Type 0 where
  pub auth_header : Bytes
  pub auth_prefix : Bytes
  pub extra_headers : Headers
  pub path_rewrite : Option (Bytes → Bytes)
  pub suffix_host : Bool
  pub routes : Option (List (Bytes × FormatRoute))

-- What `ResolveRoute` returns when it serves the format.
pub record Resolved : Type 0 where
  pub auth_header : Bytes
  pub auth_prefix : Bytes
  pub extra_headers : Headers
  pub upstream_path : Bytes

unfoldable pub route_for {ℓ} : {V : Type ℓ} → List (Bytes × V) → Bytes → Option V
unfolding str_eq
route_for [] key = none
route_for ((k, v) ∷ m) key = if str_eq k key then some v else route_for m key

abbrev pub rewritten : Option (Bytes → Bytes) → Bytes → Bytes
rewritten none path = path
rewritten (some f) path = f path

unfoldable pub resolve_route : UpstreamProfile → Bytes → Bytes → Option Resolved
unfolding route_for
resolve_route p format in_path = elim p.routes [
  | none ↦ some (record {
    auth_header = p.auth_header;
    auth_prefix = p.auth_prefix;
    extra_headers = p.extra_headers;
    upstream_path = rewritten p.path_rewrite in_path;
  })
  | some routes ↦ elim (route_for routes format) [
    | none ↦ none
    | some r ↦ some (record {
      auth_header = if is_empty r.auth_header then p.auth_header else r.auth_header;
      auth_prefix = if is_empty r.auth_header then p.auth_prefix else r.auth_prefix;
      extra_headers = r.extra_headers;
      upstream_path = rewritten r.path_rewrite in_path;
    })
  ]
]

unfoldable pub gemini_openai_path_rewrite : Bytes → Bytes
unfolding has_prefix trim_prefix
gemini_openai_path_rewrite path =
    if has_prefix path (codes "/v1/")
    then codes "/v1beta/openai/" ++ trim_prefix path (codes "/v1/")
    else path

unfoldable pub databricks_claude_path_rewrite : Bytes → Bytes
databricks_claude_path_rewrite path = codes "/anthropic" ++ path

abbrev empty_profile : UpstreamProfile
empty_profile = record {
  auth_header = [];
  auth_prefix = [];
  extra_headers = [];
  path_rewrite = none;
  suffix_host = false;
  routes = none;
}

abbrev bearer : Option (Bytes → Bytes) → FormatRoute
bearer rewrite = record {
  auth_header = codes "Authorization";
  auth_prefix = codes "Bearer ";
  extra_headers = [];
  path_rewrite = rewrite;
}

abbrev pub openai_profile : UpstreamProfile
openai_profile = record empty_profile {
  auth_header = codes "Authorization";
  auth_prefix = codes "Bearer ";
}

abbrev openrouter_profile : UpstreamProfile
openrouter_profile = record openai_profile {
  extra_headers =
      (codes "HTTP-Referer", codes "https://newapi.ai") ∷ (codes "X-Title", codes "new-api") ∷ [];
}

abbrev anthropic_profile : UpstreamProfile
anthropic_profile = record empty_profile {
  auth_header = codes "x-api-key";
  extra_headers = (codes "anthropic-version", codes "2023-06-01") ∷ [];
}

abbrev gemini_profile : UpstreamProfile
gemini_profile = record empty_profile {
  routes = some (
      (codes "openai", bearer (some gemini_openai_path_rewrite))
      ∷ (
        codes "gemini",
        record {
          auth_header = codes "x-goog-api-key";
          auth_prefix = [];
          extra_headers = [];
          path_rewrite = none;
        },
      )
      ∷ []);
}

abbrev databricks_profile : UpstreamProfile
databricks_profile = record empty_profile {
  suffix_host = true;
  routes = some (
      (codes "openai", bearer none)
      ∷ (codes "claude", bearer (some databricks_claude_path_rewrite))
      ∷ []);
}

-- The map `profiles`, read by `ProfileFor`.
abbrev pub profiles : List (ℤ × UpstreamProfile)
profiles =
    (pos 1, openai_profile)
    ∷ (pos 20, openrouter_profile)
    ∷ (pos 14, anthropic_profile)
    ∷ (pos 24, gemini_profile)
    ∷ (pos 33, empty_profile)
    ∷ (pos 59, databricks_profile)
    ∷ []

unfoldable pub find_profile : List (ℤ × UpstreamProfile) → ℤ → Option UpstreamProfile
find_profile [] t = none
find_profile ((k, p) ∷ m) t = if int_eq t k then some p else find_profile m t

unfoldable pub profile_for : ℤ → Option UpstreamProfile
unfolding find_profile
profile_for t = find_profile profiles t

unfoldable pub supports_official : ℤ → Bool
unfolding has_official has_official_host_rule profile_for
supports_official t =
    if not (has_official t) && not (has_official_host_rule t)
    then false
    else elim (profile_for t) [ none ↦ false | some _ ↦ true ]

abbrev path_of : Option Resolved → Option Bytes
path_of none = none
path_of (some r) = some r.upstream_path

served :
    (path_of (resolve_route gemini_profile (codes "openai") (codes "/v1/chat/completions"))
      ≡ some (codes "/v1beta/openai/chat/completions"))
    × (path_of (resolve_route gemini_profile (codes "claude") (codes "/v1/messages")) ≡ none)
unfolding resolve_route gemini_openai_path_rewrite
served = (refl, refl)
