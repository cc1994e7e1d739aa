-- ===== src/Official/Paths.antt =====
-- pkg/officialurls/profiles.go: the paths that a profile gives for a path of the client.
use test_enclave_newapi.Common.{
  ℤ, int_eq, ◌≡◌, refl, inl, inr, false, List, [], ◌∷◌, ◌++◌, Option, none, some, some_inj,
  Bool-cases, Option-cases, All, drop,
}
use test_enclave_newapi.Text.{Bytes, codes, str_eq, has_prefix}
use test_enclave_newapi.Official.Profiles.{
  FormatRoute, UpstreamProfile, Resolved, rewritten, route_for, resolve_route,
  gemini_openai_path_rewrite, databricks_claude_path_rewrite, profiles, find_profile, profile_for,
}

-- A path that starts with exactly one slash, so that it cannot begin another authority.
abbrev pub OneSlash : Bytes → Type 0
OneSlash path = (p : Bytes) × (path ≡ b'/' ∷ p) × (has_prefix p (codes "/") ≡ false)

abbrev pub Rooting : Option (Bytes → Bytes) → Type 0
Rooting rewrite = (path : Bytes) → OneSlash path → OneSlash (rewritten rewrite path)

-- Every rewriting of a profile keeps a path rooted.
abbrev RoutesRooting : Option (List (Bytes × FormatRoute)) → Type 0
RoutesRooting none = Unit
RoutesRooting (some rs) = All (λ r. Rooting r.1.path_rewrite) rs

abbrev ProfileRooting : UpstreamProfile → Type 0
ProfileRooting p = Rooting p.path_rewrite × RoutesRooting p.routes

unchanged : Rooting none
unchanged path h = h

gemini_openai_path_rewrite-Rooting : Rooting (some gemini_openai_path_rewrite)
unfolding gemini_openai_path_rewrite has_prefix
gemini_openai_path_rewrite-Rooting path h = elim (Bool-cases (has_prefix path (codes "/v1/"))) [
  | inr n ↦ rw (n, gemini_openai_path_rewrite) h
  | inl y ↦ rw (y, gemini_openai_path_rewrite) (codes "v1beta/openai/" ++ drop 4 path, refl, refl)
]

databricks_claude_path_rewrite-Rooting : Rooting (some databricks_claude_path_rewrite)
unfolding databricks_claude_path_rewrite has_prefix
databricks_claude_path_rewrite-Rooting path h = (codes "anthropic" ++ path, refl, refl)

profiles-Rooting : All (λ x. ProfileRooting x.1) profiles
profiles-Rooting = (
  (unchanged, tt),
  (
    (unchanged, tt),
    (
      (unchanged, tt),
      (
        (unchanged, (gemini_openai_path_rewrite-Rooting, (unchanged, tt))),
        (
          (unchanged, tt),
          ((unchanged, (unchanged, (databricks_claude_path_rewrite-Rooting, tt))), tt),
        ),
      ),
    ),
  ),
)

find_profile-Rooting :
    (m : List (ℤ × UpstreamProfile)) (t : ℤ) (p : UpstreamProfile)
    → All (λ x. ProfileRooting x.1) m
    → find_profile m t ≡ some p
    → ProfileRooting p
unfolding find_profile
find_profile-Rooting [] t p k h = absurd (cc h)
find_profile-Rooting ((n, q) ∷ m) t p (k, ks) h = elim (Bool-cases (int_eq t n)) [
  | inl y ↦ rw (← some_inj (rw (y, find_profile) at h)) k
  | inr f ↦ find_profile-Rooting m t p ks (rw (f, find_profile) at h)
]

route_for-Rooting :
    (rs : List (Bytes × FormatRoute)) (format : Bytes) (r : FormatRoute)
    → All (λ x. Rooting x.1.path_rewrite) rs
    → route_for rs format ≡ some r
    → Rooting r.path_rewrite
unfolding route_for
route_for-Rooting [] format r k h = absurd (cc h)
route_for-Rooting ((f, x) ∷ rs) format r (k, ks) h = elim (Bool-cases (str_eq f format)) [
  | inl y ↦ rw (← some_inj (rw (y, route_for) at h)) k
  | inr n ↦ route_for-Rooting rs format r ks (rw (n, route_for) at h)
]

resolve_in :
    (p : UpstreamProfile) (x : Option (List (Bytes × FormatRoute))) (format path : Bytes)
    (v : Resolved)
    → p.routes ≡ x
    → ProfileRooting p
    → OneSlash path
    → resolve_route p format path ≡ some v
    → OneSlash v.upstream_path
unfolding resolve_route
resolve_in p none format path v e k o h = rw (← some_inj (rw (e, resolve_route) at h)) (k.0 path o)
resolve_in p (some rs) format path v e k o h = elim (Option-cases (route_for rs format)) [
  | inl n ↦ absurd (cc (rw (e, n, resolve_route) at h))
  | inr (r, f) ↦
      rw (← some_inj (rw (e, f, resolve_route) at h))
        (route_for-Rooting rs format r (rw e at k.1) f path o)
]

-- What a profile makes of a rooted path is rooted.
pub resolve_route-OneSlash :
    (t : ℤ) (p : UpstreamProfile) (format path : Bytes) (v : Resolved)
    → profile_for t ≡ some p
    → OneSlash path
    → resolve_route p format path ≡ some v
    → OneSlash v.upstream_path
unfolding profile_for
resolve_route-OneSlash t p format path v k o h =
    resolve_in p p.routes format path v refl (find_profile-Rooting profiles t p profiles-Rooting k)
      o h
