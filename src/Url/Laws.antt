-- ===== src/Url/Laws.antt =====
-- `url.Parse` of an address that starts with `https://`: the host is what stands before the next slash.
use test_enclave_newapi.Common.{
  ℕ, ◌≡◌, ◌≢◌, refl, sym, ap, ◌∙◌, inl, inr, [], ◌∷◌, ◌++◌, some, arith, ◌==◌, drop, Bool-cases,
  Option-cases, some_inj, All-append,
}
use test_enclave_newapi.Text.{Bytes, codes, before, from, has_prefix, str_eq, to_lower}
use test_enclave_newapi.Text.Laws.{Lacks}
use test_enclave_newapi.Text.Cuts.{before-append}
use test_enclave_newapi.Url.{
  Url, found, get_scheme, has_control_byte, with_path, parse_hierarchy, parse_rest,
  parse_unfragmented, parse,
}
use test_enclave_newapi.Url.Percent.{other, unescape}
use test_enclave_newapi.Url.Address.{parse_authority}

-- What is before a byte, behind a text without it.
pub before-prefix : (x s : Bytes) (b : ℕ) → Lacks b x → before (x ++ s) b ≡ x ++ before s b
unfolding before
before-prefix [] s b h = refl
before-prefix (c ∷ x) s b (p, h) = elim (Bool-cases (c == b)) [
  | inl y ↦ absurd (ground arith)
  | inr n ↦ rw n (ap (λ t. c ∷ t) (before-prefix x s b h))
]

pub parse_fragment :
    (raw : Bytes) (u : Url) → parse raw ≡ some u → parse_unfragmented (before raw b'#') ≡ some u
unfolding parse
parse_fragment raw u h = elim (Option-cases (unescape other (drop 1 (from raw b'#')))) [
  | inr (x, e) ↦ rw (e, parse) at h
  | inl n ↦ elim (Option-cases (parse_unfragmented (before raw b'#'))) [
    | inl m ↦ absurd (cc (rw (n, m, parse) at h))
    | inr (v, m) ↦ absurd (cc (rw (n, m, parse) at h))
  ]
]

pub with_path_host :
    (scheme host path query : Bytes) (u : Url)
    → with_path scheme host path query ≡ some u
    → (u.scheme ≡ scheme) × (u.host ≡ host)
unfolding with_path
with_path_host scheme host path query u h = elim (Option-cases (unescape other path)) [
  | inl n ↦ absurd (cc (rw (n, with_path) at h))
  | inr (p, e) ↦ let g = some_inj (rw (e, with_path) at h) in (rw (← g) refl, rw (← g) refl)
]

abbrev pub https : Bytes
https = codes "https"

-- What is left of an authority and a path.
abbrev located : Bytes → Bytes → Bytes
located a r = codes "//" ++ (a ++ b'/' ∷ r)

hierarchy_host :
    (a r query : Bytes) (u : Url)
    → Lacks b'/' a
    → parse_hierarchy https (located a r) query ≡ some u
    → (u.scheme ≡ https) × (parse_authority a ≡ some u.host)
unfolding parse_hierarchy has_prefix
hierarchy_host a r query u l h =
    let e = before-append a r b'/' l in
    elim (Option-cases (parse_authority a)) [
      | inl n ↦ absurd (cc (rw (parse_hierarchy, e, n) at h))
      | inr (host, m) ↦
          let (p, q) = with_path_host https host _ query u (rw (parse_hierarchy, e, m) at h) in
          (p, m ∙ ap some (sym q))
    ]

-- The address of a request, with its scheme.
abbrev pub address : Bytes → Bytes → Bytes
address a r = codes "https:" ++ located a r

query-free : (a : Bytes) → Lacks b'?' a → Lacks b'?' (codes "//" ++ a)
query-free a h = (omega arith, (omega arith, h))

fragment-free : (a : Bytes) → Lacks b'#' a → Lacks b'#' (codes "https://" ++ a)
fragment-free a h =
    All-append (λ c. c ≢ b'#') (codes "https://") a
      (
        omega arith,
        (
          omega arith,
          (
            omega arith,
            (omega arith, (omega arith, (omega arith, (omega arith, (omega arith, tt))))),
          ),
        ),
      )
      h

rest_host :
    (a r : Bytes) (u : Url)
    → Lacks b'/' a
    → Lacks b'?' a
    → parse_rest https (located a r) ≡ some u
    → (u.scheme ≡ https) × (parse_authority a ≡ some u.host)
unfolding parse_rest before
rest_host a r u l m h =
    let e = before-prefix (codes "//" ++ a) (b'/' ∷ r) b'?' (query-free a m) in
    hierarchy_host a (before r b'?') _ u l (rw (parse_rest, e) at h)

pub scheme_found : (s : Bytes) → get_scheme (codes "https:" ++ s) ≡ found https s
unfolding get_scheme
scheme_found s = refl

unfragmented_host :
    (a r : Bytes) (u : Url)
    → Lacks b'/' a
    → Lacks b'?' a
    → parse_unfragmented (address a r) ≡ some u
    → (u.scheme ≡ https) × (parse_authority a ≡ some u.host)
unfolding parse_unfragmented str_eq to_lower
unfragmented_host a r u l m h = elim (Bool-cases (has_control_byte (address a r))) [
  | inl y ↦ absurd (cc (rw (parse_unfragmented, y) at h))
  | inr n ↦ rest_host a r u l m (rw (parse_unfragmented, n, scheme_found (located a r)) at h)
]

-- An address that starts with `https://`, an authority and a slash has exactly the host of this
-- authority, whatever follows the slash; the condition is that the authority has no `/`, `?` or `#`.
pub parse_host_of :
    (a r : Bytes) (u : Url)
    → Lacks b'/' a
    → Lacks b'?' a
    → Lacks b'#' a
    → parse (address a r) ≡ some u
    → (u.scheme ≡ https) × (parse_authority a ≡ some u.host)
unfolding before
parse_host_of a r u l m k h =
    let e = before-prefix (codes "https://" ++ a) (b'/' ∷ r) b'#' (fragment-free a k) in
    let f = parse_fragment (address a r) u h in
    unfragmented_host a (before r b'#') u l m (rw e at f)
