-- ===== src/Relay/Family.antt =====
-- cmd/relay-core/main.go, `suffixHostUpstreamURL`: the host that a call to a base URL of the control
-- plane is dialled at.
use test_enclave_newapi.Common.{
  ℤ, ◌≡◌, sym, ap, ◌∙◌, inl, inr, true, false, ◌∷◌, ◌++◌, some, some_inj, Bool-cases, Option-cases,
  ok, ok_inj,
}
use test_enclave_newapi.Text.{Bytes, codes, before, has_prefix, trim_space, trim_right}
use test_enclave_newapi.Text.Trim.{trim_space-trim_space}
use test_enclave_newapi.Url.{Url, parse, parse_unfragmented}
use test_enclave_newapi.Url.Laws.{parse_fragment}
use test_enclave_newapi.Url.Percent.{is_empty}
use test_enclave_newapi.Url.Address.{parse_authority}
use test_enclave_newapi.Url.Authority.{authority_of, parse_unfragmented-authority}
use test_enclave_newapi.Url.Shape.{Follows-TailOf, Shape-of, Shape-authority}
use test_enclave_newapi.Official.Rules.{
  as_authority, host_key, normalize_host, in_family, is_official_host_suffix,
}
use test_enclave_newapi.Relay.Base.{Built, host_key-nil, host_of, same_authority, built}
use test_enclave_newapi.Relay.Upstream.{suffix_host_upstream_url}

-- A base URL that passes the host rule.
record Accepted (t : ℤ) (y : Bytes) : Type 0 where
  parsed_url : Url
  parsed : parse (as_authority y) ≡ some parsed_url
  named : is_empty (host_key parsed_url.host) ≡ false
  family : in_family t (host_key parsed_url.host) ≡ true

official-Accepted :
    (t : ℤ) (y : Bytes)
    → trim_space y ≡ y
    → is_empty y ≡ false
    → is_official_host_suffix t y ≡ true
    → Accepted t y
unfolding is_official_host_suffix normalize_host
official-Accepted t y e n h = elim (Option-cases (parse (as_authority y))) [
  | inl o ↦ absurd (cc (rw (is_official_host_suffix, normalize_host, e, n, o) at h))
  | inr (u, o) ↦
      let g = rw (is_official_host_suffix, normalize_host, e, n, o) at h in
      elim (Bool-cases (is_empty (host_key u.host))) [
        | inl y ↦ absurd (cc (rw y at g))
        | inr f ↦ record { parsed_url = u; parsed = o; named = f; family = rw f at g }
      ]
]

Built-family :
    (t : ℤ) (y address : Bytes) (v : Url)
    → Built y address
    → Accepted t y
    → parse_unfragmented address ≡ some v
    → is_empty v.host ≡ false
    → in_family t (host_key v.host) ≡ true
Built-family t y address v b a p e =
    let q = parse_unfragmented-authority address v p e in
    let r : parse_authority (authority_of (b.base ++ b.address_end)) ≡ some v.host =
      ap (λ x. parse_authority (authority_of x)) (sym b.address_whole) ∙ q in
    elim (Shape-of b.base b.address_end b.follows) [
      | inl gone ↦ absurd (cc (host_of (authority_of (b.base ++ b.address_end)) v gone r, e))
      | inr s ↦
          let x =
            ap parse_authority (
              sym (
                Shape-authority b.base b.address_end s
                  (Follows-TailOf b.base b.address_end b.follows)))
            ∙ r in
          let z =
            same_authority y address a.parsed_url b s a.parsed
              (host_key-nil a.parsed_url.host a.named) in
          ap (λ h. in_family t (host_key h)) (some_inj (sym x ∙ z)) ∙ a.family
    ]

-- The URL that suffixHostUpstreamURL gives for a request path that starts with a slash and has no
-- second one there: where url.Parse finds a host in it, this host is in the official family of the
-- channel type, whatever the control plane's base URL and the rest of the path are.
pub suffix_host_upstream_url-family :
    (t : ℤ) (base_url p url : Bytes) (v : Url)
    → has_prefix p (codes "/") ≡ false
    → suffix_host_upstream_url t base_url (b'/' ∷ p) ≡ ok url
    → parse url ≡ some v
    → is_empty v.host ≡ false
    → in_family t (host_key v.host) ≡ true
unfolding suffix_host_upstream_url
suffix_host_upstream_url-family t base_url p url v n h q e =
    let y = trim_space base_url in
    elim (Bool-cases (is_empty y)) [
      | inl m ↦ absurd (cc (rw (m, suffix_host_upstream_url) at h))
      | inr m ↦ elim (Bool-cases (is_official_host_suffix t y)) [
        | inr o ↦ absurd (cc (rw (m, o, suffix_host_upstream_url) at h))
        | inl o ↦
            let w : trim_right y b'/' ++ (b'/' ∷ p) ≡ url =
              ok_inj (rw (m, o, suffix_host_upstream_url) at h) in
            let a = official-Accepted t y (trim_space-trim_space base_url) m o in
            let f : parse_unfragmented (before (trim_right y b'/' ++ (b'/' ∷ p)) b'#') ≡ some v =
              ap (λ x. parse_unfragmented (before x b'#')) w ∙ parse_fragment url v q in
            Built-family t y _ v (built y p n) a f e
      ]
    ]
