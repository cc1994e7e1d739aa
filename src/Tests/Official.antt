-- ===== src/Tests/Official.antt =====
-- pkg/officialurls on a path that looks like another host, on a text with a slash and a space, and on
-- a Databricks workspace.
use mathlib.Core.List.{Permᴰ}
use test_enclave_newapi.Common.{pos, ◌≡◌, refl, true, false, [], ◌∷◌, some, ok, arith, All}
use test_enclave_newapi.Text.{Bytes, codes, has_prefix, split}
use test_enclave_newapi.Url.{Url, parse}
use test_enclave_newapi.Url.Percent.{other, unescape}
use test_enclave_newapi.Url.Laws.{https}
use test_enclave_newapi.Official.Rules.{for_type, is_official_host_suffix, in_family, host_key}
use test_enclave_newapi.Official.Profiles.{openai_profile, profile_for}
use test_enclave_newapi.Official.SigV4.{aws_uri_encode, canonical_query_string}
use test_enclave_newapi.Official.SigV4.Ordering.{canonical_query_string-Permᴰ}
use test_enclave_newapi.Official.SigV4.Encoding.{unescape-aws_uri_encode}
use test_enclave_newapi.Relay.Upstream.{official_upstream_url, suffix_host_upstream_url}
use test_enclave_newapi.Relay.Family.{suffix_host_upstream_url-family}
use test_enclave_newapi.Relay.Hosts.{Pinned, official_upstream_url-Pinned}
use test_enclave_newapi.Verify.Comparison.{IsByte}

abbrev space : Bytes
space = codes "a/b c"

space-IsByte : All IsByte space
space-IsByte = (omega arith, (omega arith, (omega arith, (omega arith, (omega arith, tt)))))

unescape-aws_uri_encode_example : unescape other (aws_uri_encode space true) ≡ some space
unescape-aws_uri_encode_example = unescape-aws_uri_encode space true space-IsByte

abbrev dialled_url : Url
dialled_url = record {
  scheme = codes "https";
  opaque = [];
  host = codes "api.openai.com";
  path = codes "/v1/@evil.com";
  raw_query = [];
}

official :
    official_upstream_url (pos 1) (codes "/v1/@evil.com")
    ≡ ok (codes "https://api.openai.com/v1/@evil.com")
unfolding official_upstream_url for_type
official = refl

parsed : parse (codes "https://api.openai.com/v1/@evil.com") ≡ some dialled_url
unfolding parse test_enclave_newapi.Url.parse_unfragmented test_enclave_newapi.Url.parse_rest
    test_enclave_newapi.Url.parse_hierarchy test_enclave_newapi.Url.with_path
    test_enclave_newapi.Url.has_control_byte test_enclave_newapi.Url.get_scheme
    test_enclave_newapi.Url.Percent.unescape test_enclave_newapi.Url.Address.parse_authority
    test_enclave_newapi.Text.from test_enclave_newapi.Text.before test_enclave_newapi.Text.str_eq
    test_enclave_newapi.Text.to_lower
parsed = refl

known : profile_for (pos 1) ≡ some openai_profile
unfolding profile_for
known = refl

official_upstream_url-Pinned_example :
    (dialled_url.scheme ≡ https) × Pinned (pos 1) dialled_url.host
official_upstream_url-Pinned_example =
    official_upstream_url-Pinned (pos 1) openai_profile (codes "v1/@evil.com")
      (codes "https://api.openai.com/v1/@evil.com") dialled_url known official parsed

abbrev workspace_base : Bytes
workspace_base = codes " https://w.azuredatabricks.net/serving-endpoints/ "

abbrev workspace_url : Url
workspace_url = record {
  scheme = codes "https";
  opaque = [];
  host = codes "w.azuredatabricks.net";
  path = codes "/serving-endpoints/v1/x";
  raw_query = [];
}

workspace :
    suffix_host_upstream_url (pos 59) workspace_base (b'/' ∷ codes "v1/x")
    ≡ ok (codes "https://w.azuredatabricks.net/serving-endpoints/v1/x")
unfolding suffix_host_upstream_url for_type is_official_host_suffix
    test_enclave_newapi.Official.Rules.normalize_host test_enclave_newapi.Url.parse
    test_enclave_newapi.Official.Rules.as_authority test_enclave_newapi.Text.str_eq
    test_enclave_newapi.Text.to_lower test_enclave_newapi.Official.Rules.host_key
    test_enclave_newapi.Official.Rules.in_family test_enclave_newapi.Url.parse_unfragmented
    test_enclave_newapi.Url.parse_rest test_enclave_newapi.Url.parse_hierarchy
    test_enclave_newapi.Url.with_path test_enclave_newapi.Url.has_control_byte
    test_enclave_newapi.Url.get_scheme test_enclave_newapi.Url.Percent.unescape
    test_enclave_newapi.Url.Address.parse_authority test_enclave_newapi.Text.from
    test_enclave_newapi.Text.before test_enclave_newapi.Text.trim_space
    test_enclave_newapi.Text.trim_right
workspace = refl

workspace_parsed :
    parse (codes "https://w.azuredatabricks.net/serving-endpoints/v1/x") ≡ some workspace_url
unfolding parse test_enclave_newapi.Url.parse_unfragmented test_enclave_newapi.Url.parse_rest
    test_enclave_newapi.Url.parse_hierarchy test_enclave_newapi.Url.with_path
    test_enclave_newapi.Url.has_control_byte test_enclave_newapi.Url.get_scheme
    test_enclave_newapi.Url.Percent.unescape test_enclave_newapi.Url.Address.parse_authority
    test_enclave_newapi.Text.from test_enclave_newapi.Text.before test_enclave_newapi.Text.str_eq
    test_enclave_newapi.Text.to_lower
workspace_parsed = refl

single_slash : has_prefix (codes "v1/x") (codes "/") ≡ false
unfolding has_prefix
single_slash = refl

suffix_host_upstream_url-family_example :
    in_family (pos 59) (host_key (codes "w.azuredatabricks.net")) ≡ true
suffix_host_upstream_url-family_example =
    suffix_host_upstream_url-family (pos 59) workspace_base (codes "v1/x")
      (codes "https://w.azuredatabricks.net/serving-endpoints/v1/x") workspace_url single_slash
      workspace workspace_parsed refl

-- The parameters b=2 and a=1, in both orders.
canonical_query_string-Permᴰ_example :
    canonical_query_string (codes "b=2&a=1") ≡ canonical_query_string (codes "a=1&b=2")
unfolding split
canonical_query_string-Permᴰ_example =
    canonical_query_string-Permᴰ (codes "b=2&a=1") (codes "a=1&b=2") (Permᴰ.swap refl refl)
