-- ===== src/Official/Rules.antt =====
-- pkg/officialurls/officialurls.go: which URLs and hosts are official for a channel type.

use test_enclave_newapi.Common.{
  ℤ, pos, negsuc, int_eq, ◌≡◌, refl, Bool, true, false, not, ◌&&◌, ◌||◌, [], ◌++◌, none, some,
  if◌then◌else◌, get_elem?,
}
use test_enclave_newapi.Text.{
  Bytes, codes, str_eq, has_prefix, has_suffix, contains, trim_suffix, trim_space, to_lower,
}
use test_enclave_newapi.Url.{parse}
use test_enclave_newapi.Url.Percent.{is_empty}
use test_enclave_newapi.Url.Address.{hostname}
use test_enclave_newapi.Official.Table.{base_urls}

-- `For`: "" out of range.
unfoldable pub for_type : ℤ → Bytes
for_type (pos n) = elim (get_elem? base_urls n) [ none ↦ [] | some u ↦ u ]
for_type (negsuc n) = []

unfoldable pub has_official : ℤ → Bool
unfolding for_type
has_official t = not (is_empty (for_type t))

unfoldable pub is_official_url : ℤ → Bytes → Bool
unfolding for_type str_eq
is_official_url t resolved = if is_empty (for_type t) then false else str_eq resolved (for_type t)

-- What `normalizeHost` hands to `url.Parse`.
unfoldable pub as_authority : Bytes → Bytes
unfolding contains
as_authority s = if contains s (codes "://") then s else codes "//" ++ s

-- The lower-case host name of a parsed URL, without a trailing dot.
unfoldable pub host_key : Bytes → Bytes
unfolding to_lower trim_suffix hostname
host_key h = to_lower (trim_suffix (hostname h) (codes "."))

unfoldable pub normalize_host : Bytes → Bytes
normalize_host text =
    if is_empty (trim_space text)
    then []
    else elim (parse (as_authority (trim_space text))) [ none ↦ [] | some u ↦ host_key u.host ]

unfoldable pub has_official_host_rule : ℤ → Bool
has_official_host_rule t =
    int_eq t (pos 3) || int_eq t (pos 33) || int_eq t (pos 41) || int_eq t (pos 59)

-- The `switch` of `IsOfficialHostSuffix`, on the normalised host.
unfoldable pub in_family : ℤ → Bytes → Bool
unfolding has_suffix has_prefix str_eq
in_family t h =
    if int_eq t (pos 3)
    then has_suffix h (codes ".openai.azure.com")
      || has_suffix h (codes ".cognitiveservices.azure.com")
    else if int_eq t (pos 33)
    then has_prefix h (codes "bedrock-runtime.") && has_suffix h (codes ".amazonaws.com")
    else if int_eq t (pos 41)
    then str_eq h (codes "aiplatform.googleapis.com")
      || has_suffix h (codes "-aiplatform.googleapis.com")
    else if int_eq t (pos 59)
    then has_suffix h (codes ".azuredatabricks.net")
      || (has_suffix h (codes ".cloud.databricks.com")
          || has_suffix h (codes ".gcp.databricks.com"))
    else false

unfoldable pub is_official_host_suffix : ℤ → Bytes → Bool
is_official_host_suffix t host =
    if is_empty (normalize_host host) then false else in_family t (normalize_host host)

accepted :
    (is_official_host_suffix (pos 59) (codes "https://User@ADB-1.AzureDatabricks.net.:443/x")
      ≡ true)
    × (is_official_host_suffix (pos 3) (codes "openai.azure.com.attacker.com") ≡ false)
    × (is_official_host_suffix (pos 33) (codes "s3.amazonaws.com") ≡ false)
unfolding is_official_host_suffix normalize_host in_family trim_space as_authority parse host_key
    test_enclave_newapi.Url.parse_unfragmented test_enclave_newapi.Url.parse_rest
    test_enclave_newapi.Url.parse_hierarchy test_enclave_newapi.Url.with_path
    test_enclave_newapi.Url.has_control_byte test_enclave_newapi.Url.get_scheme
    test_enclave_newapi.Url.Percent.unescape test_enclave_newapi.Url.Address.parse_authority
    test_enclave_newapi.Text.from test_enclave_newapi.Text.before
accepted = (refl, refl, refl)
