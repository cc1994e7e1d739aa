-- ===== src/Relay/Upstream.antt =====
-- cmd/relay-core/main.go: the upstream URL of a channel, and the model in a Gemini path.
use test_enclave_newapi.Common.{
  ℤ, pos, ◌≡◌, refl, not, [], ◌++◌, none, some, if◌then◌else◌, Result, ok, err,
}
use test_enclave_newapi.Text.{Bytes, codes, trim_space, trim_right, cut_str, before}
use test_enclave_newapi.Url.Percent.{is_empty}
use test_enclave_newapi.Official.Rules.{for_type, is_official_host_suffix}

pub data UrlError : Type 0 where
  no_official_base_url : ℤ → UrlError
  no_base_url : ℤ → UrlError
  not_official_host : ℤ → UrlError

unfoldable pub official_upstream_url : ℤ → Bytes → Result UrlError Bytes
official_upstream_url t request_path =
    if is_empty (for_type t) then err (no_official_base_url t) else ok (for_type t ++ request_path)

unfoldable pub suffix_host_upstream_url : ℤ → Bytes → Bytes → Result UrlError Bytes
suffix_host_upstream_url t base_url request_path =
    let base = trim_space base_url in
    if is_empty base
    then err (no_base_url t)
    else if not (is_official_host_suffix t base)
    then err (not_official_host t)
    else ok (trim_right base b'/' ++ request_path)

-- The text between `/models/` and the next colon.
unfoldable pub model_from_gemini_path : Bytes → Bytes
unfolding cut_str before
model_from_gemini_path path = elim (cut_str path (codes "/models/")) [
  | none ↦ []
  | some (_, rest) ↦ before rest b':'
]

urls :
    (official_upstream_url (pos 1) (codes "/v1/responses")
      ≡ ok (codes "https://api.openai.com/v1/responses"))
    × (suffix_host_upstream_url
          (pos 59)
          (codes " https://w.azuredatabricks.net/serving-endpoints/ ")
          (codes "/v1/x")
        ≡ ok (codes "https://w.azuredatabricks.net/serving-endpoints/v1/x"))
    × (suffix_host_upstream_url
          (pos 59)
          (codes "https://evil.com/.azuredatabricks.net")
          (codes "/v1/x")
        ≡ err (not_official_host (pos 59)))
unfolding official_upstream_url suffix_host_upstream_url for_type is_official_host_suffix
    test_enclave_newapi.Official.Rules.normalize_host test_enclave_newapi.Url.parse
    test_enclave_newapi.Official.Rules.as_authority test_enclave_newapi.Text.str_eq
    test_enclave_newapi.Text.to_lower test_enclave_newapi.Official.Rules.host_key
    test_enclave_newapi.Official.Rules.in_family test_enclave_newapi.Url.parse_unfragmented
    test_enclave_newapi.Url.parse_rest test_enclave_newapi.Url.parse_hierarchy
    test_enclave_newapi.Url.with_path test_enclave_newapi.Url.has_control_byte
    test_enclave_newapi.Url.get_scheme test_enclave_newapi.Url.Percent.unescape
    test_enclave_newapi.Url.Address.parse_authority test_enclave_newapi.Text.from
    test_enclave_newapi.Text.before trim_space trim_right
urls = (refl, refl, refl)

gemini :
    model_from_gemini_path (codes "/v1beta/models/gemini-2.0-flash:generateContent")
    ≡ codes "gemini-2.0-flash"
unfolding model_from_gemini_path
gemini = refl
