-- ===== src/Relay/Client.antt =====
-- cmd/relay-core/dispatch.go, `newStrictUpstreamClient`: the settings of the HTTP client for upstream
-- calls, whose work is a parameter of the model.
use test_enclave_newapi.Common.{ℕ, Bool, true, false, Option, none}
use test_enclave_newapi.Text.{Bytes}

-- `http.Client` with its `http.Transport` and `tls.Config`; the proxy is the function that would choose one.
-- `check_redirect` decides about a redirect, from its URL; none is the library's own rule, which follows
-- up to ten of them, to any host.
pub record ClientSettings : Type 0 where
  pub check_redirect : Option (Bytes → Bool)
  pub proxy : Option (Bytes → Bytes)
  pub min_version : ℕ
  pub insecure_skip_verify : Bool
  pub force_attempt_http2 : Bool
  pub max_idle_conns : ℕ
  pub disable_compression : Bool

-- 0x0303 is TLS 1.2.
abbrev pub new_strict_upstream_client : ClientSettings
new_strict_upstream_client = record {
  check_redirect = none;
  proxy = none;
  min_version = 0x0303;
  insecure_skip_verify = false;
  force_attempt_http2 = true;
  max_idle_conns = 32;
  disable_compression = false;
}
