-- ===== src/Tests/Server.antt =====
-- cmd/relay-core/server.go on small inputs.
use test_enclave_newapi.Common.{◌≡◌, ◌⊎◌, refl, true, false, [], some, All, if◌then◌else◌}
use test_enclave_newapi.Text.{codes, str_eq, has_prefix}
use test_enclave_newapi.Url.Percent.{other, unescape}
use test_enclave_newapi.Json.Octets.{constant}
use test_enclave_newapi.Relay.World.{start}
use test_enclave_newapi.Relay.Verbatim.{sent_bytes}
use test_enclave_newapi.Relay.Dialled.{CallsChannelled}
use test_enclave_newapi.Server.Handler.{Incoming, serve_attestation, serve_http}
use test_enclave_newapi.Server.Reach.{dealings, Relayed, serve_http-reach}
use test_enclave_newapi.Server.Dialled.{serve_http-Channelled}
use test_enclave_newapi.Server.Attested.{Shown, serve_attestation-Shown}
use test_enclave_newapi.Server.Main.{Process}
use test_enclave_newapi.Tests.Relay.{world, chat}
use test_enclave_newapi.Tests.Services.{device, crypto, cert, built}

abbrev incoming : Incoming
incoming = record {
  is_connect = false;
  escaped_path = codes "/v1/chat/c%6fmpletions";
  relayed = chat;
}

decoded : unescape other incoming.escaped_path ≡ some incoming.relayed.path
unfolding unescape
decoded = refl

serve_http-reach_example :
    Relayed world incoming (serve_http world (some cert) incoming)
    ⊎ (dealings (serve_http world (some cert) incoming) ≡ [])
unfolding has_prefix
serve_http-reach_example = serve_http-reach world (some cert) incoming refl decoded

serve_http-Channelled_example :
    All (CallsChannelled world incoming.relayed) (dealings (serve_http world (some cert) incoming))
unfolding has_prefix
serve_http-Channelled_example = serve_http-Channelled world (some cert) incoming refl decoded

serve_attestation-Shown_example :
    Shown cert (sent_bytes (serve_attestation world (some cert) start).events)
    × (device.quote_for cert.report_data ≡ some cert.quote)
    × (cert.report_data ≡ crypto.sha512 cert.tls.spki)
serve_attestation-Shown_example =
    serve_attestation-Shown world crypto device cert built refl (constant cert.quote refl)
      (constant cert.report_data refl)

-- The first start in an enclave, with a key in the environment.
abbrev process : Process
process = record {
  getenv = λ name. if str_eq name (codes "RELAY_CORE_UPSTREAM_KEY") then codes "sk" else [];
  file_exists = λ path. false;
  write_file_succeeds = true;
  crypto = crypto;
  device = device;
  listen_fails = false;
}
