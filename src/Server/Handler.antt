-- ===== src/Server/Handler.antt =====
-- cmd/relay-core/server.go, `newHandler`: the answer to a request. `/healthz` and `/attestation` write to
-- a response that nothing has been written to, with the header first.
use test_enclave_newapi.Common.{pos, Bool, List, [], ◌∷◌, Option, none, some, if◌then◌else◌}
use test_enclave_newapi.Text.{Bytes, codes}
use test_enclave_newapi.Base64.{encode_std}
use test_enclave_newapi.Relay.Tokens.{hex_encode}
use test_enclave_newapi.Relay.World.{World, Session, content_type, start, note, write_header, write}
use test_enclave_newapi.Relay.Route.{ClientRequest}
use test_enclave_newapi.Relay.Serve.{serve_relay}
use test_enclave_newapi.Enclave.{Cert}
use test_enclave_newapi.Server.Mux.{
  Endpoint, healthz, attestation, relay, Choice, found, moved, not_found, choose,
}

-- The request as the server has parsed it: `escaped_path` is `r.URL.EscapedPath()`, and the path of
-- `relayed` is `r.URL.Path`.
pub record Incoming : Type 0 where
  pub is_connect : Bool
  pub escaped_path : Bytes
  pub relayed : ClientRequest

-- `http.Redirect` and `http.NotFound` are the mux's own answers.
pub data Answer : Type 0 where
  handled : Session → Answer
  redirected : Bytes → Answer
  unknown : Answer

-- `b64`
unfoldable pub b64 : Bytes → Bytes
unfolding encode_std
b64 b = encode_std b

-- `hexstr`
unfoldable pub hexstr : Bytes → Bytes
unfolding hex_encode
hexstr b = hex_encode b

-- The texts that `/attestation` writes, one after the other; the certificate may be nil.
unfoldable pub attestation_texts : Option Cert → List Bytes
unfolding b64 hexstr
attestation_texts none =
    codes "{\"attested\":false,\"reason\":\"not running in an SGX enclave\"}" ∷ []
attestation_texts (some cert) =
    if cert.attested
    then codes "{\"attested\":true,\"quote_b64\":\""
      ∷ b64 cert.quote
      ∷ codes "\",\"report_data_hex\":\""
      ∷ hexstr cert.report_data
      ∷ codes "\"}"
      ∷ []
    else codes "{\"attested\":false,\"reason\":\"not running in an SGX enclave\"}" ∷ []

module _ (w : World) where
  -- Errors of writing are dropped.
  unfoldable pub write_each : List Bytes → Session → Session
  write_each [] s = s
  write_each (b ∷ bs) s = write_each bs (write w b s).1

  unfoldable pub serve_healthz : Session → Session
  serve_healthz s = write_each (codes "ok" ∷ []) (write_header (pos 200) s)

  unfoldable pub serve_attestation : Option Cert → Session → Session
  serve_attestation ra_cert s =
      write_each (attestation_texts ra_cert)
        (write_header (pos 200) (note (content_type (codes "application/json")) s))

  unfoldable pub serve_endpoint : Option Cert → Endpoint → ClientRequest → Session
  serve_endpoint ra_cert healthz r = serve_healthz start
  serve_endpoint ra_cert attestation r = serve_attestation ra_cert start
  serve_endpoint ra_cert relay r = serve_relay w r start

  unfoldable pub serve_choice : Option Cert → Choice → ClientRequest → Answer
  serve_choice ra_cert (found e) r = handled (serve_endpoint ra_cert e r)
  serve_choice ra_cert (moved path) r = redirected path
  serve_choice ra_cert not_found r = unknown

  -- The handler that `newHandler` returns.
  unfoldable pub serve_http : Option Cert → Incoming → Answer
  serve_http ra_cert i = serve_choice ra_cert (choose i.is_connect i.escaped_path) i.relayed
