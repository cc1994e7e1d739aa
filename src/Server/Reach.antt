-- ===== src/Server/Reach.antt =====
-- cmd/relay-core/server.go: what requests for other paths than the API's can reach.
use test_enclave_newapi.Common.{
  pos, ◌≡◌, refl, ap, ◌∙◌, ◌⊎◌, inl, inr, true, List, [], ◌∷◌, Option, some,
}
use test_enclave_newapi.Text.{Bytes, codes, has_prefix}
use test_enclave_newapi.Url.Percent.{other, unescape}
use test_enclave_newapi.Relay.World.{
  World, Event, Session, content_type, start, note, write_header, write,
}
use test_enclave_newapi.Relay.Serve.{serve_relay}
use test_enclave_newapi.Relay.Outside.{outside, write-outside, write_header-outside}
use test_enclave_newapi.Enclave.{Cert}
use test_enclave_newapi.Server.Mux.{
  Endpoint, healthz, attestation, relay, Choice, found, moved, not_found, choose,
}
use test_enclave_newapi.Server.Listed.{is_listed, choose-relay}
use test_enclave_newapi.Server.Handler.{
  Incoming, Answer, handled, redirected, unknown, attestation_texts, write_each, serve_healthz,
  serve_attestation, serve_endpoint, serve_choice, serve_http,
}

-- What the control plane and the upstream see of an answer.
abbrev pub dealings : Answer → List Event
dealings (handled s) = outside s.events
dealings (redirected path) = []
dealings unknown = []

write_each-outside :
    (w : World) (bs : List Bytes) (s : Session)
    → outside (write_each w bs s).events ≡ outside s.events
unfolding write_each
write_each-outside w [] s = refl
write_each-outside w (b ∷ bs) s = write_each-outside w bs (write w b s).1 ∙ write-outside w b s

-- Answered by the relay, for a listed path, or without any dealings.
pub record Relayed (w : World) (i : Incoming) (a : Answer) : Type 0 where
  pub listed : is_listed i.relayed.path ≡ true
  pub same : a ≡ handled (serve_relay w i.relayed start)

endpoint-reach :
    (w : World) (cert : Option Cert) (i : Incoming) (e : Endpoint)
    → (e ≡ relay → is_listed i.relayed.path ≡ true)
    → Relayed w i (handled (serve_endpoint w cert e i.relayed))
      ⊎ (outside (serve_endpoint w cert e i.relayed).events ≡ [])
unfolding serve_endpoint serve_healthz serve_attestation
endpoint-reach w cert i healthz h =
    inr (write_each-outside w (codes "ok" ∷ []) _ ∙ write_header-outside (pos 200) start)
endpoint-reach w cert i attestation h =
    let s = note (content_type (codes "application/json")) start in
    inr (
      write_each-outside w (attestation_texts cert) (write_header (pos 200) s)
      ∙ write_header-outside (pos 200) s)
endpoint-reach w cert i relay h = inl (record { listed = h refl; same = refl })

choice-reach :
    (w : World) (cert : Option Cert) (i : Incoming) (c : Choice)
    → (c ≡ found relay → is_listed i.relayed.path ≡ true)
    → Relayed w i (serve_choice w cert c i.relayed)
      ⊎ (dealings (serve_choice w cert c i.relayed) ≡ [])
unfolding serve_choice
choice-reach w cert i (found e) h = endpoint-reach w cert i e (λ p. h (ap found p))
choice-reach w cert i (moved path) h = inr refl
choice-reach w cert i not_found h = inr refl

-- The control plane and the upstream hear of a request only if its path, decoded from the escaped path
-- that starts with a slash, is one of the API's six paths or starts with /v1beta/models/, and then the
-- answer is that of serveRelay.
pub serve_http-reach :
    (w : World) (cert : Option Cert) (i : Incoming)
    → has_prefix i.escaped_path (codes "/") ≡ true
    → unescape other i.escaped_path ≡ some i.relayed.path
    → Relayed w i (serve_http w cert i) ⊎ (dealings (serve_http w cert i) ≡ [])
unfolding serve_http
serve_http-reach w cert i s u =
    choice-reach w cert i (choose i.is_connect i.escaped_path)
      (choose-relay i.is_connect i.escaped_path i.relayed.path s u)
