-- ===== src/Relay/Confinement.antt =====
-- cmd/relay-core/main.go: the client's gateway token goes to the control plane and nowhere else.
use test_enclave_newapi.Common.{◌≡◌, refl, sym, ap, ◌∙◌, List, [], ◌∷◌, ◌++◌, Option, none, some}
use test_enclave_newapi.Text.{Bytes}
use test_enclave_newapi.Wire.Messages.{SelectChannelRequest, SelectChannelResponse}
use test_enclave_newapi.Relay.World.{
  World, Session, Event, selected, called, content_type, status, bad_status, wrote, wrote_error,
  flushed, settled, logged, panicked, start, note,
}
use test_enclave_newapi.Relay.Route.{
  ClientRequest, Routing, Routed, routed, refused, aborted, route, select_request,
}
use test_enclave_newapi.Relay.Admit.{Admitted, bedrock, direct, denied, admit}
use test_enclave_newapi.Relay.Serve.{
  settle_request, conclude, dispatch, answered, serve_routed, serve_body, serve_relay,
}
use test_enclave_newapi.Relay.Frame.{answered-above}

-- What happened, without the questions to the control plane.
abbrev pub unasked : List Event → List Event
unasked [] = []
unasked (selected q ∷ es) = unasked es
unasked (called c ∷ es) = called c ∷ unasked es
unasked (settled b ∷ es) = settled b ∷ unasked es
unasked (content_type t ∷ es) = content_type t ∷ unasked es
unasked (status n ∷ es) = status n ∷ unasked es
unasked (bad_status n ∷ es) = bad_status n ∷ unasked es
unasked (wrote b ∷ es) = wrote b ∷ unasked es
unasked (wrote_error m ∷ es) = wrote_error m ∷ unasked es
unasked (flushed ∷ es) = flushed ∷ unasked es
unasked (logged t ∷ es) = logged t ∷ unasked es
unasked (panicked ∷ es) = panicked ∷ unasked es

unasked-append :
    (es : List Event) (q : SelectChannelRequest) → unasked (es ++ selected q ∷ []) ≡ unasked es
unasked-append [] q = refl
unasked-append (selected _ ∷ es) q = unasked-append es q
unasked-append (called c ∷ es) q = ap (λ t. called c ∷ t) (unasked-append es q)
unasked-append (settled b ∷ es) q = ap (λ t. settled b ∷ t) (unasked-append es q)
unasked-append (content_type x ∷ es) q = ap (λ t. content_type x ∷ t) (unasked-append es q)
unasked-append (status n ∷ es) q = ap (λ t. status n ∷ t) (unasked-append es q)
unasked-append (bad_status n ∷ es) q = ap (λ t. bad_status n ∷ t) (unasked-append es q)
unasked-append (wrote b ∷ es) q = ap (λ t. wrote b ∷ t) (unasked-append es q)
unasked-append (wrote_error m ∷ es) q = ap (λ t. wrote_error m ∷ t) (unasked-append es q)
unasked-append (flushed ∷ es) q = ap (λ t. flushed ∷ t) (unasked-append es q)
unasked-append (logged x ∷ es) q = ap (λ t. logged x ∷ t) (unasked-append es q)
unasked-append (panicked ∷ es) q = ap (λ t. panicked ∷ t) (unasked-append es q)

abbrev pub with_authorization : Bytes → ClientRequest → ClientRequest
with_authorization a r = record r { authorization = a }

module _ (w : World) (r : ClientRequest) (a : Bytes) where
  dispatch-same :
      (raw : Bytes) (sel : SelectChannelResponse) (rt : Routing) (x : Admitted) (s : Session)
      → dispatch w (with_authorization a r) raw sel rt x s ≡ dispatch w r raw sel rt x s
  unfolding dispatch conclude settle_request
  dispatch-same raw sel rt (denied code m) s = refl
  dispatch-same raw sel rt (bedrock key model) s = refl
  dispatch-same raw sel rt (direct url key c) s = refl

  answered-same :
      (raw : Bytes) (rt : Routing) (x : Option SelectChannelResponse) (s : Session)
      → answered w (with_authorization a r) raw rt x s ≡ answered w r raw rt x s
  unfolding answered
  answered-same raw rt none s = refl
  answered-same raw rt (some sel) s = dispatch-same raw sel rt (admit w sel rt r.path) s

-- With what the question to the control plane is taken away, the question's place is not seen.
answered-unasked :
    (w : World) (r : ClientRequest) (raw : Bytes) (rt : Routing) (x : Option SelectChannelResponse)
    (q : SelectChannelRequest)
    → unasked (answered w r raw rt x (note (selected q) start)).events
      ≡ unasked (answered w r raw rt x start).events
answered-unasked w r raw rt x q =
    ap (λ s. unasked s.events) (answered-above (selected q ∷ []) w r raw rt x start)
    ∙ unasked-append (answered w r raw rt x start).events q

-- Two questions that differ in the token alone are answered alike.
abbrev pub AnsweredAlike : World → ClientRequest → Bytes → Type 0
AnsweredAlike w r a =
    (rt : Routing)
    → w.select_channel (select_request w.sha256 (with_authorization a r) rt.model rt.is_stream)
      ≡ w.select_channel (select_request w.sha256 r rt.model rt.is_stream)

serve_routed-unasked :
    (w : World) (r : ClientRequest) (a raw : Bytes) (x : Routed)
    → AnsweredAlike w r a
    → unasked (serve_routed w (with_authorization a r) raw x start).events
      ≡ unasked (serve_routed w r raw x start).events
unfolding serve_routed
serve_routed-unasked w r a raw (refused code m) h = refl
serve_routed-unasked w r a raw aborted h = refl
serve_routed-unasked w r a raw (routed rt) h =
    let q = select_request w.sha256 r rt.model rt.is_stream in
    let p = select_request w.sha256 (with_authorization a r) rt.model rt.is_stream in
    answered-unasked w (with_authorization a r) raw rt (w.select_channel p) p
    ∙ (ap (λ s. unasked s.events) (answered-same w r a raw rt (w.select_channel p) start)
        ∙ (ap (λ x. unasked (answered w r raw rt x start).events) (h rt)
            ∙ sym (answered-unasked w r raw rt (w.select_channel q) q)))

serve_body-unasked :
    (w : World) (r : ClientRequest) (a : Bytes) (x : Option Bytes)
    → AnsweredAlike w r a
    → unasked (serve_body w (with_authorization a r) x start).events
      ≡ unasked (serve_body w r x start).events
unfolding serve_body
serve_body-unasked w r a none h = refl
serve_body-unasked w r a (some raw) h = serve_routed-unasked w r a raw (route r.path raw) h

-- Two client requests that differ in the Authorization header alone, and whose questions the control
-- plane answers alike, lead to the same upstream call, the same settlement and the same response:
-- the traces are equal once the questions themselves are left out.
pub serve_relay-unasked :
    (w : World) (r : ClientRequest) (a : Bytes)
    → AnsweredAlike w r a
    → unasked (serve_relay w (with_authorization a r) start).events
      ≡ unasked (serve_relay w r start).events
unfolding serve_relay
serve_relay-unasked w r a h = serve_body-unasked w r a r.body h
