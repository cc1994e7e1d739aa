-- ===== src/Relay/Protocol.antt =====
-- cmd/relay-core/main.go, `serveRelay`: the order of what the handler does with the control plane,
-- the upstream and the settlement.
use test_enclave_newapi.Common.{
  pos, ◌≡◌, refl, inl, inr, false, List, [], ◌∷◌, Option, none, some, Bool-cases,
}
use test_enclave_newapi.Text.{Bytes}
use test_enclave_newapi.Wire.Messages.{SelectChannelRequest, SelectChannelResponse}
use test_enclave_newapi.Relay.World.{
  HttpRequest, World, Session, Event, selected, called, settled, start, note,
}
use test_enclave_newapi.Relay.Dispatch.{Outcome, forward}
use test_enclave_newapi.Relay.Bedrock.Call.{forward_aws_bedrock}
use test_enclave_newapi.Relay.Replied.{Replied}
use test_enclave_newapi.Relay.Route.{
  is_image, ClientRequest, Routing, Routed, routed, refused, aborted, route, select_request,
}
use test_enclave_newapi.Relay.Admit.{Admitted, denied, bedrock, direct, admit}
use test_enclave_newapi.Relay.Serve.{
  latency, settle_request, conclude, dispatch, answered, serve_routed, serve_body, serve_relay,
}
use test_enclave_newapi.Relay.Officiality.{Vetted, refuses, calls, signs, admit-Vetted}
use test_enclave_newapi.Relay.Calls.{ProviderCall, verbatim, prepare_sound}
use test_enclave_newapi.Relay.Outside.{
  outside, write_error-outside, if-both, Attempt, unsent, made, forward-Attempt, bedrock-Attempt,
  settle-outside,
}

-- The question that the client's request leads to: about the model and the stream flag of the
-- routing, with the token of this client.
pub record Asked (w : World) (r : ClientRequest) (q : SelectChannelRequest) : Type 0 where
  pub raw : Bytes
  pub routing : Routing
  pub read : r.body ≡ some raw
  pub routes : route r.path raw ≡ routed routing
  pub question : q ≡ select_request w.sha256 r routing.model routing.is_stream

-- The outcome of the upstream call that an admitted channel leads to.
abbrev pub dispatched : World → ClientRequest → Routing → Admitted → Session → Option Outcome
dispatched w r rt (denied code m) s = none
dispatched w r rt (bedrock key model) s =
    some (forward_aws_bedrock w rt.body key model rt.is_stream r.request_id s).0
dispatched w r rt (direct url key c) s =
    some (forward w url rt.body key rt.is_stream (is_image r.path) c s).0

-- How a channel's call has ended: with the outcome that the dispatch leads to, which is no failure, and
-- with an answer of the upstream to this call.
pub record Succeeds (w : World) (r : ClientRequest) (rt : Routing) (sel : SelectChannelResponse)
    (q : SelectChannelRequest) (c : HttpRequest) (o : Outcome) : Type 0 where
  pub outcome : dispatched w r rt (admit w sel rt r.path) (note (selected q) start) ≡ some o
  pub succeeded : o.failed ≡ false
  pub replied : Replied w c o

-- A channel is selected, then one call is made to an official address of this channel, with the body
-- that the routing hands on or its conversion, then it is settled for this channel; the handler may
-- stop earlier.
pub data Protocol (w : World) (r : ClientRequest) : List Event → Type 0 where
  idle : Protocol w r []
  asked : (q : SelectChannelRequest) → Asked w r q → Protocol w r (selected q ∷ [])
  sent :
      (q : SelectChannelRequest) (sel : SelectChannelResponse) (c : HttpRequest) (a : Asked w r q)
      → w.select_channel q ≡ some sel
      → ProviderCall w a.routing sel r.path c
      → Protocol w r (called c ∷ selected q ∷ [])
  billed :
      (q : SelectChannelRequest) (sel : SelectChannelResponse) (c : HttpRequest) (o : Outcome)
      (a : Asked w r q)
      → w.select_channel q ≡ some sel
      → ProviderCall w a.routing sel r.path c
      → Succeeds w r a.routing sel q c o
      → Protocol w r (
          settled (settle_request r a.raw sel a.routing o (latency w)) ∷ called c ∷ selected q ∷ [])

module _ (w : World) (r : ClientRequest) (q : SelectChannelRequest) (k : Asked w r q) where
  -- The outcome is that of the dispatch.
  abbrev Led : SelectChannelResponse → Outcome → Type 0
  Led sel o =
      dispatched w r k.routing (admit w sel k.routing r.path) (note (selected q) start) ≡ some o

  -- The session stands where the question has been asked.
  abbrev Tried : SelectChannelResponse → Outcome × Session → Type 0
  Tried sel x = Attempt w (λ c. ProviderCall w k.routing sel r.path c) (selected q ∷ []) x

  attempted :
      (sel : SelectChannelResponse) {x : Outcome × Session}
      → w.select_channel q ≡ some sel
      → Tried sel x
      → Protocol w r (outside x.1.events)
  attempted sel f (unsent _ e) = rw e (asked q k)
  attempted sel f (made c o e a) = rw e (sent q sel c k f o)

  billed_of :
      (sel : SelectChannelResponse) {x : Outcome × Session}
      → w.select_channel q ≡ some sel
      → Led sel x.0
      → x.0.failed ≡ false
      → Tried sel x
      → Protocol w r
          (settled (settle_request r k.raw sel k.routing x.0 (latency w)) ∷ outside x.1.events)
  billed_of sel f d n (unsent y _) = absurd (cc (n, y))
  billed_of sel {x} f d n (made c o e a) =
      rw e (billed q sel c x.0 k f o (record { outcome = d; succeeded = n; replied = a n }))

  conclude-Protocol :
      (sel : SelectChannelResponse) (o : Outcome) (s : Session)
      → w.select_channel q ≡ some sel
      → Led sel o
      → Tried sel (o, s)
      → Protocol w r (outside (conclude w r k.raw sel k.routing o s).events)
  unfolding conclude
  conclude-Protocol sel o s f d a = elim (Bool-cases o.failed) [
    | inl y ↦
        simp (y, conclude)
          (if-both (λ t. Protocol w r (outside t.events)) s.wrote_header (attempted sel f a)
            (rw (write_error-outside (pos 502) _ s) (attempted sel f a)))
    | inr n ↦ simp (n, conclude) (rw (settle-outside w _ s) (billed_of sel f d n a))
  ]

  dispatch-Protocol :
      (sel : SelectChannelResponse) (a : Admitted)
      → w.select_channel q ≡ some sel
      → admit w sel k.routing r.path ≡ a
      → Vetted sel r.path a
      → Protocol w r (outside (dispatch w r k.raw sel k.routing a (note (selected q) start)).events)
  unfolding dispatch
  dispatch-Protocol sel _ f h (refuses code m) =
      rw (write_error-outside code m (note (selected q) start)) (asked q k)
  dispatch-Protocol sel _ f h (signs creds model t v) = conclude-Protocol sel _ _ f (rw h refl) (
      bedrock-Attempt w (λ c. ProviderCall w k.routing sel r.path c) k.routing.body creds model
        k.routing.is_stream r.request_id (note (selected q) start)
        (λ req e. prepare_sound w k.routing creds model sel r.path req t v e))
  dispatch-Protocol sel _ f h (calls url key c o) = conclude-Protocol sel _ _ f (rw h refl) (
      forward-Attempt w (λ d. ProviderCall w k.routing sel r.path d) url k.routing.body key
        k.routing.is_stream (is_image r.path) c (note (selected q) start)
        (λ req e p b. record {
          official = record { parsed = rw e p; official = rw e o };
          carried = verbatim b;
        }))

  answered-Protocol :
      (x : Option SelectChannelResponse)
      → w.select_channel q ≡ x
      → Protocol w r (outside (answered w r k.raw k.routing x (note (selected q) start)).events)
  unfolding answered
  answered-Protocol none e =
      rw (write_error-outside (pos 502) _ (note (selected q) start)) (asked q k)
  answered-Protocol (some sel) e =
      dispatch-Protocol sel (admit w sel k.routing r.path) e refl
        (admit-Vetted sel r.path w k.routing)

serve_routed-Protocol :
    (w : World) (r : ClientRequest) (raw : Bytes) (x : Routed)
    → r.body ≡ some raw
    → route r.path raw ≡ x
    → Protocol w r (outside (serve_routed w r raw x start).events)
unfolding serve_routed
serve_routed-Protocol w r raw (refused code m) b e = rw (write_error-outside code m start) idle
serve_routed-Protocol w r raw aborted b e = idle
serve_routed-Protocol w r raw (routed rt) b e =
    let q = select_request w.sha256 r rt.model rt.is_stream in
    answered-Protocol w r q
      (record { raw = raw; routing = rt; read = b; routes = e; question = refl })
      (w.select_channel q) refl

serve_body-Protocol :
    (w : World) (r : ClientRequest) (x : Option Bytes)
    → r.body ≡ x
    → Protocol w r (outside (serve_body w r x start).events)
unfolding serve_body
serve_body-Protocol w r none e = rw (write_error-outside (pos 400) _ start) idle
serve_body-Protocol w r (some raw) e = serve_routed-Protocol w r raw (route r.path raw) e refl

-- For every client request, and whatever the control plane, the upstream and the client's connection
-- do, the handler's dealings with the outside are a prefix of: one question to the control plane,
-- about the model and the stream flag of the routing; one upstream call, to an address that the
-- enclave's tables allow for the selected channel and that is parsed as the URL of the call, with the
-- body that the routing hands on or its conversion; and one settlement for this channel, of the outcome
-- that the dispatch of the channel ends with: it is no failure, the upstream has answered this call, the
-- body has arrived whole, and the outcome has the answer's status.
pub serve_relay-Protocol :
    (w : World) (r : ClientRequest) → Protocol w r (outside (serve_relay w r start).events)
unfolding serve_relay
serve_relay-Protocol w r = serve_body-Protocol w r r.body refl
