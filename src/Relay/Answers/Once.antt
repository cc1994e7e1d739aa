-- ===== src/Relay/Answers/Once.antt =====
-- cmd/relay-core: the status line of a response is written once.
use test_enclave_newapi.Common.{
  ℕ, ℤ, pos, ◌≡◌, refl, inl, inr, ◌⊎◌, Bool, true, false, List, [], ◌∷◌, Option, none, some,
  Bool-cases, Option-cases, Result-cases, if◌then◌else◌,
}
use test_enclave_newapi.Text.{Bytes, codes}
use test_enclave_newapi.Url.{parse}
use test_enclave_newapi.Wire.Messages.{SelectChannelResponse, SettleRequest}
use test_enclave_newapi.Relay.World.{
  HttpRequest, HttpResponse, World, text, Session, Event, called, start, note, write_error,
}
use test_enclave_newapi.Relay.Dispatch.{Outcome, Credential, send, forward}
use test_enclave_newapi.Relay.Bedrock.Call.{prepare_aws_bedrock_request, forward_aws_bedrock}
use test_enclave_newapi.Relay.Route.{
  ClientRequest, Routing, Routed, routed, refused, aborted, route, select_request, is_image,
}
use test_enclave_newapi.Relay.Admit.{Admitted, bedrock, direct, denied, admit}
use test_enclave_newapi.Relay.Serve.{
  settle, conclude, dispatch, answered, serve_routed, serve_body, serve_relay,
}
use test_enclave_newapi.Relay.Invariants.{pass_through-keeps, bedrock_response-keeps}
use test_enclave_newapi.Relay.Answers.Codes.{
  RefusesProperly, DeniesProperly, route-RefusesProperly, admit-DeniesProperly,
}
use test_enclave_newapi.Relay.Answers.{Aborts, serve_relay-answers}
use test_enclave_newapi.Relay.Answers.Lines.{
  statuses, bad_statuses, OutOfRange, Upstream, Given, Lines, unsent, line, broken, Tidy,
  write_error-Tidy, Tidy-KeptByWriting,
}

either : (w : World) (b : Bool) (s t : Session) → Tidy w s → Tidy w t → Tidy w (if b then s else t)
either w true s t i j = i
either w false s t i j = j

module _ (w : World) where
  answer_of :
      (req : HttpRequest) (resp : HttpResponse)
      → w.do_request req ≡ some resp
      → Upstream w resp.status
  answer_of req resp e = record { request = req; response = resp; answered = e; status = refl }

  send-Tidy :
      (req : HttpRequest) (stream image : Bool) (s : Session)
      → Tidy w s
      → Tidy w (send w req stream image s).1
  unfolding send
  send-Tidy req stream image s i = elim (Option-cases (w.do_request req)) [
    | inl n ↦ rw (n, send) i
    | inr (resp, e) ↦
        rw (e, send)
          (pass_through-keeps (Given w) (Tidy w) (Tidy-KeptByWriting w) w stream image resp
            (note (called req) s) (inr (answer_of req resp e)) i)
  ]

  forward-Tidy :
      (url body key : Bytes) (stream image : Bool) (c : Credential) (s : Session)
      → Tidy w s
      → Tidy w (forward w url body key stream image c s).1
  unfolding forward
  forward-Tidy url body key stream image c s i = elim (Option-cases (parse url)) [
    | inl n ↦ rw (n, forward) i
    | inr (u, e) ↦ rw (e, forward) (send-Tidy _ stream image s i)
  ]

  bedrock-Tidy :
      (body creds model : Bytes) (stream : Bool) (id : Bytes) (s : Session)
      → Tidy w s
      → Tidy w (forward_aws_bedrock w body creds model stream id s).1
  unfolding forward_aws_bedrock
  bedrock-Tidy body creds model stream id s i =
      elim (Result-cases (prepare_aws_bedrock_request w body creds model stream)) [
        | inl (e, n) ↦ rw (n, forward_aws_bedrock) i
        | inr (req, e) ↦ elim (Option-cases (w.do_request req)) [
          | inl n ↦ rw (e, n, forward_aws_bedrock) i
          | inr (resp, f) ↦
              rw (e, f, forward_aws_bedrock)
                (bedrock_response-keeps (Given w) (Tidy w) (Tidy-KeptByWriting w) w resp model id
                  (note (called req) s) (inr (answer_of req resp f)) i)
        ]
      ]

  settle-Tidy : (b : SettleRequest) (s : Session) → Tidy w s → Tidy w (settle w b s)
  unfolding settle
  settle-Tidy b s i = elim (Bool-cases (w.settle b)) [
    | inl y ↦ rw (y, settle) i
    | inr n ↦ rw (n, settle) i
  ]

  conclude-Tidy :
      (r : ClientRequest) (raw : Bytes) (sel : SelectChannelResponse) (rt : Routing) (o : Outcome)
      (s : Session)
      → Tidy w s
      → Tidy w (conclude w r raw sel rt o s)
  unfolding conclude
  conclude-Tidy r raw sel rt o s i = elim (Bool-cases o.failed) [
    | inr n ↦ simp (n, conclude) (settle-Tidy _ s i)
    | inl y ↦
        simp (y, conclude)
          (either w s.wrote_header s
            (write_error (pos 502) (text (codes "upstream request failed")) s) i
            (write_error-Tidy w (pos 502) (text (codes "upstream request failed")) s refl i))
  ]

  dispatch-Tidy :
      (r : ClientRequest) (raw : Bytes) (sel : SelectChannelResponse) (rt : Routing) (a : Admitted)
      (s : Session)
      → DeniesProperly a
      → Tidy w s
      → Tidy w (dispatch w r raw sel rt a s)
  unfolding dispatch
  dispatch-Tidy r raw sel rt (denied code m) s p i = write_error-Tidy w code m s p i
  dispatch-Tidy r raw sel rt (bedrock key model) s p i =
      conclude-Tidy r raw sel rt _ _ (bedrock-Tidy rt.body key model rt.is_stream r.request_id s i)
  dispatch-Tidy r raw sel rt (direct url key c) s p i =
      conclude-Tidy r raw sel rt _ _
        (forward-Tidy url rt.body key rt.is_stream (is_image r.path) c s i)

  answered-Tidy :
      (r : ClientRequest) (raw : Bytes) (rt : Routing) (x : Option SelectChannelResponse)
      (s : Session)
      → Tidy w s
      → Tidy w (answered w r raw rt x s)
  unfolding answered
  answered-Tidy r raw rt none s i = write_error-Tidy w (pos 502) _ s refl i
  answered-Tidy r raw rt (some sel) s i =
      dispatch-Tidy r raw sel rt (admit w sel rt r.path) s (admit-DeniesProperly sel rt r.path w) i

  serve_routed-Tidy :
      (r : ClientRequest) (raw : Bytes) (x : Routed)
      → RefusesProperly x
      → Tidy w (serve_routed w r raw x start)
  unfolding serve_routed
  serve_routed-Tidy r raw (refused code m) p = write_error-Tidy w code m start p unsent
  serve_routed-Tidy r raw aborted p = unsent
  serve_routed-Tidy r raw (routed rt) p =
      answered-Tidy r raw rt (w.select_channel (select_request w.sha256 r rt.model rt.is_stream)) _
        unsent

  serve_body-Tidy : (r : ClientRequest) (x : Option Bytes) → Tidy w (serve_body w r x start)
  unfolding serve_body
  serve_body-Tidy r none = write_error-Tidy w (pos 400) _ start refl unsent
  serve_body-Tidy r (some raw) =
      serve_routed-Tidy r raw (route r.path raw) (route-RefusesProperly r.path raw)

-- One status line and no bad code, or no status line and one code that is out of range, which is the
-- status of a response of the upstream.
abbrev pub AnsweredOnce : World → List Event → Type 0
AnsweredOnce w es =
    ((statuses es ≡ 1) × (bad_statuses es ≡ []))
    ⊎ ((n : ℤ) × (statuses es ≡ 0) × (bad_statuses es ≡ n ∷ []) × OutOfRange n × Upstream w n)

once :
    {w : World} {k : ℕ} {bs : List ℤ} {b : Bool}
    → Lines w k bs b
    → b ≡ true
    → ((k ≡ 1) × (bs ≡ [])) ⊎ ((n : ℤ) × (k ≡ 0) × (bs ≡ n ∷ []) × OutOfRange n × Upstream w n)
once unsent e = absurd (cc e)
once line e = inl (refl, refl)
once (broken n v u) e = inr (n, refl, refl, v, u)

-- Unless its body makes `EnsureStreamUsage` panic, a client request gets exactly one status line,
-- whatever the control plane, the upstream and the connection do; or it gets none, and `WriteHeader`
-- has panicked exactly once, on a code outside 100 to 999 that is the status of a response of the
-- upstream.
pub serve_relay-answers_once :
    (w : World) (r : ClientRequest) → Aborts r ⊎ AnsweredOnce w (serve_relay w r start).events
unfolding serve_relay
serve_relay-answers_once w r = elim (serve_relay-answers w r) [
  | inl a ↦ inl a
  | inr h ↦ inr (once (serve_body-Tidy w r r.body) h)
]
