-- ===== src/Relay/Answers.antt =====
-- cmd/relay-core: every client request gets one response.
pub mod Codes
pub mod Lines
pub mod Once
use test_enclave_newapi.Common.{
  ℕ, ◌+◌, suc, ℤ, pos, ◌≡◌, refl, sym, ap, ◌∙◌, inl, inr, ◌⊎◌, Bool, true, false, List, [], ◌∷◌,
  Option, none, some, ◌||◌, int_ltb, int_leb, Bool-cases, Option-cases, Result-cases, if◌then◌else◌,
  Result, ok, err,
}
use test_enclave_newapi.Text.{Bytes, codes}
use test_enclave_newapi.Url.{parse}
use test_enclave_newapi.Url.Percent.{is_empty}
use test_enclave_newapi.Wire.Usage.{Usage, no_usage}
use test_enclave_newapi.Wire.Messages.{SelectChannelResponse, SettleRequest}
use test_enclave_newapi.Relay.World.{
  HttpRequest, HttpResponse, World, Message, text, Session, Event, content_type, called, start,
  note, is_status_code, write_header, header_panics, write, write_error,
}
use test_enclave_newapi.Relay.Dispatch.{
  Outcome, Credential, lines, stream_through, buffer_through, pass_through, send, forward,
}
use test_enclave_newapi.Relay.Bedrock.Call.{
  prepare_aws_bedrock_request, forward_aws_bedrock, rejected, rejected_body, answer_client,
  response_model, bedrock_response,
}
use test_enclave_newapi.Relay.Bedrock.Response.{convert_nova_response_to_openai}
use test_enclave_newapi.Relay.Route.{
  ClientRequest, Routing, Routed, routed, refused, aborted, route, select_request, is_image,
}
use test_enclave_newapi.Relay.Admit.{Admitted, bedrock, direct, denied, admit}
use test_enclave_newapi.Relay.Serve.{
  settle, conclude, dispatch, answered, serve_routed, serve_body, serve_relay,
}
use test_enclave_newapi.Relay.Invariants.{KeptByWriting, stream_lines-keeps, buffer_through-keeps}

-- The response's header is out.
abbrev pub Answered : Session → Type 0
Answered s = s.wrote_header ≡ true

write_header-answers : (code : ℤ) (s : Session) → Answered (write_header code s)
unfolding write_header
write_header-answers code s =
    elim s.wrote_header as (λ b. Answered (write_header code (record s { wrote_header = b }))) [
      | true ↦ refl
      | false ↦ refl
    ]

write-answers : (w : World) (b : Bytes) (s : Session) → Answered (write w b s).1
unfolding write
write-answers w b s = write_header-answers (pos 200) s

write_error-answers : (code : ℤ) (m : Message) (s : Session) → Answered (write_error code m s)
unfolding write_error
write_error-answers code m s =
    let h = write_header-answers code (note (content_type (codes "application/json")) s) in
    elim (Bool-cases (header_panics code s)) [
      | inl p ↦ rw (p, write_error) h
      | inr p ↦ rw (p, write_error) h
    ]

Answered-KeptByWriting : KeptByWriting (λ _. Unit) Answered
Answered-KeptByWriting = record {
  heads = λ code s c i. write_header-answers code s;
  types = λ t s i. i;
  flushes = λ s i. i;
  writes = λ w b s i. write-answers w b s;
}

-- A call that did not fail has been answered.
abbrev AnsweredBy : Outcome × Session → Type 0
AnsweredBy x = (x.0.failed ≡ true) ⊎ Answered x.1

unanswered :
    (o : Outcome) (s : Session) → o.failed ≡ false → s.wrote_header ≡ false → AnsweredBy (o, s) → ⊥
unanswered o s z n (inl h) = absurd (cc (z, h))
unanswered o s z n (inr h) = absurd (cc (n, h))

module _ (w : World) where
  pass_through-answers :
      (stream image : Bool) (resp : HttpResponse) (s : Session)
      → Answered (pass_through w stream image resp s).1
  unfolding pass_through stream_through
  pass_through-answers stream image resp s =
      let t = if is_empty resp.content_type then s else note (content_type resp.content_type) s in
      let h = write_header-answers resp.status t in
      elim (Bool-cases (header_panics resp.status t)) [
        | inl p ↦ rw (p, pass_through) h
        | inr p ↦ elim stream as (λ b. Answered (pass_through w b image resp s).1) [
          | true ↦
              rw (p, pass_through)
                (stream_lines-keeps (λ _. Unit) Answered Answered-KeptByWriting w resp.status
                  resp.body_fails (lines resp.body) no_usage (write_header resp.status t) h)
          | false ↦
              rw (p, pass_through)
                (buffer_through-keeps (λ _. Unit) Answered Answered-KeptByWriting w image resp
                  (write_header resp.status t) h)
        ]
      ]

  send-answers :
      (req : HttpRequest) (stream image : Bool) (s : Session)
      → AnsweredBy (send w req stream image s)
  unfolding send
  send-answers req stream image s = elim (Option-cases (w.do_request req)) [
    | inl n ↦ rw (n, send) (inl refl)
    | inr (resp, e) ↦
        rw (e, send) (inr (pass_through-answers stream image resp (note (called req) s)))
  ]

  forward-answers :
      (url body key : Bytes) (stream image : Bool) (c : Credential) (s : Session)
      → AnsweredBy (forward w url body key stream image c s)
  unfolding forward
  forward-answers url body key stream image c s = elim (Option-cases (parse url)) [
    | inl n ↦ rw (n, forward) (inl refl)
    | inr (u, e) ↦ rw (e, forward) (send-answers _ stream image s)
  ]

  answer_client-answers :
      (resp : HttpResponse) (model id : Bytes) (s : Session)
      → AnsweredBy (answer_client w resp model id s)
  unfolding answer_client
  answer_client-answers resp model id s =
      elim (Option-cases
        (convert_nova_response_to_openai resp.body (response_model model) id w.now_unix)) [
          | inl n ↦ rw (n, answer_client) (inl refl)
          | inr (x, e) ↦ rw (e, answer_client) (inr (write-answers w x.0 _))
        ]

  rejected-answers : (resp : HttpResponse) (s : Session) → AnsweredBy (rejected w resp s)
  unfolding rejected
  rejected-answers resp s = elim (Bool-cases (header_panics resp.status s)) [
    | inl p ↦ rw (p, rejected) (inl refl)
    | inr p ↦ rw (p, rejected) (inr (write-answers w rejected_body _))
  ]

  bedrock_response-answers :
      (resp : HttpResponse) (model id : Bytes) (s : Session)
      → AnsweredBy (bedrock_response w resp model id s)
  unfolding bedrock_response
  bedrock_response-answers resp model id s = elim (Bool-cases resp.body_fails) [
    | inl y ↦ simp (y, bedrock_response) (inl refl)
    | inr n ↦ elim (Bool-cases (int_ltb resp.status (pos 200) || int_leb (pos 300) resp.status)) [
      | inl y ↦ simp (n, y, bedrock_response) (rejected-answers resp s)
      | inr m ↦ simp (n, m, bedrock_response) (answer_client-answers resp model id s)
    ]
  ]

  bedrock-answers :
      (body creds model : Bytes) (stream : Bool) (id : Bytes) (s : Session)
      → AnsweredBy (forward_aws_bedrock w body creds model stream id s)
  unfolding forward_aws_bedrock
  bedrock-answers body creds model stream id s =
      elim (Result-cases (prepare_aws_bedrock_request w body creds model stream)) [
        | inl (e, n) ↦ rw (n, forward_aws_bedrock) (inl refl)
        | inr (req, e) ↦ elim (Option-cases (w.do_request req)) [
          | inl n ↦ rw (e, n, forward_aws_bedrock) (inl refl)
          | inr (resp, f) ↦
              rw (e, f, forward_aws_bedrock)
                (bedrock_response-answers resp model id (note (called req) s))
        ]
      ]

  settle-wrote : (b : SettleRequest) (s : Session) → (settle w b s).wrote_header ≡ s.wrote_header
  unfolding settle
  settle-wrote b s = elim (Bool-cases (w.settle b)) [
    | inl y ↦ rw (y, settle) refl
    | inr n ↦ rw (n, settle) refl
  ]

  conclude-answers :
      (r : ClientRequest) (raw : Bytes) (sel : SelectChannelResponse) (rt : Routing) (o : Outcome)
      (s : Session)
      → AnsweredBy (o, s)
      → Answered (conclude w r raw sel rt o s)
  unfolding conclude
  conclude-answers r raw sel rt o s a = elim (Bool-cases s.wrote_header) [
    | inl y ↦ elim (Bool-cases o.failed) [
      | inl z ↦ simp (z, y, conclude)
      | inr z ↦ simp (z, conclude, settle-wrote, y)
    ]
    | inr n ↦ elim (Bool-cases o.failed) [
      | inl z ↦ simp (z, n, conclude) (write_error-answers (pos 502) _ s)
      | inr z ↦ absurd (unanswered o s z n a)
    ]
  ]

  dispatch-answers :
      (r : ClientRequest) (raw : Bytes) (sel : SelectChannelResponse) (rt : Routing) (a : Admitted)
      (s : Session)
      → Answered (dispatch w r raw sel rt a s)
  unfolding dispatch
  dispatch-answers r raw sel rt (denied code m) s = write_error-answers code m s
  dispatch-answers r raw sel rt (bedrock key model) s =
      conclude-answers r raw sel rt _ _
        (bedrock-answers rt.body key model rt.is_stream r.request_id s)
  dispatch-answers r raw sel rt (direct url key c) s =
      conclude-answers r raw sel rt _ _
        (forward-answers url rt.body key rt.is_stream (is_image r.path) c s)

  answered-answers :
      (r : ClientRequest) (raw : Bytes) (rt : Routing) (x : Option SelectChannelResponse)
      (s : Session)
      → Answered (answered w r raw rt x s)
  unfolding answered
  answered-answers r raw rt none s = write_error-answers (pos 502) _ s
  answered-answers r raw rt (some sel) s = dispatch-answers r raw sel rt (admit w sel rt r.path) s

-- The client's body makes `EnsureStreamUsage` panic.
pub record Aborts (r : ClientRequest) : Type 0 where
  pub raw : Bytes
  pub read : r.body ≡ some raw
  pub aborts : route r.path raw ≡ aborted

serve_routed-answers :
    (w : World) (r : ClientRequest) (raw : Bytes) (x : Routed)
    → r.body ≡ some raw
    → route r.path raw ≡ x
    → Aborts r ⊎ Answered (serve_routed w r raw x start)
unfolding serve_routed
serve_routed-answers w r raw (refused code m) b e = inr (write_error-answers code m start)
serve_routed-answers w r raw aborted b e = inl (record { raw = raw; read = b; aborts = e })
serve_routed-answers w r raw (routed rt) b e = inr (
    answered-answers w r raw rt (w.select_channel (select_request w.sha256 r rt.model rt.is_stream))
      _)

serve_body-answers :
    (w : World) (r : ClientRequest) (x : Option Bytes)
    → r.body ≡ x
    → Aborts r ⊎ Answered (serve_body w r x start)
unfolding serve_body
serve_body-answers w r none e = inr (write_error-answers (pos 400) _ start)
serve_body-answers w r (some raw) e = serve_routed-answers w r raw (route r.path raw) e refl

pub serve_relay-answers :
    (w : World) (r : ClientRequest) → Aborts r ⊎ Answered (serve_relay w r start)
unfolding serve_relay
serve_relay-answers w r = serve_body-answers w r r.body refl
