-- ===== src/Relay/Frame.antt =====
-- cmd/relay-core: the handler only adds to what has happened, and does not look back at it.
use test_enclave_newapi.Common.{
  ℤ, pos, ◌≡◌, refl, ap, ◌∙◌, inl, inr, Bool, true, false, List, [], ◌∷◌, ◌++◌, Option, none, some,
  ◌||◌, int_ltb, int_leb, Bool-cases, Option-cases, Result-cases, if◌then◌else◌,
}
use test_enclave_newapi.Text.{Bytes, codes}
use test_enclave_newapi.Url.{parse}
use test_enclave_newapi.Url.Percent.{is_empty}
use test_enclave_newapi.Wire.Usage.{Usage, no_usage}
use test_enclave_newapi.Wire.Messages.{SettleRequest, SelectChannelResponse}
use test_enclave_newapi.Relay.Route.{ClientRequest, Routing, is_image}
use test_enclave_newapi.Relay.Admit.{Admitted, denied, bedrock, direct, admit}
use test_enclave_newapi.Relay.Serve.{latency, settle_request, settle, conclude, dispatch, answered}
use test_enclave_newapi.Relay.World.{
  HttpRequest, HttpResponse, World, Message, text, Session, Event, content_type, flushed, called,
  note, is_status_code, write_header, header_panics, write, write_error,
}
use test_enclave_newapi.Relay.Dispatch.{
  Outcome, Credential, merge_usage, frame_usage, lines, stream_lines, stream_through,
  buffer_through, pass_through, send, forward,
}
use test_enclave_newapi.Relay.Bedrock.Call.{
  rejected, answer_client, response_model, bedrock_response, prepare_aws_bedrock_request,
  forward_aws_bedrock,
}
use test_enclave_newapi.Relay.Bedrock.Response.{convert_nova_response_to_openai}

-- The session with older events under it.
abbrev pub above : List Event → Session → Session
above es s = record s { events = s.events ++ es }

abbrev pub above_result {ℓ} : {A : Type ℓ} → List Event → A × Session → A × Session
above_result es x = (x.0, above es x.1)

module _ (es : List Event) where
  write_header-above :
      (code : ℤ) (s : Session) → write_header code (above es s) ≡ above es (write_header code s)
  unfolding write_header
  write_header-above code s = elim (Bool-cases s.wrote_header) [
    | inl y ↦ simp (y, write_header)
    | inr n ↦ elim (Bool-cases (is_status_code code)) [
      | inl v ↦ simp (n, v, write_header)
      | inr v ↦ simp (n, v, write_header)
    ]
  ]

  pub write_error-above :
      (code : ℤ) (m : Message) (s : Session)
      → write_error code m (above es s) ≡ above es (write_error code m s)
  unfolding write_error header_panics
  write_error-above code m s =
      let h = write_header-above code (note (content_type (codes "application/json")) s) in
      elim (Bool-cases (s.wrote_header || is_status_code code)) [
        | inl p ↦ rw (h, p) refl
        | inr p ↦ rw (h, p) refl
      ]

  write-above :
      (w : World) (b : Bytes) (s : Session) → write w b (above es s) ≡ above_result es (write w b s)
  unfolding write
  write-above w b s = rw (write_header-above (pos 200) s) refl

module _ (es : List Event) (w : World) where
  stream_lines-above :
      (code : ℤ) (fails : Bool) (ls : List Bytes) (acc : Usage) (s : Session)
      → stream_lines w code fails ls acc (above es s)
        ≡ above_result es (stream_lines w code fails ls acc s)
  unfolding stream_lines
  stream_lines-above code fails [] acc s = refl
  stream_lines-above code fails (l ∷ ls) acc s = elim (Bool-cases (is_empty l)) [
    | inl y ↦ rw (y, stream_lines) (stream_lines-above code fails ls acc s)
    | inr n ↦ elim (Bool-cases (write w l s).0) [
      | inr f ↦ simp (n, stream_lines, write-above es w l s, f)
      | inl t ↦
          let u = merge_usage acc (frame_usage l) in
          let e = ap (λ x. x.0) (write-above es w l s) ∙ t in
          rw (n, stream_lines, e, t)
            (ap (λ x. stream_lines w code fails ls u (note flushed x.1)) (write-above es w l s)
              ∙ stream_lines-above code fails ls u (note flushed (write w l s).1))
    ]
  ]

  buffer_through-above :
      (image : Bool) (resp : HttpResponse) (s : Session)
      → buffer_through w image resp (above es s) ≡ above_result es (buffer_through w image resp s)
  unfolding buffer_through
  buffer_through-above image resp s = elim (Bool-cases resp.body_fails) [
    | inl y ↦ simp (y, buffer_through)
    | inr n ↦ elim (Bool-cases (write w resp.body s).0) [
      | inr f ↦ simp (n, buffer_through, write-above es w resp.body s, f)
      | inl t ↦ simp (n, buffer_through, write-above es w resp.body s, t)
    ]
  ]

  typed-above :
      (t : Bytes) (s : Session)
      → (if is_empty t then above es s else note (content_type t) (above es s))
        ≡ above es (if is_empty t then s else note (content_type t) s)
  typed-above [] s = refl
  typed-above (c ∷ t) s = refl

  panics-above : (code : ℤ) (s : Session) → header_panics code (above es s) ≡ header_panics code s
  unfolding header_panics
  panics-above code s = refl

  pass_through-above :
      (stream image : Bool) (resp : HttpResponse) (s : Session)
      → pass_through w stream image resp (above es s)
        ≡ above_result es (pass_through w stream image resp s)
  unfolding pass_through stream_through
  pass_through-above stream image resp s =
      let t = if is_empty resp.content_type then s else note (content_type resp.content_type) s in
      let q = panics-above resp.status t in
      elim (Bool-cases (header_panics resp.status t)) [
        | inl p ↦
            rw (typed-above resp.content_type s, write_header-above es resp.status t, q, p) refl
        | inr p ↦
            elim stream
              as (λ b.
                pass_through w b image resp (above es s)
                ≡ above_result es (pass_through w b image resp s)) [
                  | true ↦
                      rw
                        (typed-above resp.content_type s, write_header-above es resp.status t, q, p)
                        (stream_lines-above resp.status resp.body_fails (lines resp.body) no_usage
                          (write_header resp.status t))
                  | false ↦
                      rw
                        (typed-above resp.content_type s, write_header-above es resp.status t, q, p)
                        (buffer_through-above image resp (write_header resp.status t))
                ]
      ]

  send-above :
      (req : HttpRequest) (stream image : Bool) (s : Session)
      → send w req stream image (above es s) ≡ above_result es (send w req stream image s)
  unfolding send
  send-above req stream image s = elim (Option-cases (w.do_request req)) [
    | inl n ↦ simp (n, send)
    | inr (resp, e) ↦ rw (e, send) (pass_through-above stream image resp (note (called req) s))
  ]

  pub forward-above :
      (url body key : Bytes) (stream image : Bool) (c : Credential) (s : Session)
      → forward w url body key stream image c (above es s)
        ≡ above_result es (forward w url body key stream image c s)
  unfolding forward
  forward-above url body key stream image c s = elim (Option-cases (parse url)) [
    | inl n ↦ simp (n, forward)
    | inr (u, e) ↦ rw (e, forward) (send-above _ stream image s)
  ]

  written-above :
      (code : ℤ) (b : Bytes) (s : Session)
      → write w b (write_header code (note (content_type (codes "application/json")) (above es s)))
        ≡ above_result es
            (write w b (write_header code (note (content_type (codes "application/json")) s)))
  written-above code b s =
      rw (write_header-above es code (note (content_type (codes "application/json")) s))
        (write-above es w b (write_header code (note (content_type (codes "application/json")) s)))

  rejected-above :
      (resp : HttpResponse) (s : Session)
      → rejected w resp (above es s) ≡ above_result es (rejected w resp s)
  unfolding rejected
  rejected-above resp s =
      let typed = note (content_type (codes "application/json")) s in
      elim (Bool-cases (header_panics resp.status s)) [
        | inl p ↦ rw (panics-above resp.status s, p, write_header-above es resp.status typed) refl
        | inr p ↦ simp (panics-above, p, rejected, written-above)
      ]

  bedrock_response-above :
      (resp : HttpResponse) (model id : Bytes) (s : Session)
      → bedrock_response w resp model id (above es s)
        ≡ above_result es (bedrock_response w resp model id s)
  unfolding bedrock_response answer_client
  bedrock_response-above resp model id s = elim (Bool-cases resp.body_fails) [
    | inl y ↦ simp (y, bedrock_response)
    | inr n ↦ elim (Bool-cases (int_ltb resp.status (pos 200) || int_leb (pos 300) resp.status)) [
      | inl y ↦ simp (n, y, bedrock_response) (rejected-above resp s)
      | inr m ↦
          elim (Option-cases
            (convert_nova_response_to_openai resp.body (response_model model) id w.now_unix)) [
              | inl f ↦ simp (n, m, f, bedrock_response, answer_client)
              | inr (x, e) ↦ simp (n, m, e, bedrock_response, answer_client, written-above)
            ]
    ]
  ]

  pub bedrock-above :
      (body creds model : Bytes) (stream : Bool) (id : Bytes) (s : Session)
      → forward_aws_bedrock w body creds model stream id (above es s)
        ≡ above_result es (forward_aws_bedrock w body creds model stream id s)
  unfolding forward_aws_bedrock
  bedrock-above body creds model stream id s =
      elim (Result-cases (prepare_aws_bedrock_request w body creds model stream)) [
        | inl (e, n) ↦ simp (n, forward_aws_bedrock)
        | inr (req, e) ↦ elim (Option-cases (w.do_request req)) [
          | inl n ↦ simp (e, n, forward_aws_bedrock)
          | inr (resp, f) ↦
              rw (e, f, forward_aws_bedrock)
                (bedrock_response-above resp model id (note (called req) s))
        ]
      ]

  settle-above :
      (b : SettleRequest) (s : Session) → settle w b (above es s) ≡ above es (settle w b s)
  unfolding settle
  settle-above b s = elim (Bool-cases (w.settle b)) [
    | inl y ↦ simp (y, settle)
    | inr n ↦ simp (n, settle)
  ]

  reply-above :
      (b : Bool) (code : ℤ) (m : Message) (s : Session)
      → (if b then above es s else write_error code m (above es s))
        ≡ above es (if b then s else write_error code m s)
  reply-above true code m s = refl
  reply-above false code m s = write_error-above es code m s

  conclude-above :
      (r : ClientRequest) (raw : Bytes) (sel : SelectChannelResponse) (rt : Routing) (o : Outcome)
      (s : Session)
      → conclude w r raw sel rt o (above es s) ≡ above es (conclude w r raw sel rt o s)
  unfolding conclude
  conclude-above r raw sel rt o s =
      elim o.failed
        as (λ b.
          (if b
            then if s.wrote_header
              then above es s
              else write_error (pos 502) (text (codes "upstream request failed")) (above es s)
            else settle w (settle_request r raw sel rt o (latency w)) (above es s))
          ≡ above es (
              if b
              then if s.wrote_header
                then s
                else write_error (pos 502) (text (codes "upstream request failed")) s
              else settle w (settle_request r raw sel rt o (latency w)) s)) [
                | true ↦
                    reply-above s.wrote_header (pos 502) (text (codes "upstream request failed")) s
                | false ↦ settle-above (settle_request r raw sel rt o (latency w)) s
              ]

  dispatch-above :
      (r : ClientRequest) (raw : Bytes) (sel : SelectChannelResponse) (rt : Routing) (a : Admitted)
      (s : Session)
      → dispatch w r raw sel rt a (above es s) ≡ above es (dispatch w r raw sel rt a s)
  unfolding dispatch
  dispatch-above r raw sel rt (denied code m) s = write_error-above es code m s
  dispatch-above r raw sel rt (bedrock key model) s =
      rw (bedrock-above rt.body key model rt.is_stream r.request_id s)
        (conclude-above r raw sel rt _ _)
  dispatch-above r raw sel rt (direct url key c) s =
      rw (forward-above url rt.body key rt.is_stream (is_image r.path) c s)
        (conclude-above r raw sel rt _ _)

  pub answered-above :
      (r : ClientRequest) (raw : Bytes) (rt : Routing) (x : Option SelectChannelResponse)
      (s : Session)
      → answered w r raw rt x (above es s) ≡ above es (answered w r raw rt x s)
  unfolding answered
  answered-above r raw rt none s =
      write_error-above es (pos 502) (text (codes "control plane error")) s
  answered-above r raw rt (some sel) s = dispatch-above r raw sel rt (admit w sel rt r.path) s
