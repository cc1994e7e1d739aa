-- ===== src/Relay/Replied.antt =====
-- cmd/relay-core/dispatch.go and aws_bedrock.go: what an outcome says of the upstream's response.
use test_enclave_newapi.Common.{
  ℤ, pos, ◌≡◌, refl, inl, inr, Bool, true, false, List, [], ◌∷◌, ◌||◌, some, int_ltb, int_leb,
  Bool-cases, Option-cases, if◌then◌else◌,
}
use test_enclave_newapi.Text.{Bytes, codes}
use test_enclave_newapi.Url.Percent.{is_empty}
use test_enclave_newapi.Wire.Usage.{Usage, no_usage}
use test_enclave_newapi.Relay.World.{
  HttpRequest, HttpResponse, World, Session, content_type, flushed, note, write_header,
  header_panics, write,
}
use test_enclave_newapi.Relay.Dispatch.{
  Outcome, merge_usage, frame_usage, lines, stream_lines, stream_through, buffer_through,
  pass_through,
}
use test_enclave_newapi.Relay.Bedrock.Call.{
  rejected, answer_client, response_model, bedrock_response,
}
use test_enclave_newapi.Relay.Bedrock.Response.{convert_nova_response_to_openai}

-- The outcome has the response's status, and is no success where its body has failed.
record Ended (code : ℤ) (fails : Bool) (o : Outcome) : Type 0 where
  status : o.status ≡ code
  whole : o.failed ≡ false → fails ≡ false

-- The upstream has answered the call `c`, its body has arrived whole, and `o` has its status.
pub record Replied (w : World) (c : HttpRequest) (o : Outcome) : Type 0 where
  pub response : HttpResponse
  pub answered : w.do_request c ≡ some response
  pub whole : response.body_fails ≡ false
  pub status : o.status ≡ response.status

module _ (w : World) where
  stream_lines-Ended :
      (code : ℤ) (fails : Bool) (ls : List Bytes) (acc : Usage) (s : Session)
      → Ended code fails (stream_lines w code fails ls acc s).0
  unfolding stream_lines
  stream_lines-Ended code fails [] acc s = record { status = refl; whole = λ h. h }
  stream_lines-Ended code fails (l ∷ ls) acc s = elim (Bool-cases (is_empty l)) [
    | inl y ↦ rw (y, stream_lines) (stream_lines-Ended code fails ls acc s)
    | inr n ↦ elim (Bool-cases (write w l s).0) [
      | inr f ↦ rw (n, f, stream_lines) (record { status = refl; whole = λ h. absurd (cc h) })
      | inl t ↦
          rw (n, t, stream_lines)
            (stream_lines-Ended code fails ls (merge_usage acc (frame_usage l))
              (note flushed (write w l s).1))
    ]
  ]

  buffer_through-Ended :
      (image : Bool) (resp : HttpResponse) (s : Session)
      → Ended resp.status resp.body_fails (buffer_through w image resp s).0
  unfolding buffer_through
  buffer_through-Ended image resp s = elim (Bool-cases resp.body_fails) [
    | inl y ↦ simp (y, buffer_through) (record { status = refl; whole = λ h. absurd (cc h) })
    | inr n ↦ elim (Bool-cases (write w resp.body s).0) [
      | inr f ↦ simp (n, f, buffer_through) (record { status = refl; whole = λ h. refl })
      | inl t ↦ simp (n, t, buffer_through) (record { status = refl; whole = λ h. refl })
    ]
  ]

  pass_through-Ended :
      (stream image : Bool) (resp : HttpResponse) (s : Session)
      → Ended resp.status resp.body_fails (pass_through w stream image resp s).0
  unfolding pass_through stream_through
  pass_through-Ended stream image resp s =
      let t = if is_empty resp.content_type then s else note (content_type resp.content_type) s in
      let h = write_header resp.status t in
      elim (Bool-cases (header_panics resp.status t)) [
        | inl p ↦ rw (p, pass_through) (record { status = refl; whole = λ h. absurd (cc h) })
        | inr p ↦
            elim stream
              as (λ b. Ended resp.status resp.body_fails (pass_through w b image resp s).0) [
                | true ↦
                    rw (p, pass_through)
                      (stream_lines-Ended resp.status resp.body_fails (lines resp.body) no_usage h)
                | false ↦ rw (p, pass_through) (buffer_through-Ended image resp h)
              ]
      ]

  rejected-status : (resp : HttpResponse) (s : Session) → (rejected w resp s).0.status ≡ resp.status
  unfolding rejected
  rejected-status resp s = elim (Bool-cases (header_panics resp.status s)) [
    | inl p ↦ rw (p, rejected) refl
    | inr p ↦ rw (p, rejected) refl
  ]

  answer_client-status :
      (resp : HttpResponse) (model id : Bytes) (s : Session)
      → (answer_client w resp model id s).0.status ≡ resp.status
  unfolding answer_client
  answer_client-status resp model id s =
      elim (Option-cases
        (convert_nova_response_to_openai resp.body (response_model model) id w.now_unix)) [
          | inl n ↦ rw (n, answer_client) refl
          | inr (x, e) ↦
              elim (Bool-cases
                (write w x.0 (
                  write_header resp.status (note (content_type (codes "application/json")) s))).0) [
                    | inl t ↦ rw (e, answer_client, t) refl
                    | inr f ↦ rw (e, answer_client, f) refl
                  ]
        ]

  bedrock_response-Ended :
      (resp : HttpResponse) (model id : Bytes) (s : Session)
      → Ended resp.status resp.body_fails (bedrock_response w resp model id s).0
  unfolding bedrock_response
  bedrock_response-Ended resp model id s = elim (Bool-cases resp.body_fails) [
    | inl y ↦ simp (y, bedrock_response) (record { status = refl; whole = λ h. absurd (cc h) })
    | inr n ↦ elim (Bool-cases (int_ltb resp.status (pos 200) || int_leb (pos 300) resp.status)) [
      | inl y ↦
          simp (n, y, bedrock_response)
            (record { status = rejected-status resp s; whole = λ h. refl })
      | inr m ↦
          simp (n, m, bedrock_response)
            (record { status = answer_client-status resp model id s; whole = λ h. refl })
    ]
  ]

  Ended-Replied :
      (c : HttpRequest) (resp : HttpResponse) (o : Outcome)
      → w.do_request c ≡ some resp
      → Ended resp.status resp.body_fails o
      → o.failed ≡ false
      → Replied w c o
  Ended-Replied c resp o a e f = record {
    response = resp;
    answered = a;
    whole = e.whole f;
    status = e.status;
  }

  pub pass_through-Replied :
      (c : HttpRequest) (stream image : Bool) (resp : HttpResponse) (s : Session)
      → w.do_request c ≡ some resp
      → (pass_through w stream image resp s).0.failed ≡ false
      → Replied w c (pass_through w stream image resp s).0
  pass_through-Replied c stream image resp s a f =
      Ended-Replied c resp _ a (pass_through-Ended stream image resp s) f

  pub bedrock_response-Replied :
      (c : HttpRequest) (resp : HttpResponse) (model id : Bytes) (s : Session)
      → w.do_request c ≡ some resp
      → (bedrock_response w resp model id s).0.failed ≡ false
      → Replied w c (bedrock_response w resp model id s).0
  bedrock_response-Replied c resp model id s a f =
      Ended-Replied c resp _ a (bedrock_response-Ended resp model id s) f
