-- ===== src/Relay/Invariants.antt =====
-- cmd/relay-core/dispatch.go and aws_bedrock.go: what holds of a session and is kept by every
-- write to the client is kept by the answers to the client as a whole.
use test_enclave_newapi.Common.{
  ℤ, pos, inl, inr, Bool, true, false, List, [], ◌∷◌, ◌||◌, int_ltb, int_leb, Bool-cases,
  Option-cases, if◌then◌else◌,
}
use test_enclave_newapi.Text.{Bytes, codes}
use test_enclave_newapi.Url.Percent.{is_empty}
use test_enclave_newapi.Wire.Usage.{Usage, no_usage}
use test_enclave_newapi.Relay.World.{
  HttpResponse, World, Session, content_type, flushed, note, write_header, header_panics, write,
}
use test_enclave_newapi.Relay.Dispatch.{
  merge_usage, frame_usage, lines, stream_lines, stream_through, buffer_through, pass_through,
}
use test_enclave_newapi.Relay.Bedrock.Call.{
  rejected, answer_client, response_model, bedrock_response,
}
use test_enclave_newapi.Relay.Bedrock.Response.{convert_nova_response_to_openai}

-- A property of sessions that the handler's ways of writing to the client keep, with status codes that
-- `C` holds of.
pub record KeptByWriting (C : ℤ → Type 0) (I : Session → Type 0) : Type 0 where
  pub heads : (code : ℤ) (s : Session) → C code → I s → I (write_header code s)
  pub types : (t : Bytes) (s : Session) → I s → I (note (content_type t) s)
  pub flushes : (s : Session) → I s → I (note flushed s)
  pub writes : (w : World) (b : Bytes) (s : Session) → I s → I (write w b s).1

module _ (C : ℤ → Type 0) (I : Session → Type 0) (k : KeptByWriting C I) (w : World) where
  pub stream_lines-keeps :
      (code : ℤ) (fails : Bool) (ls : List Bytes) (acc : Usage) (s : Session)
      → I s
      → I (stream_lines w code fails ls acc s).1
  unfolding stream_lines
  stream_lines-keeps code fails [] acc s i = i
  stream_lines-keeps code fails (l ∷ ls) acc s i = elim (Bool-cases (is_empty l)) [
    | inl y ↦ rw (y, stream_lines) (stream_lines-keeps code fails ls acc s i)
    | inr n ↦ elim (Bool-cases (write w l s).0) [
      | inr f ↦ rw (n, f, stream_lines) (k.writes w l s i)
      | inl t ↦
          rw (n, t, stream_lines)
            (stream_lines-keeps code fails ls (merge_usage acc (frame_usage l))
              (note flushed (write w l s).1) (k.flushes (write w l s).1 (k.writes w l s i)))
    ]
  ]

  pub buffer_through-keeps :
      (image : Bool) (resp : HttpResponse) (s : Session) → I s → I (buffer_through w image resp s).1
  unfolding buffer_through
  buffer_through-keeps image resp s i = elim (Bool-cases resp.body_fails) [
    | inl y ↦ rw (y, buffer_through) i
    | inr n ↦ elim (Bool-cases (write w resp.body s).0) [
      | inr f ↦ rw (n, f, buffer_through) (k.writes w resp.body s i)
      | inl t ↦ rw (n, t, buffer_through) (k.writes w resp.body s i)
    ]
  ]

  pub pass_through-keeps :
      (stream image : Bool) (resp : HttpResponse) (s : Session)
      → C resp.status
      → I s
      → I (pass_through w stream image resp s).1
  unfolding pass_through stream_through
  pass_through-keeps stream image resp s c i =
      let t = if is_empty resp.content_type then s else note (content_type resp.content_type) s in
      let h : I (write_header resp.status t) =
        k.heads resp.status t c
          (elim (is_empty resp.content_type)
            as (λ b. I (if b then s else note (content_type resp.content_type) s)) [
              | true ↦ i
              | false ↦ k.types resp.content_type s i
            ]) in
      elim (Bool-cases (header_panics resp.status t)) [
        | inl p ↦ rw (p, pass_through) h
        | inr p ↦ elim stream as (λ b. I (pass_through w b image resp s).1) [
          | true ↦
              rw (p, pass_through)
                (stream_lines-keeps resp.status resp.body_fails (lines resp.body) no_usage
                  (write_header resp.status t) h)
          | false ↦
              rw (p, pass_through) (buffer_through-keeps image resp (write_header resp.status t) h)
        ]
      ]

  answer_client-keeps :
      (resp : HttpResponse) (model id : Bytes) (s : Session)
      → C resp.status
      → I s
      → I (answer_client w resp model id s).1
  unfolding answer_client
  answer_client-keeps resp model id s c i =
      elim (Option-cases
        (convert_nova_response_to_openai resp.body (response_model model) id w.now_unix)) [
          | inl n ↦ rw (n, answer_client) i
          | inr (x, e) ↦
              rw (e, answer_client)
                (k.writes w x.0
                  (write_header resp.status (note (content_type (codes "application/json")) s))
                  (k.heads resp.status (note (content_type (codes "application/json")) s) c
                    (k.types (codes "application/json") s i)))
        ]

  rejected-keeps :
      (resp : HttpResponse) (s : Session) → C resp.status → I s → I (rejected w resp s).1
  unfolding rejected
  rejected-keeps resp s c i =
      let h =
        k.heads resp.status (note (content_type (codes "application/json")) s) c
          (k.types (codes "application/json") s i) in
      elim (Bool-cases (header_panics resp.status s)) [
        | inl p ↦ rw (p, rejected) h
        | inr p ↦ rw (p, rejected) (k.writes w _ _ h)
      ]

  pub bedrock_response-keeps :
      (resp : HttpResponse) (model id : Bytes) (s : Session)
      → C resp.status
      → I s
      → I (bedrock_response w resp model id s).1
  unfolding bedrock_response rejected answer_client
  bedrock_response-keeps resp model id s c i = elim (Bool-cases resp.body_fails) [
    | inl y ↦ rw (y, bedrock_response) i
    | inr n ↦ elim (Bool-cases (int_ltb resp.status (pos 200) || int_leb (pos 300) resp.status)) [
      | inl y ↦ rw (n, y, bedrock_response) (rejected-keeps resp s c i)
      | inr m ↦ rw (n, m, bedrock_response) (answer_client-keeps resp model id s c i)
    ]
  ]
