-- ===== src/Relay/Outside.antt =====
-- cmd/relay-core: what of a run others than the client see, and how far an upstream call has got.
use test_enclave_newapi.Common.{
  ℤ, pos, ◌≡◌, refl, ◌∙◌, inl, inr, Bool, true, false, List, [], ◌∷◌, some, Bool-cases,
  Option-cases, Result-cases, if◌then◌else◌, ok,
}
use test_enclave_newapi.Text.{Bytes, codes}
use test_enclave_newapi.Url.{parse}
use test_enclave_newapi.Wire.Messages.{SettleRequest}
use test_enclave_newapi.Relay.World.{
  HttpRequest, World, Session, Event, Message, selected, called, content_type, status, bad_status,
  wrote, wrote_error, flushed, settled, logged, panicked, note, is_status_code, write_header,
  header_panics, write, write_error,
}
use test_enclave_newapi.Relay.Dispatch.{Outcome, Credential, send, forward}
use test_enclave_newapi.Relay.Bedrock.Call.{prepare_aws_bedrock_request, forward_aws_bedrock}
use test_enclave_newapi.Relay.Serve.{settle}
use test_enclave_newapi.Relay.Replied.{Replied, pass_through-Replied, bedrock_response-Replied}
use test_enclave_newapi.Relay.Invariants.{KeptByWriting, pass_through-keeps, bedrock_response-keeps}

-- The events that others than the client see, the latest first.
abbrev pub outside : List Event → List Event
outside [] = []
outside (selected q ∷ es) = selected q ∷ outside es
outside (called c ∷ es) = called c ∷ outside es
outside (settled b ∷ es) = settled b ∷ outside es
outside (content_type t ∷ es) = outside es
outside (status n ∷ es) = outside es
outside (bad_status n ∷ es) = outside es
outside (wrote b ∷ es) = outside es
outside (wrote_error m ∷ es) = outside es
outside (flushed ∷ es) = outside es
outside (logged t ∷ es) = outside es
outside (panicked ∷ es) = outside es

abbrev pub Outside : List Event → Session → Type 0
Outside es s = outside s.events ≡ es

pub write_header-outside :
    (code : ℤ) (s : Session) → outside (write_header code s).events ≡ outside s.events
unfolding write_header
write_header-outside code s = elim (Bool-cases s.wrote_header) [
  | inl y ↦ simp (y, write_header)
  | inr n ↦ elim (Bool-cases (is_status_code code)) [
    | inl v ↦ simp (n, v, write_header)
    | inr v ↦ simp (n, v, write_header)
  ]
]

pub write_error-outside :
    (code : ℤ) (m : Message) (s : Session)
    → outside (write_error code m s).events ≡ outside s.events
unfolding write_error
write_error-outside code m s =
    let h = write_header-outside code (note (content_type (codes "application/json")) s) in
    elim (Bool-cases (header_panics code s)) [
      | inl p ↦ rw (p, write_error) h
      | inr p ↦ rw (p, write_error) h
    ]

pub write-outside :
    (w : World) (b : Bytes) (s : Session) → outside (write w b s).1.events ≡ outside s.events
unfolding write
write-outside w b s = write_header-outside (pos 200) s

pub Outside-KeptByWriting : (es : List Event) → KeptByWriting (λ _. Unit) (Outside es)
Outside-KeptByWriting es = record {
  heads = λ code s c i. write_header-outside code s ∙ i;
  types = λ t s i. i;
  flushes = λ s i. i;
  writes = λ w b s i. write-outside w b s ∙ i;
}

pub if-both : (P : Session → Type 0) (b : Bool) {s t : Session} → P s → P t → P (if b then s else t)
if-both P true ps pt = ps
if-both P false ps pt = pt

-- Where an upstream call has got to: it failed before anything was sent, or one request was sent, which
-- the upstream has answered where the call succeeded.
pub data Attempt (w : World) (Q : HttpRequest → Type 0) (es : List Event) (x : Outcome × Session)
    : Type 0 where
  unsent : x.0.failed ≡ true → Outside es x.1 → Attempt w Q es x
  made :
      (c : HttpRequest)
      → Q c
      → Outside (called c ∷ es) x.1
      → (x.0.failed ≡ false → Replied w c x.0)
      → Attempt w Q es x

module _ (w : World) (Q : HttpRequest → Type 0) where
  pub send-Attempt :
      (req : HttpRequest) (stream image : Bool) (s : Session)
      → Q req
      → Attempt w Q (outside s.events) (send w req stream image s)
  unfolding send
  send-Attempt req stream image s q = elim (Option-cases (w.do_request req)) [
    | inl n ↦ rw (n, send) (made req q refl (λ h. absurd (cc h)))
    | inr (resp, e) ↦
        rw (e, send)
          (made req q
            (pass_through-keeps (λ _. Unit) (Outside (called req ∷ outside s.events))
              (Outside-KeptByWriting _) w stream image resp (note (called req) s) tt refl)
            (pass_through-Replied w req stream image resp (note (called req) s) e))
  ]

  pub forward-Attempt :
      (url body key : Bytes) (stream image : Bool) (c : Credential) (s : Session)
      → ((req : HttpRequest)
          → req.address ≡ url
          → parse url ≡ some req.url
          → req.body ≡ body
          → Q req)
      → Attempt w Q (outside s.events) (forward w url body key stream image c s)
  unfolding forward
  forward-Attempt url body key stream image c s q = elim (Option-cases (parse url)) [
    | inl n ↦ rw (n, forward) (unsent refl refl)
    | inr (u, e) ↦ rw (e, forward) (send-Attempt _ stream image s (q _ refl e refl))
  ]

  pub bedrock-Attempt :
      (body creds model : Bytes) (stream : Bool) (id : Bytes) (s : Session)
      → ((req : HttpRequest)
          → prepare_aws_bedrock_request w body creds model stream ≡ ok req
          → Q req)
      → Attempt w Q (outside s.events) (forward_aws_bedrock w body creds model stream id s)
  unfolding forward_aws_bedrock
  bedrock-Attempt body creds model stream id s q =
      let p = prepare_aws_bedrock_request w body creds model stream in
      elim (Result-cases p) [
        | inl (e, n) ↦ rw (n, forward_aws_bedrock) (unsent refl refl)
        | inr (req, e) ↦ elim (Option-cases (w.do_request req)) [
          | inl n ↦ rw (e, n, forward_aws_bedrock) (made req (q req e) refl (λ h. absurd (cc h)))
          | inr (resp, f) ↦
              rw (e, f, forward_aws_bedrock)
                (made req (q req e)
                  (bedrock_response-keeps (λ _. Unit) (Outside (called req ∷ outside s.events))
                    (Outside-KeptByWriting _) w resp model id (note (called req) s) tt refl)
                  (bedrock_response-Replied w req resp model id (note (called req) s) f))
        ]
      ]

pub settle-outside :
    (w : World) (b : SettleRequest) (s : Session)
    → outside (settle w b s).events ≡ settled b ∷ outside s.events
unfolding settle
settle-outside w b s = elim (Bool-cases (w.settle b)) [
  | inl y ↦ rw (y, settle) refl
  | inr n ↦ rw (n, settle) refl
]
