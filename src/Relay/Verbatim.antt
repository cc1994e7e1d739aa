-- ===== src/Relay/Verbatim.antt =====
-- cmd/relay-core/dispatch.go, `streamThrough` and `bufferThrough`: the client gets the upstream's
-- bytes, unchanged and in order.
use mathlib.Core.List.{reverse}
use test_enclave_newapi.Common.{
  ℤ, ◌≡◌, refl, sym, ap, ◌∙◌, ◌⊎◌, inl, inr, Bool, true, false, List, [], ◌∷◌, ◌++◌, Bool-cases,
  ◌==◌, append_assoc, append-nil,
}
use test_enclave_newapi.Text.Laws.{reverse-shift}
use test_enclave_newapi.Text.{Bytes}
use test_enclave_newapi.Url.Percent.{is_empty}
use test_enclave_newapi.Wire.Usage.{Usage, no_usage}
use test_enclave_newapi.Relay.World.{
  HttpResponse, World, Session, Event, selected, called, content_type, status, bad_status, wrote,
  wrote_error, flushed, settled, logged, panicked, note, is_status_code, write_header, write,
}
use test_enclave_newapi.Relay.Dispatch.{
  Outcome, merge_usage, frame_usage, lines_from, lines, stream_lines, stream_through,
}

-- The bytes handed to the client's connection.
abbrev pub sent_bytes : List Event → Bytes
sent_bytes [] = []
sent_bytes (wrote b ∷ es) = sent_bytes es ++ b
sent_bytes (selected q ∷ es) = sent_bytes es
sent_bytes (called c ∷ es) = sent_bytes es
sent_bytes (content_type t ∷ es) = sent_bytes es
sent_bytes (status n ∷ es) = sent_bytes es
sent_bytes (bad_status n ∷ es) = sent_bytes es
sent_bytes (wrote_error m ∷ es) = sent_bytes es
sent_bytes (flushed ∷ es) = sent_bytes es
sent_bytes (settled b ∷ es) = sent_bytes es
sent_bytes (logged t ∷ es) = sent_bytes es
sent_bytes (panicked ∷ es) = sent_bytes es

abbrev pub joined : List Bytes → Bytes
joined [] = []
joined (l ∷ ls) = l ++ joined ls

lines_from-joined : (acc s : Bytes) → joined (lines_from acc s) ≡ reverse acc ++ s
unfolding lines_from
lines_from-joined acc [] = refl
lines_from-joined acc (c ∷ s) = elim (Bool-cases (c == 10)) [
  | inl y ↦
      rw (y, lines_from)
        (ap (λ t. reverse (c ∷ acc) ++ t) (lines_from-joined [] s) ∙ reverse-shift acc c s)
  | inr n ↦ rw (n, lines_from) (lines_from-joined (c ∷ acc) s ∙ reverse-shift acc c s)
]

pub write-sent :
    (w : World) (b : Bytes) (s : Session)
    → sent_bytes (write w b s).1.events ≡ sent_bytes s.events ++ b
unfolding write write_header is_status_code
write-sent w b s = elim (Bool-cases s.wrote_header) [
  | inl y ↦ simp (y, write, write_header)
  | inr n ↦ simp (n, write, write_header)
]

-- Of the text `b`, the client has got a first part, and all of it where the outcome is a success.
pub record Delivers (b : Bytes) (s : Session) (x : Outcome × Session) : Type 0 where
  pub rest : Bytes
  pub in_order : sent_bytes s.events ++ b ≡ sent_bytes x.1.events ++ rest
  pub complete : x.0.failed ≡ false → sent_bytes x.1.events ≡ sent_bytes s.events ++ b

-- The connection has been handed all of the text `b`, or nothing more; all of it where the outcome is
-- a success.
pub record HandsOver (b : Bytes) (s : Session) (x : Outcome × Session) : Type 0 where
  pub whole :
      (sent_bytes x.1.events ≡ sent_bytes s.events ++ b)
      ⊎ (sent_bytes x.1.events ≡ sent_bytes s.events)
  pub complete : x.0.failed ≡ false → sent_bytes x.1.events ≡ sent_bytes s.events ++ b

is_empty_iff : (l : Bytes) → is_empty l ≡ true → l ≡ []
is_empty_iff [] h = refl
is_empty_iff (c ∷ l) h = cc

module _ (w : World) where
  -- The piece `l` is out, and `x` delivers what follows.
  Delivers-more :
      (l b : Bytes) (s t : Session) (x : Outcome × Session)
      → sent_bytes t.events ≡ sent_bytes s.events ++ l
      → Delivers b t x
      → Delivers (l ++ b) s x
  Delivers-more l b s t x e d =
      let shift = sym (append_assoc (sent_bytes s.events) l b) ∙ ap (λ u. u ++ b) (sym e) in
      record {
        rest = d.rest;
        in_order = shift ∙ d.in_order;
        complete = λ h. d.complete h ∙ sym shift;
      }

  Delivers-same :
      {b c : Bytes}
      → b ≡ c
      → (s : Session) (x : Outcome × Session) → Delivers b s x
      → Delivers c s x
  Delivers-same e s x d = rw⁻¹ e d

  stream_lines-Delivers :
      (code : ℤ) (fails : Bool) (ls : List Bytes) (acc : Usage) (s : Session)
      → Delivers (joined ls) s (stream_lines w code fails ls acc s)
  unfolding stream_lines
  stream_lines-Delivers code fails [] acc s = record {
    rest = [];
    in_order = refl;
    complete = λ h. sym (append-nil (sent_bytes s.events));
  }
  stream_lines-Delivers code fails (l ∷ ls) acc s = elim (Bool-cases (is_empty l)) [
    | inl y ↦
        simp (y, stream_lines)
          (Delivers-more l (joined ls) s s _
            (sym (
              ap (λ t. sent_bytes s.events ++ t) (is_empty_iff l y)
              ∙ append-nil (sent_bytes s.events)))
            (stream_lines-Delivers code fails ls acc s))
    | inr n ↦ elim (Bool-cases (write w l s).0) [
      | inr f ↦
          simp (n, f, stream_lines)
            (record {
              rest = joined ls;
              in_order =
                  sym (append_assoc (sent_bytes s.events) l (joined ls))
                  ∙ ap (λ u. u ++ joined ls) (sym (write-sent w l s));
              complete = λ h. absurd (cc h);
            })
      | inl t ↦
          simp (n, t, stream_lines)
            (Delivers-more l (joined ls) s (note flushed (write w l s).1) _ (write-sent w l s) (
              stream_lines-Delivers code fails ls (merge_usage acc (frame_usage l))
                (note flushed (write w l s).1)))
    ]
  ]

  -- Streaming hands the client the bytes of the upstream's body in their order, from the first one on
  -- and without a gap; when it ends without an error, it has handed over all of them.
  pub stream_through-Delivers :
      (resp : HttpResponse) (s : Session) → Delivers resp.body s (stream_through w resp s)
  unfolding stream_through lines
  stream_through-Delivers resp s =
      Delivers-same (lines_from-joined [] resp.body) s _
        (stream_lines-Delivers resp.status resp.body_fails (lines resp.body) no_usage s)
