-- ===== src/Relay/Answers/Lines.antt =====
-- cmd/relay-core/server.go, `statusTrackingWriter`: the status lines that a session has.
use test_enclave_newapi.Common.{
  ℕ, suc, ℤ, pos, int_leb, ◌&&◌, ◌≡◌, refl, inl, inr, ◌⊎◌, Bool, true, false, List, [], ◌∷◌, some,
  Bool-cases,
}
use test_enclave_newapi.Text.{Bytes, codes}
use test_enclave_newapi.Relay.World.{
  HttpRequest, HttpResponse, World, Message, Session, Event, selected, called, content_type, status,
  bad_status, wrote, wrote_error, flushed, settled, logged, panicked, note, is_status_code,
  write_header, header_panics, write, write_error,
}
use test_enclave_newapi.Relay.Invariants.{KeptByWriting}
use test_enclave_newapi.Relay.Answers.Codes.{IsProper}

-- The number of status lines.
abbrev pub statuses : List Event → ℕ
statuses [] = 0
statuses (status n ∷ es) = suc (statuses es)
statuses (bad_status n ∷ es) = statuses es
statuses (selected q ∷ es) = statuses es
statuses (called c ∷ es) = statuses es
statuses (content_type t ∷ es) = statuses es
statuses (wrote b ∷ es) = statuses es
statuses (wrote_error m ∷ es) = statuses es
statuses (flushed ∷ es) = statuses es
statuses (settled b ∷ es) = statuses es
statuses (logged t ∷ es) = statuses es
statuses (panicked ∷ es) = statuses es

-- The codes that `WriteHeader` has panicked on.
abbrev pub bad_statuses : List Event → List ℤ
bad_statuses [] = []
bad_statuses (bad_status n ∷ es) = n ∷ bad_statuses es
bad_statuses (status n ∷ es) = bad_statuses es
bad_statuses (selected q ∷ es) = bad_statuses es
bad_statuses (called c ∷ es) = bad_statuses es
bad_statuses (content_type t ∷ es) = bad_statuses es
bad_statuses (wrote b ∷ es) = bad_statuses es
bad_statuses (wrote_error m ∷ es) = bad_statuses es
bad_statuses (flushed ∷ es) = bad_statuses es
bad_statuses (settled b ∷ es) = bad_statuses es
bad_statuses (logged t ∷ es) = bad_statuses es
bad_statuses (panicked ∷ es) = bad_statuses es

abbrev pub OutOfRange : ℤ → Type 0
OutOfRange n = (int_leb (pos 100) n && int_leb n (pos 999)) ≡ false

-- The upstream has answered a call with this status.
pub record Upstream (w : World) (n : ℤ) : Type 0 where
  pub request : HttpRequest
  pub response : HttpResponse
  pub answered : w.do_request request ≡ some response
  pub status : response.status ≡ n

-- The codes that the handler passes to `WriteHeader`.
abbrev pub Given : World → ℤ → Type 0
Given w code = IsProper code ⊎ Upstream w code

-- How many status lines are out, which codes were bad, and whether `wroteHeader` is set.
pub data Lines (w : World) : ℕ → List ℤ → Bool → Type 0 where
  unsent : Lines w 0 [] false
  line : Lines w 1 [] true
  broken : (n : ℤ) → OutOfRange n → Upstream w n → Lines w 0 (n ∷ []) true

abbrev pub Tidy : World → Session → Type 0
Tidy w s = Lines w (statuses s.events) (bad_statuses s.events) s.wrote_header

unsent_yet :
    {w : World} {k : ℕ} {bs : List ℤ} {b : Bool} → Lines w k bs b → b ≡ false → (k ≡ 0) × (bs ≡ [])
unsent_yet unsent e = (refl, refl)
unsent_yet line e = absurd (cc e)
unsent_yet (broken n v u) e = absurd (cc e)

Given-Upstream : (w : World) (n : ℤ) → Given w n → OutOfRange n → Upstream w n
Given-Upstream w n (inl p) v = absurd (cc (p, v))
Given-Upstream w n (inr u) v = u

write_header-Tidy :
    (w : World) (code : ℤ) (s : Session) → Given w code → Tidy w s → Tidy w (write_header code s)
unfolding write_header is_status_code
write_header-Tidy w code s c i = elim (Bool-cases s.wrote_header) [
  | inl y ↦ simp (y, write_header) (simp y at i)
  | inr n ↦
      let (k, b) = unsent_yet i n in
      elim (Bool-cases (int_leb (pos 100) code && int_leb code (pos 999))) [
        | inl v ↦ simp (n, write_header, is_status_code, v, k, b) line
        | inr v ↦
            simp (n, write_header, is_status_code, v, k, b)
              (broken code v (Given-Upstream w code c v))
      ]
]

write-Tidy : (w v : World) (b : Bytes) (s : Session) → Tidy w s → Tidy w (write v b s).1
unfolding write
write-Tidy w v b s i = write_header-Tidy w (pos 200) s (inl refl) i

pub write_error-Tidy :
    (w : World) (code : ℤ) (m : Message) (s : Session)
    → IsProper code
    → Tidy w s
    → Tidy w (write_error code m s)
unfolding write_error
write_error-Tidy w code m s c i =
    let h = write_header-Tidy w code (note (content_type (codes "application/json")) s) (inl c) i in
    elim (Bool-cases (header_panics code s)) [
      | inl p ↦ rw (p, write_error) h
      | inr p ↦ rw (p, write_error) h
    ]

pub Tidy-KeptByWriting : (w : World) → KeptByWriting (Given w) (Tidy w)
Tidy-KeptByWriting w = record {
  heads = λ code s c i. write_header-Tidy w code s c i;
  types = λ t s i. i;
  flushes = λ s i. i;
  writes = λ v b s i. write-Tidy w v b s i;
}
