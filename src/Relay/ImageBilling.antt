-- ===== src/Relay/ImageBilling.antt =====
-- cmd/relay-core/main.go, `serveRelay`: what an image request is billed.
use test_enclave_newapi.Common.{
  ℕ, zero, suc, ℤ, pos, ◌≤◌, ◌≡◌, refl, inl, inr, Bool, true, false, List, [], ◌∷◌, Option, none,
  some, arith, if◌then◌else◌, int_eq, Bool-cases, Option-cases,
}
use test_enclave_newapi.Text.{Bytes, codes}
use test_enclave_newapi.Url.{parse}
use test_enclave_newapi.Url.Percent.{is_empty}
use test_enclave_newapi.Wire.Messages.{SelectChannelResponse, SettleRequest, max_image_n}
use test_enclave_newapi.Wire.Usage.{Usage, no_usage}
use test_enclave_newapi.Wire.Images.{peek_image_params, peek_image_count, image_counts_bounded}
use test_enclave_newapi.Relay.World.{
  HttpRequest, HttpResponse, World, Session, called, note, write_header, header_panics, write,
  flushed, content_type,
}
use test_enclave_newapi.Relay.Dispatch.{
  Outcome, Credential, finalize_usage, merge_usage, frame_usage, lines, stream_lines,
  stream_through, buffered_usage, buffer_through, pass_through, send, forward,
}
use test_enclave_newapi.Relay.Route.{ClientRequest, Routing, is_image, is_rerank}
use test_enclave_newapi.Relay.Serve.{rerank_usage, settle_request}

-- A count of images that is not negative and not above the limit.
abbrev ImageBounded : Usage → Type 0
ImageBounded u = (k : ℕ) × (u.image_count ≡ pos k) × (k ≤ max_image_n)

if_keeps :
    (b : Bool) (u v : Usage) → ImageBounded u → ImageBounded v → ImageBounded (if b then v else u)
if_keeps true u v h k = k
if_keeps false u v h k = h

finalize-ImageBounded : (u : Usage) → ImageBounded u → ImageBounded (finalize_usage u)
unfolding finalize_usage
finalize-ImageBounded u h = elim (Bool-cases (int_eq u.total_tokens (pos 0))) [
  | inl y ↦ simp (y, finalize_usage) h
  | inr n ↦ simp (n, finalize_usage) h
]

merge-ImageBounded :
    (acc : Usage) (x : Option Usage) → ImageBounded acc → ImageBounded (merge_usage acc x)
unfolding merge_usage
merge-ImageBounded acc none h = h
merge-ImageBounded acc (some u) h = h

module _ (w : World) where
  stream_lines-ImageBounded :
      (code : ℤ) (fails : Bool) (ls : List Bytes) (acc : Usage) (s : Session)
      → ImageBounded acc
      → ImageBounded (stream_lines w code fails ls acc s).0.usage
  unfolding stream_lines
  stream_lines-ImageBounded code fails [] acc s h = finalize-ImageBounded acc h
  stream_lines-ImageBounded code fails (l ∷ ls) acc s h = elim (Bool-cases (is_empty l)) [
    | inl y ↦ rw (y, stream_lines) (stream_lines-ImageBounded code fails ls acc s h)
    | inr n ↦ elim (Bool-cases (write w l s).0) [
      | inr f ↦ rw (n, f, stream_lines) (finalize-ImageBounded acc h)
      | inl t ↦
          rw (n, t, stream_lines)
            (stream_lines-ImageBounded code fails ls (merge_usage acc (frame_usage l))
              (note flushed (write w l s).1) (merge-ImageBounded acc (frame_usage l) h))
    ]
  ]

  none-ImageBounded : ImageBounded no_usage
  none-ImageBounded = (0, refl, omega arith)

  buffer_through-ImageBounded :
      (resp : HttpResponse) (s : Session) → ImageBounded (buffer_through w true resp s).0.usage
  unfolding buffer_through buffered_usage
  buffer_through-ImageBounded resp s = elim (Bool-cases resp.body_fails) [
    | inl y ↦ rw (y, buffer_through) none-ImageBounded
    | inr n ↦ elim (Bool-cases (write w resp.body s).0) [
      | inr f ↦ rw (n, f, buffer_through) none-ImageBounded
      | inl t ↦
          rw (n, t, buffer_through)
            (peek_image_count resp.body, refl, (image_counts_bounded [] resp.body).2)
    ]
  ]

  pass_through-ImageBounded :
      (stream : Bool) (resp : HttpResponse) (s : Session)
      → ImageBounded (pass_through w stream true resp s).0.usage
  unfolding pass_through stream_through
  pass_through-ImageBounded stream resp s =
      let t = if is_empty resp.content_type then s else note (content_type resp.content_type) s in
      let h = write_header resp.status t in
      elim (Bool-cases (header_panics resp.status t)) [
        | inl p ↦ rw (p, pass_through) none-ImageBounded
        | inr p ↦ elim stream as (λ b. ImageBounded (pass_through w b true resp s).0.usage) [
          | true ↦
              rw (p, pass_through)
                (stream_lines-ImageBounded resp.status resp.body_fails (lines resp.body) no_usage h
                  none-ImageBounded)
          | false ↦ rw (p, pass_through) (buffer_through-ImageBounded resp h)
        ]
      ]

  send-ImageBounded :
      (req : HttpRequest) (stream : Bool) (s : Session)
      → ImageBounded (send w req stream true s).0.usage
  unfolding send
  send-ImageBounded req stream s = elim (Option-cases (w.do_request req)) [
    | inl n ↦ rw (n, send) none-ImageBounded
    | inr (resp, e) ↦ rw (e, send) (pass_through-ImageBounded stream resp (note (called req) s))
  ]

  forward-ImageBounded :
      (url body key : Bytes) (stream : Bool) (c : Credential) (s : Session)
      → ImageBounded (forward w url body key stream true c s).0.usage
  unfolding forward
  forward-ImageBounded url body key stream c s = elim (Option-cases (parse url)) [
    | inl n ↦ rw (n, forward) none-ImageBounded
    | inr (u, e) ↦ rw (e, forward) (send-ImageBounded _ stream s)
  ]

rerank-ImageBounded : (b : Bool) (u : Usage) → ImageBounded u → ImageBounded (rerank_usage b u)
unfolding rerank_usage
rerank-ImageBounded b u h = if_keeps _ u (record u { prompt_tokens = u.total_tokens }) h h

-- A settlement by images: between one image and the limit, and no tokens.
pub record BilledByImages (raw : Bytes) (b : SettleRequest) : Type 0 where
  pub kind : b.request_kind ≡ codes "image"
  pub size : b.image_size ≡ (peek_image_params raw).size
  pub quality : b.image_quality ≡ (peek_image_params raw).quality
  pub count : ℕ
  pub billed : b.image_count ≡ pos count
  pub least : 1 ≤ count
  pub most : count ≤ max_image_n
  pub no_prompt : b.prompt_tokens ≡ pos 0
  pub no_completion : b.completion_tokens ≡ pos 0
  pub no_total : b.total_tokens ≡ pos 0

-- The count that is billed: the images returned, or the request's n where there are none.
billed_count :
    (x : ℤ) (k n : ℕ)
    → x ≡ pos k
    → k ≤ max_image_n
    → 1 ≤ n
    → n ≤ max_image_n
    → (m : ℕ) × ((if int_eq x (pos 0) then pos n else x) ≡ pos m) × (1 ≤ m) × (m ≤ max_image_n)
billed_count x zero n e a b c = rw e (n, refl, b, c)
billed_count x (suc k) n e a b c = rw e (suc k, ground arith, omega arith, a)

settle_request-BilledByImages :
    (r : ClientRequest) (raw : Bytes) (sel : SelectChannelResponse) (rt : Routing) (o : Outcome)
    (latency : ℤ)
    → is_image r.path ≡ true
    → ImageBounded o.usage
    → BilledByImages raw (settle_request r raw sel rt o latency)
unfolding settle_request
settle_request-BilledByImages r raw sel rt o latency i h =
    let u = rerank_usage (is_rerank r.path) o.usage in
    let (k, e, a) = rerank-ImageBounded (is_rerank r.path) o.usage h in
    let bounds = image_counts_bounded raw [] in
    let (m, f, b, c) =
      billed_count u.image_count k (peek_image_params raw).n e a bounds.0 bounds.1 in
    rw (i, settle_request)
      (record {
        kind = refl;
        size = refl;
        quality = refl;
        count = m;
        billed = f;
        least = b;
        most = c;
        no_prompt = refl;
        no_completion = refl;
        no_total = refl;
      })

-- The settlement of a forwarded image request is of the kind "image", which the host bills by the
-- image: it names between one and 128 images, the size and the quality that `PeekImageParams` reads in
-- the client's body, and no tokens, whatever that body and the upstream's answer say.
pub forward-BilledByImages :
    (w : World) (r : ClientRequest) (raw : Bytes) (sel : SelectChannelResponse) (rt : Routing)
    (url key : Bytes) (c : Credential) (s : Session) (latency : ℤ)
    → is_image r.path ≡ true
    → BilledByImages raw (
        settle_request r raw sel rt
          (forward w url rt.body key rt.is_stream (is_image r.path) c s).0
          latency)
forward-BilledByImages w r raw sel rt url key c s latency i =
    settle_request-BilledByImages r raw sel rt _ latency i
      (rw i (forward-ImageBounded w url rt.body key rt.is_stream c s))
