-- ===== src/Relay/Dispatch.antt =====
-- cmd/relay-core/dispatch.go: one upstream call, and the response passed through.
use mathlib.Core.List.{reverse}
use test_enclave_newapi.Common.{
  ℤ, pos, Bool, true, false, List, [], ◌∷◌, ◌++◌, Option, none, some, if◌then◌else◌, ◌==◌, int_eq,
  int_ltb, add64,
}
use test_enclave_newapi.Text.{Bytes, codes, trim_space, trim_prefix}
use test_enclave_newapi.Url.{parse}
use test_enclave_newapi.Url.Percent.{is_empty}
use test_enclave_newapi.Wire.Usage.{Usage, no_usage, peek_usage}
use test_enclave_newapi.Wire.Images.{peek_image_count}
use test_enclave_newapi.Headers.{Headers, header_set, header_set_all}
use test_enclave_newapi.Relay.World.{
  HttpRequest, HttpResponse, World, Session, called, content_type, flushed, note, write_header,
  header_panics, write,
}

-- How an upstream call ended: the usage, the upstream's status, and whether there was an error.
pub record Outcome : Type 0 where
  pub usage : Usage
  pub status : ℤ
  pub failed : Bool

abbrev pub failure : ℤ → Outcome
failure code = record { usage = no_usage; status = code; failed = true }

-- `finalizeUsage`
unfoldable pub finalize_usage : Usage → Usage
finalize_usage u =
    if int_eq u.total_tokens (pos 0)
    then record u { total_tokens = add64 u.prompt_tokens u.completion_tokens }
    else u

abbrev pub keep_positive : ℤ → ℤ → ℤ
keep_positive old new = if int_ltb (pos 0) new then new else old

-- The merge of a frame's usage: each positive count replaces the one before.
unfoldable pub merge_usage : Usage → Option Usage → Usage
merge_usage acc none = acc
merge_usage acc (some u) = record acc {
  prompt_tokens = keep_positive acc.prompt_tokens u.prompt_tokens;
  completion_tokens = keep_positive acc.completion_tokens u.completion_tokens;
  total_tokens = keep_positive acc.total_tokens u.total_tokens;
}

-- The usage in a line of the event stream.
unfoldable pub frame_usage : Bytes → Option Usage
frame_usage line =
    let trimmed = trim_prefix (trim_space line) (codes "data:") in
    if is_empty trimmed then none else peek_usage (trim_space trimmed)

-- The pieces that `ReadBytes('\n')` returns; the last one ends with the stream.
unfoldable pub lines_from : Bytes → Bytes → List Bytes
lines_from acc [] = reverse acc ∷ []
lines_from acc (c ∷ s) = elim (c == 10) [
  | true ↦ reverse (c ∷ acc) ∷ lines_from [] s
  | false ↦ lines_from (c ∷ acc) s
]

unfoldable pub lines : Bytes → List Bytes
unfolding lines_from
lines s = lines_from [] s

module _ (w : World) where
  -- The loop of `streamThrough` over the pieces; `read_fails` is the stream's end.
  unfoldable pub stream_lines : ℤ → Bool → List Bytes → Usage → Session → Outcome × Session
  stream_lines code read_fails [] acc s =
      (record { usage = finalize_usage acc; status = code; failed = read_fails }, s)
  stream_lines code read_fails (line ∷ more) acc s = elim (is_empty line) [
    | true ↦ stream_lines code read_fails more acc s
    | false ↦ elim (write w line s).0 [
      | false ↦
          (record { usage = finalize_usage acc; status = code; failed = true }, (write w line s).1)
      | true ↦
          stream_lines code read_fails more (merge_usage acc (frame_usage line))
            (note flushed (write w line s).1)
    ]
  ]

  unfoldable pub stream_through : HttpResponse → Session → Outcome × Session
  stream_through resp s = stream_lines resp.status resp.body_fails (lines resp.body) no_usage s

  -- The usage of a buffered response.
  unfoldable pub buffered_usage : Bool → Bytes → Usage
  buffered_usage image_mode data_ =
      let usage = elim (peek_usage data_) as (λ _. Usage) [ none ↦ no_usage | some u ↦ u ] in
      if image_mode then record usage { image_count = pos (peek_image_count data_) } else usage

  unfoldable pub buffer_through : Bool → HttpResponse → Session → Outcome × Session
  buffer_through image_mode resp s = elim resp.body_fails [
    | true ↦ (failure resp.status, s)
    | false ↦ elim (write w resp.body s).0 [
      | false ↦ (failure resp.status, (write w resp.body s).1)
      | true ↦ (
        record {
          usage = buffered_usage image_mode resp.body;
          status = resp.status;
          failed = false;
        },
        (write w resp.body s).1,
      )
    ]
  ]

-- The credentials and headers of a call, as `ResolveRoute` gives them.
pub record Credential : Type 0 where
  pub auth_header : Bytes
  pub auth_prefix : Bytes
  pub extra_headers : Headers

unfoldable pub call_headers : Bytes → Credential → Bool → Headers
call_headers api_key c is_stream =
    let base = header_set (codes "Content-Type") (codes "application/json") [] in
    let authorised = header_set c.auth_header (c.auth_prefix ++ api_key) base in
    let extended = header_set_all c.extra_headers authorised in
    if is_stream then header_set (codes "Accept") (codes "text/event-stream") extended else extended

module _ (w : World) where
  -- What happens once the upstream has answered. A status that `WriteHeader` panics on ends the handler
  -- there: the header counts as written, so the failure leads to nothing more.
  unfoldable pub pass_through : Bool → Bool → HttpResponse → Session → Outcome × Session
  pass_through is_stream image_mode resp s =
      let typed =
        if is_empty resp.content_type then s else note (content_type resp.content_type) s in
      let headed = write_header resp.status typed in
      if header_panics resp.status typed
      then (failure resp.status, headed)
      else if is_stream
      then stream_through w resp headed
      else buffer_through w image_mode resp headed

  unfoldable pub send : HttpRequest → Bool → Bool → Session → Outcome × Session
  send req is_stream image_mode s = elim (w.do_request req) [
    | none ↦ (failure (pos 0), note (called req) s)
    | some resp ↦ pass_through is_stream image_mode resp (note (called req) s)
  ]

  unfoldable pub forward :
      Bytes → Bytes → Bytes → Bool → Bool → Credential → Session → Outcome × Session
  forward upstream_url body api_key is_stream image_mode c s = elim (parse upstream_url) [
    | none ↦ (failure (pos 0), s)
    | some u ↦
        send
          (record {
            address = upstream_url;
            url = u;
            headers = call_headers api_key c is_stream;
            body = body;
          })
          is_stream image_mode s
  ]
