-- ===== src/Relay/Serve.antt =====
-- cmd/relay-core/main.go: `serveRelay` as a whole.
use test_enclave_newapi.Common.{
  ℤ, pos, int_eq, int_ltb, add64, neg64, Bool, ◌&&◌, [], Option, none, some, if◌then◌else◌,
}
use test_enclave_newapi.Text.{Bytes, codes}
use test_enclave_newapi.Wire.Messages.{SelectChannelResponse, SettleRequest}
use test_enclave_newapi.Wire.Usage.{Usage}
use test_enclave_newapi.Wire.Images.{peek_image_params}
use test_enclave_newapi.Relay.World.{
  World, Session, text, selected, settled, logged, panicked, note, write_error,
}
use test_enclave_newapi.Relay.Dispatch.{Outcome, forward}
use test_enclave_newapi.Relay.Bedrock.Call.{forward_aws_bedrock}
use test_enclave_newapi.Relay.Route.{
  ClientRequest, Routing, Routed, routed, refused, aborted, route, select_request, is_image,
  is_rerank,
}
use test_enclave_newapi.Relay.Admit.{Admitted, bedrock, direct, denied, admit}

-- Rerank reports only a total, which is billed as prompt tokens.
unfoldable pub rerank_usage : Bool → Usage → Usage
rerank_usage is_rerank_path u =
    if is_rerank_path
      && int_eq u.prompt_tokens (pos 0)
      && int_eq u.completion_tokens (pos 0)
      && int_ltb (pos 0) u.total_tokens
    then record u { prompt_tokens = u.total_tokens }
    else u

-- The settlement; an image request is billed by its images.
unfoldable pub settle_request :
    ClientRequest → Bytes → SelectChannelResponse → Routing → Outcome → ℤ → SettleRequest
settle_request r raw sel rt o latency =
    let u = rerank_usage (is_rerank r.path) o.usage in
    let image = peek_image_params raw in
    let base : SettleRequest = record {
      request_id = r.request_id;
      user_id = sel.user_id;
      token_id = sel.token_id;
      channel_id = sel.channel_id;
      model = rt.model;
      prompt_tokens = u.prompt_tokens;
      completion_tokens = u.completion_tokens;
      total_tokens = u.total_tokens;
      latency_ms = latency;
      upstream_status_code = o.status;
      is_stream = rt.is_stream;
      request_kind = [];
      image_count = pos 0;
      image_size = [];
      image_quality = [];
    } in
    if is_image r.path
    then record base {
      request_kind = codes "image";
      image_count = if int_eq u.image_count (pos 0) then pos image.n else u.image_count;
      image_size = image.size;
      image_quality = image.quality;
      prompt_tokens = pos 0;
      completion_tokens = pos 0;
      total_tokens = pos 0;
    }
    else base

module _ (w : World) where
  unfoldable pub settle : SettleRequest → Session → Session
  settle req s =
      if w.settle req
      then note (settled req) s
      else note (logged req.request_id) (note (settled req) s)

  unfoldable pub latency : ℤ
  latency = add64 (w.now_milli 1) (neg64 (w.now_milli 0))

  -- What follows the upstream call.
  unfoldable pub conclude :
      ClientRequest → Bytes → SelectChannelResponse → Routing → Outcome → Session → Session
  conclude r raw sel rt o s =
      if o.failed
      then if s.wrote_header
        then s
        else write_error (pos 502) (text (codes "upstream request failed")) s
      else settle (settle_request r raw sel rt o latency) s

  unfoldable pub dispatch :
      ClientRequest → Bytes → SelectChannelResponse → Routing → Admitted → Session → Session
  dispatch r raw sel rt (denied code m) s = write_error code m s
  dispatch r raw sel rt (bedrock key model) s =
      let x = forward_aws_bedrock w rt.body key model rt.is_stream r.request_id s in
      conclude r raw sel rt x.0 x.1
  dispatch r raw sel rt (direct url key c) s =
      let x = forward w url rt.body key rt.is_stream (is_image r.path) c s in
      conclude r raw sel rt x.0 x.1

  unfoldable pub answered :
      ClientRequest → Bytes → Routing → Option SelectChannelResponse → Session → Session
  answered r raw rt none s = write_error (pos 502) (text (codes "control plane error")) s
  answered r raw rt (some sel) s = dispatch r raw sel rt (admit w sel rt r.path) s

  unfoldable pub serve_routed : ClientRequest → Bytes → Routed → Session → Session
  serve_routed r raw (refused code m) s = write_error code m s
  serve_routed r raw aborted s = note panicked s
  serve_routed r raw (routed rt) s =
      let req = select_request w.sha256 r rt.model rt.is_stream in
      answered r raw rt (w.select_channel req) (note (selected req) s)

  unfoldable pub serve_body : ClientRequest → Option Bytes → Session → Session
  serve_body r none s = write_error (pos 400) (text (codes "read request body failed")) s
  serve_body r (some raw) s = serve_routed r raw (route r.path raw) s

  unfoldable pub serve_relay : ClientRequest → Session → Session
  serve_relay r s = serve_body r r.body s
