-- ===== src/Relay/Route.antt =====
-- cmd/relay-core/main.go: the first part of `serveRelay`, which reads the routing scalars and decides
-- what the control plane is asked.
use test_enclave_newapi.Common.{ℤ, pos, Bool, ◌&&◌, ◌||◌, Option, if◌then◌else◌, Result, ok, err}
use test_enclave_newapi.Text.{Bytes, codes, has_prefix, has_suffix, contains}
use test_enclave_newapi.Url.Percent.{is_empty}
use test_enclave_newapi.Wire.Peek.{PeekError, RequestPeek, peek_request}
use test_enclave_newapi.Wire.StreamUsage.{Injected, body, panics, ensure_stream_usage}
use test_enclave_newapi.Wire.Messages.{SelectChannelRequest}
use test_enclave_newapi.Relay.Upstream.{model_from_gemini_path}
use test_enclave_newapi.Relay.Tokens.{bearer_token, hash_token}
use test_enclave_newapi.Relay.World.{Message, text, invalid_request}

-- The parts of the client's request that the handler reads; `body` is none where reading it fails.
pub record ClientRequest : Type 0 where
  pub path : Bytes
  pub request_id : Bytes
  pub authorization : Bytes
  pub body : Option Bytes

pub record Scalars : Type 0 where
  pub model : Bytes
  pub is_stream : Bool

-- The model and the stream flag: from the body, or else from a Gemini path.
unfoldable pub scalars_of : Bytes → Result PeekError RequestPeek → Result PeekError Scalars
scalars_of path (ok p) = ok (record { model = p.model; is_stream = p.stream })
scalars_of path (err e) =
    if is_empty (model_from_gemini_path path)
    then err e
    else ok (record {
      model = model_from_gemini_path path;
      is_stream = contains path (codes ":streamGenerateContent");
    })

unfoldable pub is_chat : Bytes → Bool
is_chat path = has_suffix path (codes "/chat/completions")

unfoldable pub is_image : Bytes → Bool
is_image path = has_suffix path (codes "/images/generations")

unfoldable pub is_rerank : Bytes → Bool
is_rerank path = has_suffix path (codes "/rerank")

unfoldable pub relay_format : Bytes → Bytes
relay_format path =
    if has_suffix path (codes "/messages")
    then codes "claude"
    else if has_prefix path (codes "/v1beta/models/")
        || (contains path (codes ":generateContent")
            || contains path (codes ":streamGenerateContent"))
    then codes "gemini"
    else if is_image path
    then codes "image"
    else if is_rerank path
    then codes "rerank"
    else codes "openai"

-- What the handler goes on with: `body` is what is sent upstream.
pub record Routing : Type 0 where
  pub model : Bytes
  pub is_stream : Bool
  pub body : Bytes

pub data Routed : Type 0 where
  routed : Routing → Routed
  refused : ℤ → Message → Routed
  aborted : Routed

unfoldable pub with_body : Scalars → Injected → Routed
with_body x (body b) = routed (record { model = x.model; is_stream = x.is_stream; body = b })
with_body x panics = aborted

unfoldable pub upstream_body : Bytes → Bool → Bytes → Injected
upstream_body path is_stream b = if is_chat path && is_stream then ensure_stream_usage b else body b

unfoldable pub route_scalars : Bytes → Bytes → Result PeekError Scalars → Routed
route_scalars path b (err e) = refused (pos 400) (invalid_request e)
route_scalars path b (ok x) =
    if is_image path && x.is_stream
    then refused (pos 400)
        (text (codes "official image streaming is not supported by the enclave yet"))
    else with_body x (upstream_body path x.is_stream b)

unfoldable pub route : Bytes → Bytes → Routed
route path b = route_scalars path b (scalars_of path (peek_request b))

unfoldable pub select_request :
    (Bytes → Bytes) → ClientRequest → Bytes → Bool → SelectChannelRequest
select_request sha256 r model is_stream = record {
  request_id = r.request_id;
  model = model;
  token_hash = hash_token sha256 r.authorization;
  raw_token = bearer_token r.authorization;
  relay_format = relay_format r.path;
  path = r.path;
  is_stream = is_stream;
}
