-- ===== src/Relay/Faithful.antt =====
-- cmd/relay-core: what the upstream calls that `serveRelay` makes carry of the client's body.
use test_enclave_newapi.Common.{◌≡◌, true, some, ok}
use test_enclave_newapi.Text.{Bytes}
use test_enclave_newapi.Wire.StreamUsage.{body, ensure_stream_usage}
use test_enclave_newapi.Wire.StreamUsage.Kept.{Injection}
use test_enclave_newapi.Relay.World.{World, Event, called}
use test_enclave_newapi.Relay.Bedrock.Encode.{convert_openai_request_to_nova}
use test_enclave_newapi.Relay.Route.{ClientRequest, Routing, is_chat}
use test_enclave_newapi.Relay.Protocol.{Protocol}

-- The routing hands on the client's body, or the body with usage asked for, of a streamed chat.
record Metered (path raw : Bytes) (rt : Routing) : Type 0 where
  chat : is_chat path ≡ true
  streamed : rt.is_stream ≡ true
  injected : ensure_stream_usage raw ≡ body rt.body

-- The body of a call, against the client's.
pub data Faithful (w : World) (path raw sent_body : Bytes) : Type 0 where
  -- Byte for byte.
  same : sent_body ≡ raw → Faithful w path raw sent_body
  -- The same object, but for its request for usage.
  metered : is_chat path ≡ true → Injection raw sent_body → Faithful w path raw sent_body
  -- Its conversion for AWS Bedrock.
  converted :
      convert_openai_request_to_nova w.reformat_float raw ≡ ok sent_body
      → Faithful w path raw sent_body

-- What is known of an event: a call carries the client's body.
abbrev pub CallFaithful : World → ClientRequest → Event → Type 0
CallFaithful w r (called c) = (raw : Bytes) × (r.body ≡ some raw) × Faithful w r.path raw c.body
CallFaithful w r _ = Unit
