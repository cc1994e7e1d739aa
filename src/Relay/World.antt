-- ===== src/Relay/World.antt =====
-- What the handler works with: the parts of the system around it, the response that it writes, and
-- the trace of what it does. The control plane, the key store, the HTTP client, the client's
-- connection and the clock are functions that are not looked into. `do_request` is `client.Do` as a
-- whole: redirects that the client follows on the way to the response are not seen here.
use test_enclave_newapi.Common.{
  ℕ, ◌+◌, ℤ, pos, Bool, true, false, not, ◌&&◌, ◌||◌, List, [], ◌∷◌, Option, if◌then◌else◌, int_leb,
}
use test_enclave_newapi.Text.{Bytes, codes}
use test_enclave_newapi.Url.{Url}
use test_enclave_newapi.Wire.Messages.{SelectChannelRequest, SelectChannelResponse, SettleRequest}
use test_enclave_newapi.Wire.Peek.{PeekError}
use test_enclave_newapi.Relay.Upstream.{UrlError}
use test_enclave_newapi.Headers.{Headers}

-- `url` is `address` as `url.Parse` reads it.
pub record HttpRequest : Type 0 where
  pub address : Bytes
  pub url : Url
  pub headers : Headers
  pub body : Bytes

-- A body is the bytes that arrive, and whether reading then fails. `client.Do` returns no informational
-- response but 101, so a status line is one line.
pub record HttpResponse : Type 0 where
  pub status : ℤ
  pub content_type : Bytes
  pub body : Bytes
  pub body_fails : Bool

pub record World : Type 0 where
  pub sha256 : Bytes → Bytes
  pub hmac_sha256 : Bytes → Bytes → Bytes
  pub select_channel : SelectChannelRequest → Option SelectChannelResponse
  pub key_for : ℤ → Option Bytes
  pub do_request : HttpRequest → Option HttpResponse
  pub settle : SettleRequest → Bool
  pub write_succeeds : ℕ → Bool
  pub now_milli : ℕ → ℤ
  pub now_unix : ℤ
  pub amz_date : Bytes
  pub reformat_float : Bytes → Option Bytes

-- What an error response says; the texts of the errors of `encoding/json` are left out.
pub data Message : Type 0 where
  text : Bytes → Message
  invalid_request : PeekError → Message
  bad_upstream_url : UrlError → Message

pub data Event : Type 0 where
  selected : SelectChannelRequest → Event
  called : HttpRequest → Event
  content_type : Bytes → Event
  status : ℤ → Event
  bad_status : ℤ → Event
  wrote : Bytes → Event
  wrote_error : Message → Event
  flushed : Event
  settled : SettleRequest → Event
  logged : Bytes → Event
  panicked : Event

-- `statusTrackingWriter` and the trace, the latest event first.
pub record Session : Type 0 where
  pub wrote_header : Bool
  pub status : ℤ
  pub writes : ℕ
  pub events : List Event

abbrev pub start : Session
start = record { wrote_header = false; status = pos 0; writes = 0; events = [] }

abbrev pub note : Event → Session → Session
note e s = record s { events = e ∷ s.events }

-- The codes that the writer of `net/http` takes; it panics on another one.
unfoldable pub is_status_code : ℤ → Bool
is_status_code code = int_leb (pos 100) code && int_leb code (pos 999)

-- `WriteHeader`: only the first call has an effect. `bad_status` is the panic of the writer behind it,
-- which comes after the two fields are set.
unfoldable pub write_header : ℤ → Session → Session
write_header code s = if s.wrote_header then s else record s {
  wrote_header = true;
  status = code;
  events = (if is_status_code code then Event.status code else bad_status code) ∷ s.events;
}

-- Whether this call of `WriteHeader` panics.
unfoldable pub header_panics : ℤ → Session → Bool
header_panics code s = not (s.wrote_header || is_status_code code)

-- `Write`: whether it succeeded, and the session after it.
unfoldable pub write : World → Bytes → Session → Bool × Session
unfolding write_header
write w b s =
    let t = write_header (pos 200) s in
    (w.write_succeeds t.writes, record t { writes = t.writes + 1; events = wrote b ∷ t.events })

-- `writeError`: the body goes out after the header, in one write.
unfoldable pub write_error : ℤ → Message → Session → Session
unfolding write_header
write_error code m s =
    let t = write_header code (note (content_type (codes "application/json")) s) in
    if header_panics code s
    then t
    else record t { writes = t.writes + 1; events = wrote_error m ∷ t.events }
