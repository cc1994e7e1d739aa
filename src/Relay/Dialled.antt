-- ===== src/Relay/Dialled.antt =====
-- cmd/relay-core: the hosts of the calls that `serveRelay` makes.
use test_enclave_newapi.Common.{
  ℤ, ◌≡◌, refl, inl, inr, true, false, List, [], ◌∷◌, ◌++◌, some, Bool-cases, ok, All,
}
use test_enclave_newapi.Text.{Bytes, trim_space, trim_right}
use test_enclave_newapi.Url.{Url, parse}
use test_enclave_newapi.Url.Laws.{https}
use test_enclave_newapi.Url.Percent.{is_empty}
use test_enclave_newapi.Wire.Messages.{SelectChannelRequest, SelectChannelResponse}
use test_enclave_newapi.Official.Rules.{
  for_type, normalize_host, host_key, in_family, is_official_host_suffix,
}
use test_enclave_newapi.Official.Paths.{OneSlash, resolve_route-OneSlash}
use test_enclave_newapi.Relay.Upstream.{official_upstream_url, suffix_host_upstream_url}
use test_enclave_newapi.Relay.World.{HttpRequest, World, Event, called, start}
use test_enclave_newapi.Relay.Bedrock.Call.{aws_bedrock_channel_type}
use test_enclave_newapi.Relay.Bedrock.Region.{Regional, bedrock_url-Regional}
use test_enclave_newapi.Relay.Route.{ClientRequest, relay_format}
use test_enclave_newapi.Relay.Serve.{serve_relay}
use test_enclave_newapi.Relay.Officiality.{ServedPath, OfficialAddress, exact, by_host, by_region}
use test_enclave_newapi.Relay.Calls.{OfficialCall}
use test_enclave_newapi.Relay.Hosts.{Pinned, official_upstream_url-Pinned}
use test_enclave_newapi.Relay.Family.{suffix_host_upstream_url-family}
use test_enclave_newapi.Relay.Outside.{outside}
use test_enclave_newapi.Relay.Protocol.{
  Asked, Protocol, idle, asked, sent, billed, serve_relay-Protocol,
}

-- The host in the URL of a call for a channel of this type.
pub data Dialled (t : ℤ) (u : Url) : Type 0 where
  -- The host that is pinned for the type.
  pinned : u.scheme ≡ https → Pinned t u.host → Dialled t u
  -- A host of the official family of the type.
  family : in_family t (host_key u.host) ≡ true → Dialled t u
  -- The Bedrock host of a region.
  regional : t ≡ aws_bedrock_channel_type → Regional u → Dialled t u
  -- No host, as in the URL of a base without a scheme: the client has nothing to dial.
  hostless : is_empty u.host ≡ true → Dialled t u

ServedPath-OneSlash :
    (t : ℤ) (in_path path : Bytes) → ServedPath t in_path path → OneSlash in_path → OneSlash path
ServedPath-OneSlash t in_path path v o =
    rw v.served (
      resolve_route-OneSlash t v.profile (relay_format in_path) in_path v.route v.known o
        v.resolved)

official_nonempty : (t : ℤ) (y : Bytes) → is_official_host_suffix t y ≡ true → is_empty y ≡ false
unfolding is_official_host_suffix normalize_host trim_space
official_nonempty t [] h = absurd (cc h)
official_nonempty t (c ∷ y) h = refl

official_url :
    (t : ℤ) (path : Bytes)
    → is_empty (for_type t) ≡ false
    → official_upstream_url t path ≡ ok (for_type t ++ path)
unfolding official_upstream_url
official_url t path n = rw (n, official_upstream_url) refl

family_url :
    (t : ℤ) (base path : Bytes)
    → is_official_host_suffix t (trim_space base) ≡ true
    → suffix_host_upstream_url t base path ≡ ok (trim_right (trim_space base) b'/' ++ path)
unfolding suffix_host_upstream_url
family_url t base path o =
    rw (official_nonempty t (trim_space base) o, o, suffix_host_upstream_url) refl

OfficialAddress-Dialled :
    (sel : SelectChannelResponse) (in_path address : Bytes) (u : Url)
    → OneSlash in_path
    → OfficialAddress sel in_path address
    → parse address ≡ some u
    → Dialled sel.channel_type u
OfficialAddress-Dialled sel in_path address u o (exact path v n e) p =
    let (r, w, _) = ServedPath-OneSlash sel.channel_type in_path path v o in
    let (s, h) =
      official_upstream_url-Pinned sel.channel_type v.profile r (for_type sel.channel_type ++ path)
        u v.known (rw⁻¹ w (official_url sel.channel_type path n)) (rw e at p) in
    pinned s h
OfficialAddress-Dialled sel in_path address u o (by_host path v h e) p =
    let t = sel.channel_type in
    let (r, w, k) = ServedPath-OneSlash t in_path path v o in
    elim (Bool-cases (is_empty u.host)) [
      | inl y ↦ hostless y
      | inr n ↦ family (
          suffix_host_upstream_url-family t sel.upstream_base_url r _ u k
            (rw⁻¹ w (family_url t sel.upstream_base_url path h)) (rw e at p) n)
    ]
OfficialAddress-Dialled sel in_path address u o (by_region region model t s r h e) p =
    regional t (bedrock_url-Regional region model u r (rw e at p))

-- The URL of a call has a known host, for the channel that the control plane has answered the question
-- of this client request with.
pub record Channelled (w : World) (r : ClientRequest) (u : Url) : Type 0 where
  pub request : SelectChannelRequest
  pub asked : Asked w r request
  pub channel : SelectChannelResponse
  pub answer : w.select_channel request ≡ some channel
  pub dialled : Dialled channel.channel_type u

abbrev pub CallsChannelled : World → ClientRequest → Event → Type 0
CallsChannelled w r (called c) = Channelled w r c.url
CallsChannelled w r _ = Unit

module _ (w : World) (r : ClientRequest) (o : OneSlash r.path) where
  OfficialCall-Channelled :
      (q : SelectChannelRequest) (sel : SelectChannelResponse) (c : HttpRequest)
      → Asked w r q
      → w.select_channel q ≡ some sel
      → OfficialCall sel r.path c
      → Channelled w r c.url
  OfficialCall-Channelled q sel c d a k = record {
    request = q;
    asked = d;
    channel = sel;
    answer = a;
    dialled = OfficialAddress-Dialled sel r.path c.address c.url o k.official k.parsed;
  }

  Protocol-Channelled : (es : List Event) → Protocol w r es → All (CallsChannelled w r) es
  Protocol-Channelled _ idle = tt
  Protocol-Channelled _ (asked q a) = (tt, tt)
  Protocol-Channelled _ (sent q sel c a e k) =
      (OfficialCall-Channelled q sel c a e k.official, (tt, tt))
  Protocol-Channelled _ (billed q sel c x a e k f) =
      (tt, (OfficialCall-Channelled q sel c a e k.official, (tt, tt)))

  pub serve_relay-Channelled : All (CallsChannelled w r) (outside (serve_relay w r start).events)
  serve_relay-Channelled = Protocol-Channelled _ (serve_relay-Protocol w r)
