-- ===== src/Tests/Relay.antt =====
-- cmd/relay-core on one chat request.
use test_enclave_newapi.Common.{
  ℕ, length, pos, negsuc, arith, ◌≡◌, ◌⊎◌, refl, true, false, [], none, some,
}
use test_enclave_newapi.Text.{codes}
use test_enclave_newapi.Wire.Messages.{SelectChannelResponse, no_channel}
use test_enclave_newapi.Relay.World.{HttpResponse, World, start}
use test_enclave_newapi.Relay.ImageBilling.{BilledByImages, forward-BilledByImages}
use test_enclave_newapi.Relay.Dispatch.{Credential, forward, stream_through}
use test_enclave_newapi.Relay.Route.{is_image, Routing, ClientRequest}
use test_enclave_newapi.Relay.Serve.{settle_request, serve_relay}
use test_enclave_newapi.Relay.Outside.{outside}
use test_enclave_newapi.Relay.Protocol.{Protocol, serve_relay-Protocol}
use test_enclave_newapi.Relay.Confinement.{unasked, with_authorization, serve_relay-unasked}
use test_enclave_newapi.Relay.Verbatim.{sent_bytes, Delivers, stream_through-Delivers}
use test_enclave_newapi.Relay.Answers.{Aborts}
use test_enclave_newapi.Relay.Answers.Once.{AnsweredOnce, serve_relay-answers_once}
use test_enclave_newapi.Relay.Tokens.{itoa64}
use test_enclave_newapi.Relay.Tokens.Laws.{read_int, itoa64-read}

abbrev pub channel : SelectChannelResponse
channel = record no_channel {
  channel_id = pos 7;
  channel_type = pos 1;
  upstream_api_key = codes "sk";
}

abbrev pub reply : HttpResponse
reply = record {
  status = pos 200;
  content_type = codes "text/event-stream";
  body = codes "data: {}\n\ndata: [DONE]";
  body_fails = false;
}

abbrev pub world : World
world = record {
  sha256 = λ m. m;
  hmac_sha256 = λ k m. m;
  select_channel = λ q. some channel;
  key_for = λ n. none;
  do_request = λ c. some reply;
  settle = λ b. true;
  write_succeeds = λ n. true;
  now_milli = λ n. pos n;
  now_unix = pos 0;
  amz_date = codes "20250101T000000Z";
  reformat_float = λ s. none;
}

abbrev pub chat : ClientRequest
chat = record {
  path = codes "/v1/chat/completions";
  request_id = codes "r1";
  authorization = codes "Bearer t";
  body = some (codes "{\"model\":\"m\",\"stream\":true}");
}

serve_relay-Protocol_example : Protocol world chat (outside (serve_relay world chat start).events)
serve_relay-Protocol_example = serve_relay-Protocol world chat

-- The run gets to the settlement, and all bytes of the reply are out.
run :
    (length (outside (serve_relay world chat start).events) ≡ 3)
    × (sent_bytes (serve_relay world chat start).events ≡ reply.body)
unfolding test_enclave_newapi.Relay.Serve.serve_relay test_enclave_newapi.Relay.Serve.serve_body
    test_enclave_newapi.Relay.Serve.serve_routed test_enclave_newapi.Relay.Serve.answered
    test_enclave_newapi.Relay.Serve.dispatch test_enclave_newapi.Relay.Serve.conclude
    test_enclave_newapi.Relay.Serve.settle test_enclave_newapi.Relay.Route.route
    test_enclave_newapi.Relay.Route.scalars_of test_enclave_newapi.Relay.Route.route_scalars
    test_enclave_newapi.Relay.Route.is_image test_enclave_newapi.Relay.Route.is_chat
    test_enclave_newapi.Relay.Route.with_body test_enclave_newapi.Relay.Route.upstream_body
    test_enclave_newapi.Relay.Route.relay_format test_enclave_newapi.Wire.Peek.peek_request
    test_enclave_newapi.Text.has_suffix test_enclave_newapi.Text.has_prefix
    test_enclave_newapi.Text.contains test_enclave_newapi.Wire.StreamUsage.ensure_stream_usage
    test_enclave_newapi.Wire.StreamUsage.decode_raw test_enclave_newapi.Wire.StreamUsage.is_true
    test_enclave_newapi.Wire.StreamUsage.with_usage test_enclave_newapi.Wire.StreamUsage.options_of
    test_enclave_newapi.Wire.StreamUsage.encode_raw test_enclave_newapi.SortedMap.get
    test_enclave_newapi.SortedMap.set test_enclave_newapi.Json.Scan.parse_json
    test_enclave_newapi.Json.Print.print test_enclave_newapi.Relay.Admit.admit
    test_enclave_newapi.Relay.Admit.vetted_profile test_enclave_newapi.Relay.Admit.upstream_key
    test_enclave_newapi.Relay.Admit.admit_with_key test_enclave_newapi.Relay.Admit.admit_direct
    test_enclave_newapi.Relay.Admit.to_url test_enclave_newapi.Relay.Admit.upstream_url
    test_enclave_newapi.Relay.Upstream.official_upstream_url
    test_enclave_newapi.Official.Rules.for_type test_enclave_newapi.Official.Profiles.profile_for
    test_enclave_newapi.Official.Profiles.supports_official
    test_enclave_newapi.Official.Profiles.resolve_route test_enclave_newapi.Relay.Dispatch.forward
    test_enclave_newapi.Relay.Dispatch.send test_enclave_newapi.Relay.Dispatch.pass_through
    test_enclave_newapi.Relay.Dispatch.stream_through
    test_enclave_newapi.Relay.Dispatch.stream_lines test_enclave_newapi.Relay.Dispatch.lines
    test_enclave_newapi.Relay.World.write test_enclave_newapi.Relay.World.write_header
    test_enclave_newapi.Relay.World.header_panics test_enclave_newapi.Relay.World.is_status_code
    test_enclave_newapi.Url.parse test_enclave_newapi.Url.parse_unfragmented
    test_enclave_newapi.Url.parse_rest test_enclave_newapi.Url.parse_hierarchy
    test_enclave_newapi.Url.with_path test_enclave_newapi.Url.has_control_byte
    test_enclave_newapi.Url.get_scheme test_enclave_newapi.Url.Percent.unescape
    test_enclave_newapi.Url.Address.parse_authority test_enclave_newapi.Text.from
    test_enclave_newapi.Text.before test_enclave_newapi.Text.str_eq
    test_enclave_newapi.Text.to_lower
run = (refl, refl)

serve_relay-unasked_example :
    unasked (serve_relay world (with_authorization (codes "Bearer u") chat) start).events
    ≡ unasked (serve_relay world chat start).events
serve_relay-unasked_example = serve_relay-unasked world chat (codes "Bearer u") (λ rt. refl)

serve_relay-answers_once_example :
    Aborts chat ⊎ AnsweredOnce world (serve_relay world chat start).events
serve_relay-answers_once_example = serve_relay-answers_once world chat

stream_through-Delivers_example : Delivers reply.body start (stream_through world reply start)
stream_through-Delivers_example = stream_through-Delivers world reply start

negsuc_inj : {m n : ℕ} → negsuc m ≡ negsuc n → m ≡ n
negsuc_inj h = cc

itoa64-read_example : read_int (itoa64 (negsuc 41)) ≡ negsuc 41
itoa64-read_example =
    itoa64-read (negsuc 41) (omega arith) (λ h. absurd (omega (arith, negsuc_inj h)))

abbrev image : ClientRequest
image = record {
  path = codes "/v1/images/generations";
  request_id = codes "r2";
  authorization = codes "Bearer t";
  body = some (codes "{\"model\":\"m\",\"n\":500}");
}

abbrev image_routing : Routing
image_routing = record {
  model = codes "m";
  is_stream = false;
  body = codes "{\"model\":\"m\",\"n\":500}";
}

abbrev bearer : Credential
bearer = record {
  auth_header = codes "Authorization";
  auth_prefix = codes "Bearer ";
  extra_headers = [];
}

is_an_image : is_image image.path ≡ true
unfolding is_image test_enclave_newapi.Text.has_suffix
is_an_image = refl

forward-BilledByImages_example : BilledByImages image_routing.body (
    settle_request image image_routing.body channel image_routing
      (forward world
        (codes "https://api.openai.com/v1/images/generations")
        image_routing.body
        (codes "sk")
        false
        (is_image image.path)
        bearer
        start).0
      (pos 1))
forward-BilledByImages_example =
    forward-BilledByImages world image image_routing.body channel image_routing
      (codes "https://api.openai.com/v1/images/generations") (codes "sk") bearer start (pos 1)
      is_an_image
