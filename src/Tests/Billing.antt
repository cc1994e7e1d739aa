-- ===== src/Tests/Billing.antt =====
-- cmd/relay-core/dispatch.go and pkg/relaycontrol/wire.go: usage of streams on small inputs.
use test_enclave_newapi.Common.{pos, false}
use test_enclave_newapi.Text.{Bytes, codes}
use test_enclave_newapi.Wire.Usage.{Usage, no_usage}
use test_enclave_newapi.Wire.StreamUsage.{body}
use test_enclave_newapi.Relay.World.{HttpResponse}

-- Anthropic's counts of the input and of the output stand in different frames. Each frame's report has
-- a total of its own, so the last frame's total stays.
abbrev split_counts : HttpResponse
split_counts = record {
  status = pos 200;
  content_type = codes "text/event-stream";
  body =
      codes
        "data: {\"message\":{\"usage\":{\"input_tokens\":10,\"output_tokens\":1}}}\ndata: {\"usage\":{\"output_tokens\":50}}\n";
  body_fails = false;
}

abbrev client_body : Bytes
client_body = codes "{\"stream\":true,\"model\":\"m\"}"

abbrev sent_body : Bytes
sent_body = codes "{\"model\":\"m\",\"stream\":true,\"stream_options\":{\"include_usage\":true}}"
