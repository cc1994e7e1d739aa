-- ===== src/Tests/Wire.antt =====
-- pkg/relaycontrol on small bodies, names and mappings.
use test_enclave_newapi.Common.{◌≤◌, ◌≡◌, ◌≢◌, ◌↔◌, true, [], ◌∷◌, none, some}
use test_enclave_newapi.Text.{Bytes, codes}
use test_enclave_newapi.Regex.{matches}
use test_enclave_newapi.Wire.Messages.{max_image_n}
use test_enclave_newapi.Wire.Images.{peek_image_params, peek_image_count, image_counts_bounded}
use test_enclave_newapi.Wire.Region.{aws_region_pattern, split_model_region}
use test_enclave_newapi.Wire.Region.Laws.{split_model_region_iff}
use test_enclave_newapi.Wire.Mapping.{Mapping, model, cycle, resolve_in}
use test_enclave_newapi.Wire.Mapping.Chain.{Leads, next_name}
use test_enclave_newapi.Wire.Mapping.Resolve.{resolve-eq-model_iff, resolve-eq-cycle_iff}
use test_enclave_newapi.Wire.StreamUsage.{ensure_stream_usage, panics}
use test_enclave_newapi.Wire.StreamUsage.Panics.{NullOptions, ensure_stream_usage-panics_iff}

abbrev image_request : Bytes
image_request = codes "{\"n\":1000,\"size\":\"1024x1024\"}"

abbrev image_reply : Bytes
image_reply = codes "{\"data\":[{},{}]}"

image_counts_bounded_example :
    (1 ≤ (peek_image_params image_request).n)
    × ((peek_image_params image_request).n ≤ max_image_n)
    × (peek_image_count image_reply ≤ max_image_n)
image_counts_bounded_example = image_counts_bounded image_request image_reply

abbrev named : Bytes
named = codes "amazon.nova@us-east-1"

split_model_region_iff_example :
    (split_model_region named ≡ some (codes "amazon.nova", codes "us-east-1")) ↔ (
      (named ≡ codes "amazon.nova@us-east-1")
      × (codes "amazon.nova" ≢ [])
      × (matches aws_region_pattern (codes "us-east-1") ≡ true))
split_model_region_iff_example =
    split_model_region_iff named (codes "amazon.nova") (codes "us-east-1")

abbrev mapping : Mapping
mapping =
    (codes "a", codes "b")
    ∷ (codes "b", codes "c")
    ∷ (codes "x", codes "y")
    ∷ (codes "y", codes "x")
    ∷ []

resolve-eq-model_iff_example :
    (resolve_in mapping (codes "a") ≡ model (codes "c"))
    ↔ (Leads mapping (codes "a") (codes "c") × (next_name mapping (codes "c") ≡ none))
resolve-eq-model_iff_example = resolve-eq-model_iff mapping (codes "a") (codes "c")

resolve-eq-cycle_iff_example :
    (resolve_in mapping (codes "x") ≡ cycle)
    ↔ ((b : Bytes) → Leads mapping (codes "x") b → next_name mapping b ≢ none)
resolve-eq-cycle_iff_example = resolve-eq-cycle_iff mapping (codes "x")

abbrev null_options : Bytes
null_options = codes "{\"stream\":true,\"stream_options\":null}"

ensure_stream_usage-panics_iff_example :
    (ensure_stream_usage null_options ≡ panics) ↔ NullOptions null_options
ensure_stream_usage-panics_iff_example = ensure_stream_usage-panics_iff null_options
