-- ===== src/Wire/Messages.antt =====
-- pkg/relaycontrol/wire.go: SelectChannelRequest, SelectChannelResponse and SettleRequest.
use test_enclave_newapi.Common.{ℕ, ℤ, pos, Bool, false, []}
use test_enclave_newapi.Text.{Bytes}

pub record SelectChannelRequest : Type 0 where
  pub request_id : Bytes
  pub model : Bytes
  pub token_hash : Bytes
  pub raw_token : Bytes
  pub relay_format : Bytes
  pub path : Bytes
  pub is_stream : Bool

pub record SelectChannelResponse : Type 0 where
  pub channel_id : ℤ
  pub channel_type : ℤ
  pub is_official : Bool
  pub upstream_model_name : Bytes
  pub upstream_base_url : Bytes
  pub user_id : ℤ
  pub token_id : ℤ
  pub upstream_api_key : Bytes
  pub error : Bytes

abbrev pub no_channel : SelectChannelResponse
no_channel = record {
  channel_id = pos 0;
  channel_type = pos 0;
  is_official = false;
  upstream_model_name = [];
  upstream_base_url = [];
  user_id = pos 0;
  token_id = pos 0;
  upstream_api_key = [];
  error = [];
}

pub record SettleRequest : Type 0 where
  pub request_id : Bytes
  pub user_id : ℤ
  pub token_id : ℤ
  pub channel_id : ℤ
  pub model : Bytes
  pub prompt_tokens : ℤ
  pub completion_tokens : ℤ
  pub total_tokens : ℤ
  pub latency_ms : ℤ
  pub upstream_status_code : ℤ
  pub is_stream : Bool
  pub request_kind : Bytes
  pub image_count : ℤ
  pub image_size : Bytes
  pub image_quality : Bytes

-- `MaxTokensLimit` and `MaxImageN`
abbrev pub max_tokens_limit : ℕ
max_tokens_limit = 1_073_741_823

abbrev pub max_image_n : ℕ
max_image_n = 128
