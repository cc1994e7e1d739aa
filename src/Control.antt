-- ===== src/Control.antt =====
-- cmd/relay-core/control_client.go and server.go: the two control planes.
pub mod Laws
pub mod Settlement
use test_enclave_newapi.Common.{
  ℕ, zero, suc, ℤ, pos, ◌≡◌, refl, Bool, true, false, not, List, [], ◌∷◌, ◌++◌, Option, none, some,
  if◌then◌else◌,
}
use test_enclave_newapi.Text.{Bytes, codes}
use test_enclave_newapi.Url.Percent.{is_empty}
use test_enclave_newapi.Json.Tree.{Json, num, obj, bool, of_fields, Fields}
use test_enclave_newapi.Json.Scan.{parse_first}
use test_enclave_newapi.Json.Strings.{key_is, quote}
use test_enclave_newapi.Json.Decode.{decode_string, decode_bool, decode_int, decode_struct}
use test_enclave_newapi.Json.Print.{print, string_value}
use test_enclave_newapi.Official.Rules.{has_official}
use test_enclave_newapi.Wire.Usage.{store}
use test_enclave_newapi.Wire.Messages.{
  SelectChannelRequest, SelectChannelResponse, no_channel, SettleRequest,
}
use test_enclave_newapi.Relay.Bedrock.Encode.{int_value, optional_field}

-- `staticControlPlane.SelectChannel`
unfoldable pub static_select : ℤ → ℤ → SelectChannelRequest → SelectChannelResponse
static_select channel_id channel_type req =
    if is_empty req.token_hash
    then record no_channel { error = codes "missing gateway token" }
    else record no_channel {
      channel_id = channel_id;
      channel_type = channel_type;
      is_official = has_official channel_type;
      upstream_model_name = req.model;
      user_id = pos 1;
      token_id = pos 1;
    }

abbrev non_empty : Bytes → Option Json
non_empty s = if is_empty s then none else some (string_value s)

-- The body of the select call: token, model and path.
unfoldable pub select_payload : SelectChannelRequest → Bytes
unfolding print quote
select_payload req = print (
    obj (
      of_fields (
        (codes "token", string_value req.raw_token)
        ∷ (codes "model", string_value req.model)
        ∷ optional_field (codes "path") (non_empty req.path))))

unfoldable pub set_selected : Bytes → Json → SelectChannelResponse → Option SelectChannelResponse
set_selected k j r =
    if key_is (codes "channel_id") k
    then store (decode_int j r.channel_id) (λ v. record r { channel_id = v })
    else if key_is (codes "channel_type") k
    then store (decode_int j r.channel_type) (λ v. record r { channel_type = v })
    else if key_is (codes "upstream_key") k
    then store (decode_string j r.upstream_api_key) (λ v. record r { upstream_api_key = v })
    else if key_is (codes "upstream_model_name") k
    then store (decode_string j r.upstream_model_name) (λ v. record r { upstream_model_name = v })
    else if key_is (codes "upstream_base_url") k
    then store (decode_string j r.upstream_base_url) (λ v. record r { upstream_base_url = v })
    else if key_is (codes "user_id") k
    then store (decode_int j r.user_id) (λ v. record r { user_id = v })
    else if key_is (codes "token_id") k
    then store (decode_int j r.token_id) (λ v. record r { token_id = v })
    else if key_is (codes "is_official") k
    then store (decode_bool j r.is_official) (λ v. record r { is_official = v })
    else if key_is (codes "error") k
    then store (decode_string j r.error) (λ v. record r { error = v })
    else some r

abbrev only_error : SelectChannelResponse → SelectChannelResponse
only_error r = if is_empty r.error then r else record no_channel { error = r.error }

-- `httpControlPlane.SelectChannel`, with the reply's body, or none where the call fails.
unfoldable pub http_select :
    (Bytes → Option Bytes) → SelectChannelRequest → Option SelectChannelResponse
http_select post req = elim (post (select_payload req)) [
  | none ↦ none
  | some reply ↦ elim (parse_first reply) [
    | none ↦ none
    | some j ↦ elim (decode_struct set_selected j no_channel) [
      | none ↦ none
      | some r ↦ some (only_error r)
    ]
  ]
]

-- One reply to a settle call: none where the call fails, else its `ok` and `error`.
pub record SettleReply : Type 0 where
  pub is_ok : Bool
  pub error : Bytes

pub data Settled : Type 0 where
  accepted rejected exhausted : Settled

-- The retry loop: `replies` gives the reply of each attempt; the number of calls made is returned.
unfoldable pub settle_attempts : ℕ → (ℕ → Option SettleReply) → ℕ → Settled × ℕ
settle_attempts zero replies made = (exhausted, made)
settle_attempts (suc n) replies made =
    let again = settle_attempts n replies (suc made) in
    elim (replies made) [
      | none ↦ again
      | some r ↦
          if r.is_ok
          then (accepted, suc made)
          else if is_empty r.error
          then again
          else (rejected, suc made)
    ]

unfoldable pub http_settle : (ℕ → Option SettleReply) → Settled × ℕ
http_settle replies = settle_attempts 3 replies 0
