-- ===== src/Control/Settlement.antt =====
-- cmd/relay-core/control_client.go and server.go, `Settle`: what is sent, how a reply is read, and
-- what the static control plane prints; and pkg/relaycontrol/wire.go, the names of the fields.
use test_enclave_newapi.Common.{
  ℕ, ℤ, pos, ◌≡◌, refl, true, false, List, [], ◌∷◌, ◌++◌, Option, none, some, if◌then◌else◌, int_eq,
}
use test_enclave_newapi.Text.{Bytes, codes}
use test_enclave_newapi.Url.{parse}
use test_enclave_newapi.Url.Percent.{is_empty}
use test_enclave_newapi.Json.Tree.{Json, bool, obj, of_fields, Fields, end, field}
use test_enclave_newapi.Json.Scan.{parse_first}
use test_enclave_newapi.Json.Strings.{key_is, quote}
use test_enclave_newapi.Json.Decode.{decode_string, decode_bool}
use test_enclave_newapi.Json.Print.{print, string_value}
use test_enclave_newapi.Wire.Messages.{SettleRequest}
use test_enclave_newapi.Relay.Tokens.{itoa64}
use test_enclave_newapi.Relay.Bedrock.Encode.{int_value, int_text, optional_field}
use test_enclave_newapi.Control.{SettleReply, Settled, exhausted, http_settle}

-- `httpControlPlane`, and where it posts to.
pub record HttpControlPlane : Type 0 where
  pub base_url : Bytes
  pub timeout_seconds : ℕ

unfoldable pub new_http_control_plane : Bytes → HttpControlPlane
new_http_control_plane base_url = record { base_url = base_url; timeout_seconds = 15 }

unfoldable pub select_address : HttpControlPlane → Bytes
select_address h = h.base_url ++ codes "/internal/relaycore/select"

unfoldable pub settle_address : HttpControlPlane → Bytes
settle_address h = h.base_url ++ codes "/internal/relaycore/settle"

abbrev pub unless_blank : Bytes → Option Json
unless_blank s = if is_empty s then none else some (string_value s)

abbrev pub unless_zero : ℤ → Option Json
unless_zero n = if int_eq n (pos 0) then none else some (int_value n)

-- The fields of `SettleRequest` in the order of their declaration; the last four are `omitempty`.
abbrev pub optional_members : SettleRequest → List (Bytes × Option Json)
optional_members r =
    (codes "request_kind", unless_blank r.request_kind)
    ∷ (codes "image_count", unless_zero r.image_count)
    ∷ (codes "image_size", unless_blank r.image_size)
    ∷ (codes "image_quality", unless_blank r.image_quality)
    ∷ []

abbrev pub present : List (Bytes × Option Json) → List (Bytes × Json)
present [] = []
present ((k, j) ∷ m) = optional_field k j ++ present m

abbrev pub settle_members : SettleRequest → List (Bytes × Json)
settle_members r =
    (codes "request_id", string_value r.request_id)
    ∷ (codes "user_id", int_value r.user_id)
    ∷ (codes "token_id", int_value r.token_id)
    ∷ (codes "channel_id", int_value r.channel_id)
    ∷ (codes "model", string_value r.model)
    ∷ (codes "prompt_tokens", int_value r.prompt_tokens)
    ∷ (codes "completion_tokens", int_value r.completion_tokens)
    ∷ (codes "total_tokens", int_value r.total_tokens)
    ∷ (codes "latency_ms", int_value r.latency_ms)
    ∷ (codes "upstream_status_code", int_value r.upstream_status_code)
    ∷ (codes "is_stream", bool r.is_stream)
    ∷ present (optional_members r)

-- `json.Marshal(req)`
unfoldable pub settle_payload : SettleRequest → Bytes
unfolding print quote int_text
settle_payload r = print (obj (of_fields (settle_members r)))

-- `settleJSONFields`: the tags of the struct's fields.
abbrev pub settle_json_fields : List Bytes
settle_json_fields =
    codes "request_id"
    ∷ codes "user_id"
    ∷ codes "token_id"
    ∷ codes "channel_id"
    ∷ codes "model"
    ∷ codes "prompt_tokens"
    ∷ codes "completion_tokens"
    ∷ codes "total_tokens"
    ∷ codes "latency_ms"
    ∷ codes "upstream_status_code"
    ∷ codes "is_stream"
    ∷ codes "request_kind"
    ∷ codes "image_count"
    ∷ codes "image_size"
    ∷ codes "image_quality"
    ∷ []

-- A value of another type than the field's leaves the field as it is: the error is dropped.
abbrev or_kept {ℓ} : {A : Type ℓ} → Option A → A → A
or_kept none cur = cur
or_kept (some v) cur = v

unfoldable pub set_settled : Fields → SettleReply → SettleReply
set_settled end r = r
set_settled (field k j m) r =
    let ok = record r { is_ok = or_kept (decode_bool j r.is_ok) r.is_ok } in
    let failed = record r { error = or_kept (decode_string j r.error) r.error } in
    let next : SettleReply =
      if key_is (codes "ok") k then ok else if key_is (codes "error") k then failed else r in
    set_settled m next

-- The struct after `Decode`, whose error is dropped.
unfoldable pub settle_reply : Bytes → SettleReply
unfolding set_settled parse_first
settle_reply body =
    let nothing : SettleReply = record { is_ok = false; error = [] } in
    elim (parse_first body) [
      | none ↦ nothing
      | some j ↦ elim j [ obj m ↦ set_settled m nothing | _ ↦ nothing ]
    ]

-- `httpControlPlane.Settle` over a transport: the number of the attempt, the address and the payload
-- give the body of the reply, or none where the call fails. No call is made to a malformed address.
unfoldable pub settle_over :
    (ℕ → Bytes → Bytes → Option Bytes) → HttpControlPlane → SettleRequest → Settled × ℕ
settle_over post h r = elim (parse (settle_address h)) [
  | none ↦ (exhausted, 0)
  | some _ ↦ http_settle (λ i. elim (post i (settle_address h) (settle_payload r)) [
    | none ↦ none
    | some body ↦ some (settle_reply body)
  ])
]

-- `staticControlPlane.Settle`: the line on the standard output.
unfoldable pub settle_line : SettleRequest → Bytes
unfolding itoa64
settle_line r =
    codes "[settle] request_id="
    ++ (r.request_id
        ++ (codes " model="
            ++ (r.model
                ++ (codes " prompt_tokens="
                    ++ (itoa64 r.prompt_tokens
                        ++ (codes " completion_tokens="
                            ++ (itoa64 r.completion_tokens
                                ++ (codes " total_tokens="
                                    ++ (itoa64 r.total_tokens
                                        ++ (codes " latency_ms="
                                            ++ (itoa64 r.latency_ms
                                                ++ (codes " status="
                                                    ++ (itoa64 r.upstream_status_code
                                                        ++ (10 ∷ []))))))))))))))

replies_read :
    (settle_reply (codes "{\"ok\":1,\"error\":\"no\"}")
      ≡ record { is_ok = false; error = codes "no" })
    × (settle_reply (codes "{\"OK\":true}") ≡ record { is_ok = true; error = [] })
    × (settle_reply (codes "oops") ≡ record { is_ok = false; error = [] })
unfolding settle_reply key_is decode_bool decode_string
replies_read = (refl, refl, refl)
