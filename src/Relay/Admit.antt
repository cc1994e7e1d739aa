-- ===== src/Relay/Admit.antt =====
-- cmd/relay-core/main.go: the middle of `serveRelay`, which checks the control plane's answer and
-- decides where the request goes.
use test_enclave_newapi.Common.{
  ℤ, pos, int_eq, not, ◌++◌, Option, none, some, if◌then◌else◌, Result, ok, err,
}
use test_enclave_newapi.Text.{Bytes, codes}
use test_enclave_newapi.Url.Percent.{is_empty}
use test_enclave_newapi.Wire.Messages.{SelectChannelResponse}
use test_enclave_newapi.Official.Profiles.{
  UpstreamProfile, Resolved, resolve_route, profile_for, supports_official,
}
use test_enclave_newapi.Relay.Upstream.{UrlError, official_upstream_url, suffix_host_upstream_url}
use test_enclave_newapi.Relay.World.{World, Message, text, bad_upstream_url}
use test_enclave_newapi.Relay.Dispatch.{Credential}
use test_enclave_newapi.Relay.Bedrock.Call.{aws_bedrock_channel_type}
use test_enclave_newapi.Relay.Route.{Routing, relay_format}

-- The call that is made, or the error response.
pub data Admitted : Type 0 where
  bedrock : Bytes → Bytes → Admitted
  direct : Bytes → Bytes → Credential → Admitted
  denied : ℤ → Message → Admitted

unfoldable pub upstream_url :
    UpstreamProfile → SelectChannelResponse → Bytes → Result UrlError Bytes
upstream_url p sel path =
    if p.suffix_host
    then suffix_host_upstream_url sel.channel_type sel.upstream_base_url path
    else official_upstream_url sel.channel_type path

unfoldable pub to_url : Bytes → Resolved → Result UrlError Bytes → Admitted
to_url api_key v (err e) = denied (pos 500) (bad_upstream_url e)
to_url api_key v (ok u) = direct u api_key (record {
  auth_header = v.auth_header;
  auth_prefix = v.auth_prefix;
  extra_headers = v.extra_headers;
})

unfoldable pub admit_direct : UpstreamProfile → SelectChannelResponse → Bytes → Bytes → Admitted
admit_direct p sel path api_key = elim (resolve_route p (relay_format path) path) [
  | none ↦ denied (pos 400) (
      text (
        codes "this provider does not serve the "
        ++ (relay_format path ++ codes " format on /official")))
  | some v ↦ to_url api_key v (upstream_url p sel v.upstream_path)
]

unfoldable pub admit_bedrock : SelectChannelResponse → Routing → Bytes → Admitted
admit_bedrock sel rt api_key =
    if rt.is_stream
    then denied (pos 400) (text (codes "AWS Bedrock streaming is not supported by the enclave yet"))
    else bedrock api_key
        (if is_empty sel.upstream_model_name then rt.model else sel.upstream_model_name)

unfoldable pub admit_with_key :
    UpstreamProfile → SelectChannelResponse → Routing → Bytes → Option Bytes → Admitted
admit_with_key p sel rt path none = denied (pos 500) (text (codes "upstream key unavailable"))
admit_with_key p sel rt path (some api_key) =
    if int_eq sel.channel_type aws_bedrock_channel_type
    then admit_bedrock sel rt api_key
    else admit_direct p sel path api_key

unfoldable pub upstream_key : World → SelectChannelResponse → Option Bytes
upstream_key w sel =
    if is_empty sel.upstream_api_key then w.key_for sel.channel_id else some sel.upstream_api_key

-- The officiality check, on the enclave's own tables.
unfoldable pub vetted_profile : ℤ → Option UpstreamProfile
vetted_profile t = if supports_official t then profile_for t else none

unfoldable pub admit : World → SelectChannelResponse → Routing → Bytes → Admitted
admit w sel rt path =
    if not (is_empty sel.error)
    then denied (pos 403) (text sel.error)
    else elim (vetted_profile sel.channel_type) [
      | none ↦
          denied (pos 400)
            (text (codes "this provider is not a vetted official upstream in the enclave"))
      | some p ↦ admit_with_key p sel rt path (upstream_key w sel)
    ]
