-- ===== src/Relay/Answers/Codes.antt =====
-- cmd/relay-core/main.go, `serveRelay`: the status codes of its own refusals.
use test_enclave_newapi.Common.{
  ℤ, pos, ◌≡◌, refl, inl, inr, true, not, ◌&&◌, Option, none, some, int_eq, int_leb, Bool-cases,
  Option-cases, Result, ok, err,
}
use test_enclave_newapi.Text.{Bytes}
use test_enclave_newapi.Url.Percent.{is_empty}
use test_enclave_newapi.Wire.Messages.{SelectChannelResponse}
use test_enclave_newapi.Wire.Peek.{PeekError, peek_request}
use test_enclave_newapi.Wire.StreamUsage.{Injected, body, panics}
use test_enclave_newapi.Official.Profiles.{UpstreamProfile, Resolved, resolve_route}
use test_enclave_newapi.Relay.Upstream.{UrlError}
use test_enclave_newapi.Relay.World.{World}
use test_enclave_newapi.Relay.Bedrock.Call.{aws_bedrock_channel_type}
use test_enclave_newapi.Relay.Route.{
  Scalars, Routing, Routed, routed, refused, aborted, relay_format, is_image, scalars_of, with_body,
  upstream_body, route_scalars, route,
}
use test_enclave_newapi.Relay.Admit.{
  Admitted, bedrock, direct, denied, vetted_profile, upstream_key, upstream_url, to_url,
  admit_direct, admit_bedrock, admit_with_key, admit,
}

-- A code that `WriteHeader` takes.
abbrev pub IsProper : ℤ → Type 0
IsProper code = (int_leb (pos 100) code && int_leb code (pos 999)) ≡ true

abbrev pub RefusesProperly : Routed → Type 0
RefusesProperly (refused code m) = IsProper code
RefusesProperly (routed rt) = Unit
RefusesProperly aborted = Unit

abbrev pub DeniesProperly : Admitted → Type 0
DeniesProperly (denied code m) = IsProper code
DeniesProperly (bedrock key model) = Unit
DeniesProperly (direct url key c) = Unit

with_body-RefusesProperly : (x : Scalars) (i : Injected) → RefusesProperly (with_body x i)
unfolding with_body
with_body-RefusesProperly x (body b) = tt
with_body-RefusesProperly x panics = tt

route_scalars-RefusesProperly :
    (path raw : Bytes) (x : Result PeekError Scalars) → RefusesProperly (route_scalars path raw x)
unfolding route_scalars
route_scalars-RefusesProperly path raw (err e) = refl
route_scalars-RefusesProperly path raw (ok x) = elim (Bool-cases (is_image path && x.is_stream)) [
  | inl y ↦ rw (y, route_scalars) refl
  | inr n ↦ rw (n, route_scalars) (with_body-RefusesProperly x (upstream_body path x.is_stream raw))
]

pub route-RefusesProperly : (path raw : Bytes) → RefusesProperly (route path raw)
unfolding route
route-RefusesProperly path raw =
    route_scalars-RefusesProperly path raw (scalars_of path (peek_request raw))

to_url-DeniesProperly :
    (key : Bytes) (v : Resolved) (x : Result UrlError Bytes) → DeniesProperly (to_url key v x)
unfolding to_url
to_url-DeniesProperly key v (err e) = refl
to_url-DeniesProperly key v (ok u) = tt

module _ (sel : SelectChannelResponse) (rt : Routing) (path : Bytes) where
  admit_direct-DeniesProperly :
      (p : UpstreamProfile) (key : Bytes) → DeniesProperly (admit_direct p sel path key)
  unfolding admit_direct
  admit_direct-DeniesProperly p key =
      elim (Option-cases (resolve_route p (relay_format path) path)) [
        | inl n ↦ rw (n, admit_direct) refl
        | inr (v, e) ↦
            rw (e, admit_direct) (to_url-DeniesProperly key v (upstream_url p sel v.upstream_path))
      ]

  admit_bedrock-DeniesProperly : (key : Bytes) → DeniesProperly (admit_bedrock sel rt key)
  unfolding admit_bedrock
  admit_bedrock-DeniesProperly key = elim (Bool-cases rt.is_stream) [
    | inl y ↦ rw (y, admit_bedrock) refl
    | inr n ↦ rw (n, admit_bedrock) tt
  ]

  admit_with_key-DeniesProperly :
      (p : UpstreamProfile) (x : Option Bytes) → DeniesProperly (admit_with_key p sel rt path x)
  unfolding admit_with_key
  admit_with_key-DeniesProperly p none = refl
  admit_with_key-DeniesProperly p (some key) =
      elim (Bool-cases (int_eq sel.channel_type aws_bedrock_channel_type)) [
        | inl y ↦ rw (y, admit_with_key) (admit_bedrock-DeniesProperly key)
        | inr n ↦ rw (n, admit_with_key) (admit_direct-DeniesProperly p key)
      ]

  pub admit-DeniesProperly : (w : World) → DeniesProperly (admit w sel rt path)
  unfolding admit
  admit-DeniesProperly w = elim (Bool-cases (not (is_empty sel.error))) [
    | inl y ↦ rw (y, admit) refl
    | inr n ↦ elim (Option-cases (vetted_profile sel.channel_type)) [
      | inl e ↦ rw (n, e, admit) refl
      | inr (p, e) ↦ rw (n, e, admit) (admit_with_key-DeniesProperly p (upstream_key w sel))
    ]
  ]
