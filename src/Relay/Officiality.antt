-- ===== src/Relay/Officiality.antt =====
-- cmd/relay-core/main.go, `serveRelay`: where the handler's upstream calls go.
use test_enclave_newapi.Common.{
  ℤ, ◌≡◌, refl, sym, inl, inr, true, false, ◌++◌, some, Bool-cases, Option-cases, Result-cases,
  ok_inj, ok, int_eq, int_eq_iff,
}
use test_enclave_newapi.Text.{Bytes, trim_space, trim_right}
use test_enclave_newapi.Url.Percent.{is_empty}
use test_enclave_newapi.Wire.Messages.{SelectChannelResponse}
use test_enclave_newapi.Official.Rules.{for_type, is_official_host_suffix}
use test_enclave_newapi.Official.Profiles.{
  UpstreamProfile, Resolved, resolve_route, profile_for, supports_official,
}
use test_enclave_newapi.Relay.Upstream.{official_upstream_url, suffix_host_upstream_url}
use test_enclave_newapi.Relay.World.{World, Message}
use test_enclave_newapi.Relay.Dispatch.{Credential}
use test_enclave_newapi.Relay.Bedrock.Call.{aws_bedrock_channel_type, bedrock_host, bedrock_url}
use test_enclave_newapi.Relay.Bedrock.Prepared.{IsRegion}
use test_enclave_newapi.Relay.Route.{Routing, relay_format}
use test_enclave_newapi.Relay.Admit.{
  Admitted, bedrock, direct, denied, upstream_url, to_url, admit_direct, admit_bedrock,
  admit_with_key, upstream_key, vetted_profile, admit,
}

-- The path that a channel's provider is called at, for this client path.
pub record ServedPath (t : ℤ) (in_path path : Bytes) : Type 0 where
  pub profile : UpstreamProfile
  pub route : Resolved
  pub vetted : supports_official t ≡ true
  pub known : profile_for t ≡ some profile
  pub resolved : resolve_route profile (relay_format in_path) in_path ≡ some route
  pub served : path ≡ route.upstream_path

-- An address that the enclave's own tables allow for a channel.
pub data OfficialAddress (sel : SelectChannelResponse) (in_path address : Bytes) : Type 0 where
  -- The base URL is the one of the enclave's table.
  exact :
      (path : Bytes)
      → ServedPath sel.channel_type in_path path
      → is_empty (for_type sel.channel_type) ≡ false
      → address ≡ for_type sel.channel_type ++ path
      → OfficialAddress sel in_path address
  -- The base URL is the control plane's, and its host passes the host rule.
  by_host :
      (path : Bytes)
      → ServedPath sel.channel_type in_path path
      → is_official_host_suffix sel.channel_type (trim_space sel.upstream_base_url) ≡ true
      → address ≡ trim_right (trim_space sel.upstream_base_url) b'/' ++ path
      → OfficialAddress sel in_path address
  -- The host is built from a region of the AWS pattern, and passes the host rule of AWS.
  by_region :
      (region model : Bytes)
      → sel.channel_type ≡ aws_bedrock_channel_type
      → supports_official sel.channel_type ≡ true
      → IsRegion region
      → is_official_host_suffix aws_bedrock_channel_type (bedrock_host region) ≡ true
      → address ≡ bedrock_url (bedrock_host region) model
      → OfficialAddress sel in_path address

module _ (sel : SelectChannelResponse) (in_path : Bytes) where
  upstream_url_sound :
      (p : UpstreamProfile) (path address : Bytes)
      → ServedPath sel.channel_type in_path path
      → upstream_url p sel path ≡ ok address
      → OfficialAddress sel in_path address
  unfolding upstream_url official_upstream_url suffix_host_upstream_url
  upstream_url_sound p path address v h = elim (Bool-cases p.suffix_host) [
    | inr f ↦ elim (Bool-cases (is_empty (for_type sel.channel_type))) [
      | inl y ↦ absurd (cc (rw (f, y, upstream_url, official_upstream_url) at h))
      | inr n ↦ exact path v n (sym (ok_inj (rw (f, n, upstream_url, official_upstream_url) at h)))
    ]
    | inl t ↦ elim (Bool-cases (is_empty (trim_space sel.upstream_base_url))) [
      | inl y ↦ absurd (cc (rw (t, y, upstream_url, suffix_host_upstream_url) at h))
      | inr n ↦
          elim (Bool-cases
            (is_official_host_suffix sel.channel_type (trim_space sel.upstream_base_url))) [
              | inr m ↦ absurd (cc (rw (t, n, m, upstream_url, suffix_host_upstream_url) at h))
              | inl m ↦
                  by_host path v m
                    (sym (ok_inj (rw (t, n, m, upstream_url, suffix_host_upstream_url) at h)))
            ]
    ]
  ]

-- What is known of the call that `admit` lets through.
pub data Vetted (sel : SelectChannelResponse) (in_path : Bytes) : Admitted → Type 0 where
  refuses : (code : ℤ) (m : Message) → Vetted sel in_path (denied code m)
  calls :
      (url key : Bytes) (c : Credential)
      → OfficialAddress sel in_path url
      → Vetted sel in_path (direct url key c)
  signs :
      (creds model : Bytes)
      → sel.channel_type ≡ aws_bedrock_channel_type
      → supports_official sel.channel_type ≡ true
      → Vetted sel in_path (bedrock creds model)

vetted_profile_sound :
    (t : ℤ) (p : UpstreamProfile)
    → vetted_profile t ≡ some p
    → (supports_official t ≡ true) × (profile_for t ≡ some p)
unfolding vetted_profile
vetted_profile_sound t p h = elim (Bool-cases (supports_official t)) [
  | inl y ↦ (y, rw (y, vetted_profile) at h)
  | inr n ↦ absurd (cc (rw (n, vetted_profile) at h))
]

module _ (sel : SelectChannelResponse) (in_path : Bytes) where
  admit_direct-Vetted :
      (p : UpstreamProfile) (key : Bytes)
      → supports_official sel.channel_type ≡ true
      → profile_for sel.channel_type ≡ some p
      → Vetted sel in_path (admit_direct p sel in_path key)
  unfolding admit_direct to_url
  admit_direct-Vetted p key s f =
      elim (Option-cases (resolve_route p (relay_format in_path) in_path)) [
        | inl n ↦ rw (n, admit_direct) (refuses _ _)
        | inr (v, e) ↦ elim (Result-cases (upstream_url p sel v.upstream_path)) [
          | inl (x, m) ↦ rw (e, m, admit_direct) (refuses _ _)
          | inr (u, m) ↦
              rw (e, m, admit_direct)
                (calls u key _ (
                  upstream_url_sound sel in_path p v.upstream_path u
                    (record {
                      profile = p;
                      route = v;
                      vetted = s;
                      known = f;
                      resolved = e;
                      served = refl;
                    })
                    m))
        ]
      ]

  admit_bedrock-Vetted :
      (rt : Routing) (key : Bytes)
      → sel.channel_type ≡ aws_bedrock_channel_type
      → supports_official sel.channel_type ≡ true
      → Vetted sel in_path (admit_bedrock sel rt key)
  unfolding admit_bedrock
  admit_bedrock-Vetted rt key t s = elim (Bool-cases rt.is_stream) [
    | inl y ↦ rw (y, admit_bedrock) (refuses _ _)
    | inr n ↦ rw (n, admit_bedrock) (signs key _ t s)
  ]

  pub admit-Vetted : (w : World) (rt : Routing) → Vetted sel in_path (admit w sel rt in_path)
  unfolding admit admit_with_key
  admit-Vetted w rt = elim (Bool-cases (is_empty sel.error)) [
    | inr n ↦ rw (n, admit) (refuses _ _)
    | inl y ↦ elim (Option-cases (vetted_profile sel.channel_type)) [
      | inl m ↦ rw (y, m, admit) (refuses _ _)
      | inr (p, e) ↦ elim (Option-cases (upstream_key w sel)) [
        | inl m ↦ rw (y, e, m, admit) (refuses _ _)
        | inr (key, f) ↦
            let (s, k) = vetted_profile_sound sel.channel_type p e in
            elim (Bool-cases (int_eq sel.channel_type aws_bedrock_channel_type)) [
              | inl t ↦
                  rw (y, e, f, t, admit) (admit_bedrock-Vetted rt key ((int_eq_iff _ _).0 t) s)
              | inr t ↦ rw (y, e, f, t, admit) (admit_direct-Vetted p key s k)
            ]
      ]
    ]
  ]
