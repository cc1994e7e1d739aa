-- ===== src/Relay/Bedrock/Host.antt =====
-- cmd/relay-core/aws_bedrock.go, `prepareAWSBedrockRequest`: the host of a region passes the host rule.
use mathlib.Core.List.{reverse, reverse-append}
use test_enclave_newapi.Common.{
  ℕ, ◌≡◌, refl, sym, ap, ◌∙◌, inl, inr, Bool, true, false, ◌||◌, ◌&&◌, [], ◌∷◌, ◌++◌, none, arith,
  ◌==◌, Bool-cases, All, All-append, append_assoc, all, and-eq-true,
}
use test_enclave_newapi.Text.{
  Bytes, codes, is_lower_byte, is_digit_byte, has_prefix, has_suffix, contains, trim_suffix,
  trim_space, to_lower, strip_one, reverse_each, spaces,
}
use test_enclave_newapi.Text.Laws.{Lacks, has_prefix-append, has_suffix-append, has_suffix_sound}
use test_enclave_newapi.Text.Cuts.{last_cut_of_Lacks}
use test_enclave_newapi.Text.Trim.{trim_space-bare}
use test_enclave_newapi.Url.Percent.{is_empty}
use test_enclave_newapi.Url.Plain.{Plain, is_plain, Plain-Lacks}
use test_enclave_newapi.Url.Written.{parse-host}
use test_enclave_newapi.Url.Address.{hostname}
use test_enclave_newapi.Wire.Region.Laws.{IsRegionByte, region_bytes}
use test_enclave_newapi.Official.Rules.{
  as_authority, host_key, normalize_host, in_family, is_official_host_suffix,
}
use test_enclave_newapi.Relay.Bedrock.Call.{aws_bedrock_channel_type, bedrock_host}
use test_enclave_newapi.Relay.Bedrock.Prepared.{IsRegion}

-- The bytes of a lower-case host name.
abbrev is_host_byte : ℕ → Bool
is_host_byte c = is_lower_byte c || is_digit_byte c || c == b'-' || c == b'.'

abbrev HostName : Bytes → Type 0
HostName s = All (λ c. is_host_byte c ≡ true) s

host_byte_plain : (c : ℕ) → is_host_byte c ≡ true → is_plain c ≡ true
host_byte_plain c h = ground arith

HostName-Plain : (s : Bytes) → HostName s → Plain s
HostName-Plain [] h = tt
HostName-Plain (c ∷ s) (p, h) = (host_byte_plain c p, HostName-Plain s h)

to_lower-byte : (c : ℕ) (s : Bytes) → is_host_byte c ≡ true → to_lower (c ∷ s) ≡ c ∷ to_lower s
unfolding to_lower
to_lower-byte c [] h = ground arith
to_lower-byte c (d ∷ []) h = ground arith
to_lower-byte c (d ∷ e ∷ s) h = ground arith

to_lower-HostName : (s : Bytes) → HostName s → to_lower s ≡ s
unfolding to_lower
to_lower-HostName [] h = refl
to_lower-HostName (c ∷ s) (p, h) = to_lower-byte c s p ∙ ap (λ t. c ∷ t) (to_lower-HostName s h)

constant-HostName : (s : Bytes) → all is_host_byte s ≡ true → HostName s
constant-HostName [] h = tt
constant-HostName (c ∷ s) h =
    let (p, q) = and-eq-true (is_host_byte c) (all is_host_byte s) h in (p, constant-HostName s q)

region_byte-host : (c : ℕ) → IsRegionByte c → is_host_byte c ≡ true
region_byte-host c h = ground arith

region-HostName : (r : Bytes) → All IsRegionByte r → HostName r
region-HostName [] h = tt
region-HostName (c ∷ r) (p, h) = (region_byte-host c p, region-HostName r h)

bedrock_host-HostName : (r : Bytes) → IsRegion r → HostName (bedrock_host r)
unfolding bedrock_host
bedrock_host-HostName r h =
    All-append (λ c. is_host_byte c ≡ true) (codes "bedrock-runtime.") (r ++ codes ".amazonaws.com")
      (constant-HostName (codes "bedrock-runtime.") refl)
      (All-append (λ c. is_host_byte c ≡ true) r (codes ".amazonaws.com")
        (region-HostName r (region_bytes r h)) (constant-HostName (codes ".amazonaws.com") refl))

reversed_host :
    (r : Bytes)
    → reverse (bedrock_host r) ≡ codes "moc.swanozama." ++ reverse (codes "bedrock-runtime." ++ r)
unfolding bedrock_host
reversed_host r =
    ap reverse (sym (append_assoc (codes "bedrock-runtime.") r (codes ".amazonaws.com")))
    ∙ reverse-append (codes "bedrock-runtime." ++ r) (codes ".amazonaws.com")

unspaced : (t : Bytes) → strip_one spaces (b'b' ∷ t) ≡ none
unfolding strip_one
unspaced t = refl

unspaced_end : (t : Bytes) → strip_one (reverse_each spaces) (b'm' ∷ t) ≡ none
unfolding strip_one reverse_each
unspaced_end t = refl

trimmed_host : (r : Bytes) → trim_space (bedrock_host r) ≡ bedrock_host r
unfolding bedrock_host
trimmed_host r =
    trim_space-bare (bedrock_host r) (unspaced _)
      (ap (strip_one (reverse_each spaces)) (reversed_host r) ∙ unspaced_end _)

contains-Lacks : (s : Bytes) → Lacks b':' s → contains s (codes "://") ≡ false
unfolding contains has_prefix
contains-Lacks [] h = refl
contains-Lacks (c ∷ s) (p, h) =
    let n : (c == b':') ≡ false = ground arith in rw n (contains-Lacks s h)

undotted : (r : Bytes) → has_suffix (bedrock_host r) (codes ".") ≡ false
undotted r = elim (Bool-cases (has_suffix (bedrock_host r) (codes "."))) [
  | inr n ↦ n
  | inl y ↦
      let (x, e) = has_suffix_sound (bedrock_host r) (codes ".") y in
      absurd (cc (sym (reversed_host r) ∙ (ap reverse e ∙ reverse-append x (codes "."))))
]

host_key-bedrock :
    (r : Bytes) → HostName (bedrock_host r) → host_key (bedrock_host r) ≡ bedrock_host r
unfolding host_key hostname trim_suffix bedrock_host
host_key-bedrock r h =
    rw
      (
        host_key,
        hostname,
        last_cut_of_Lacks (bedrock_host r) b':'
            (Plain-Lacks b':' (bedrock_host r) refl (HostName-Plain (bedrock_host r) h)),
      )
      (rw (undotted r) (to_lower-HostName (bedrock_host r) h))

-- A plain host name that is trimmed and in its normal form.
normalize-host :
    (c : ℕ) (s : Bytes)
    → Plain (c ∷ s)
    → trim_space (c ∷ s) ≡ c ∷ s
    → host_key (c ∷ s) ≡ c ∷ s
    → normalize_host (c ∷ s) ≡ c ∷ s
unfolding normalize_host as_authority
normalize-host c s p t k =
    let n = contains-Lacks (c ∷ s) (Plain-Lacks b':' (c ∷ s) refl p) in
    rw (normalize_host, t, as_authority, n, parse-host c s p) k

normalized_host : (r : Bytes) → IsRegion r → normalize_host (bedrock_host r) ≡ bedrock_host r
unfolding bedrock_host
normalized_host r k =
    let h = bedrock_host-HostName r k in
    normalize-host b'b' _ (HostName-Plain (bedrock_host r) h) (trimmed_host r)
      (host_key-bedrock r h)

aws_family :
    (h : Bytes)
    → in_family aws_bedrock_channel_type h
      ≡ (has_prefix h (codes "bedrock-runtime.") && has_suffix h (codes ".amazonaws.com"))
unfolding in_family has_prefix has_suffix
aws_family h = refl

host_start : (r : Bytes) → has_prefix (bedrock_host r) (codes "bedrock-runtime.") ≡ true
unfolding bedrock_host
host_start r = has_prefix-append (codes "bedrock-runtime.") (r ++ codes ".amazonaws.com")

host_end : (r : Bytes) → has_suffix (bedrock_host r) (codes ".amazonaws.com") ≡ true
unfolding bedrock_host
host_end r =
    ap (λ h. has_suffix h (codes ".amazonaws.com"))
      (sym (append_assoc (codes "bedrock-runtime.") r (codes ".amazonaws.com")))
    ∙ has_suffix-append (codes "bedrock-runtime." ++ r) (codes ".amazonaws.com")

host_given : (r : Bytes) → is_empty (bedrock_host r) ≡ false
unfolding bedrock_host
host_given r = refl

-- The host of a region of the AWS pattern is official for AWS.
pub bedrock_host-official :
    (r : Bytes)
    → IsRegion r
    → is_official_host_suffix aws_bedrock_channel_type (bedrock_host r) ≡ true
unfolding is_official_host_suffix
bedrock_host-official r k =
    rw (is_official_host_suffix, normalized_host r k, host_given r)
      (aws_family (bedrock_host r) ∙ rw (host_start r, host_end r) refl)
