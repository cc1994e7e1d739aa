-- ===== src/Wire/StreamUsage/Panics.antt =====
-- pkg/relaycontrol/wire.go, `EnsureStreamUsage`: for which bodies it writes to a nil map.
use test_enclave_newapi.Common.{
  ◌≡◌, refl, ◌↔◌, inl, inr, true, false, [], Option, none, some, if◌then◌else◌, Bool-cases,
  Option-cases,
}
use test_enclave_newapi.Text.{Bytes, codes}
use test_enclave_newapi.SortedMap
use test_enclave_newapi.Json.Tree.{Json, null, bool, num, str, arr, obj, Fields}
use test_enclave_newapi.Json.Scan.{parse_json}
use test_enclave_newapi.Wire.StreamUsage.{
  RawMap, decode_raw, Injected, body, panics, is_true, options_of, with_usage, ensure_stream_usage,
}

pub is_true_sound : (x : Option Json) → is_true x ≡ true → x ≡ some (bool true)
unfolding is_true
is_true_sound (some (bool true)) h = refl
is_true_sound (some (bool false)) h = cc
is_true_sound (some null) h = cc
is_true_sound (some (num x)) h = cc
is_true_sound (some (str x)) h = cc
is_true_sound (some (arr x)) h = cc
is_true_sound (some (obj x)) h = cc
is_true_sound none h = cc

options_of-none : (x : Option Json) → options_of x ≡ none → x ≡ some null
unfolding options_of
options_of-none (some null) h = refl
options_of-none (some (bool b)) h = cc
options_of-none (some (num x)) h = cc
options_of-none (some (str x)) h = cc
options_of-none (some (arr x)) h = cc
options_of-none (some (obj x)) h = cc
options_of-none none h = cc

-- The body is an object that asks for streaming and has a null for its options.
pub record NullOptions (text : Bytes) : Type 0 where
  pub members : Fields
  pub parsed : parse_json text ≡ some (obj members)
  pub streams : SortedMap.get (codes "stream") (decode_raw members []) ≡ some (bool true)
  pub null_options : SortedMap.get (codes "stream_options") (decode_raw members []) ≡ some null

body≢panics : {b : Bytes} → body b ≡ panics → ⊥
body≢panics h = cc

with_usage-panics :
    (top : RawMap)
    → with_usage top ≡ panics
    → SortedMap.get (codes "stream_options") top ≡ some null
unfolding with_usage
with_usage-panics top h =
    elim (Option-cases (options_of (SortedMap.get (codes "stream_options") top))) [
      | inl n ↦ options_of-none _ n
      | inr (so, e) ↦ absurd (body≢panics (rw (e, with_usage) at h))
    ]

-- The part of the function behind the test for an object.
abbrev inject : Bytes → Fields → Injected
inject text fs =
    if is_true (SortedMap.get (codes "stream") (decode_raw fs []))
    then with_usage (decode_raw fs [])
    else body text

inject-panics :
    (text : Bytes) (fs : Fields)
    → parse_json text ≡ some (obj fs)
    → inject text fs ≡ panics
    → NullOptions text
inject-panics text fs p h =
    elim (Bool-cases (is_true (SortedMap.get (codes "stream") (decode_raw fs [])))) [
      | inr n ↦ absurd (body≢panics (rw n at h))
      | inl y ↦ record {
        members = fs;
        parsed = p;
        streams = is_true_sound _ y;
        null_options = with_usage-panics (decode_raw fs []) (rw y at h);
      }
    ]

panics_of : (text : Bytes) → NullOptions text → ensure_stream_usage text ≡ panics
unfolding ensure_stream_usage is_true with_usage options_of
panics_of text n =
    rw (n.parsed, ensure_stream_usage) (rw (n.streams, is_true, with_usage, n.null_options) refl)

NullOptions-of :
    (text : Bytes) (x : Option Json)
    → parse_json text ≡ x
    → ensure_stream_usage text ≡ panics
    → NullOptions text
unfolding ensure_stream_usage
NullOptions-of text none p h = absurd (body≢panics (rw (p, ensure_stream_usage) at h))
NullOptions-of text (some null) p h = absurd (body≢panics (rw (p, ensure_stream_usage) at h))
NullOptions-of text (some (bool b)) p h = absurd (body≢panics (rw (p, ensure_stream_usage) at h))
NullOptions-of text (some (num x)) p h = absurd (body≢panics (rw (p, ensure_stream_usage) at h))
NullOptions-of text (some (str x)) p h = absurd (body≢panics (rw (p, ensure_stream_usage) at h))
NullOptions-of text (some (arr x)) p h = absurd (body≢panics (rw (p, ensure_stream_usage) at h))
NullOptions-of text (some (obj fs)) p h = inject-panics text fs p (rw (p, ensure_stream_usage) at h)

-- `EnsureStreamUsage` panics exactly for a body that is an object with `true` for `stream` and `null`
-- for `stream_options`; for every other body it returns a body.
pub ensure_stream_usage-panics_iff :
    (text : Bytes) → (ensure_stream_usage text ≡ panics) ↔ NullOptions text
ensure_stream_usage-panics_iff text = (NullOptions-of text (parse_json text) refl, panics_of text)
