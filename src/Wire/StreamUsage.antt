-- ===== src/Wire/StreamUsage.antt =====
-- pkg/relaycontrol/wire.go: `EnsureStreamUsage` asks a streaming upstream for its usage frame.
pub mod Panics
pub mod Kept
use test_enclave_newapi.Common.{
  ◌≡◌, refl, Bool, true, false, List, [], ◌∷◌, Option, none, some, if◌then◌else◌,
}
use test_enclave_newapi.Text.{Bytes, codes, str_eq, str_lt}
use test_enclave_newapi.SortedMap
use test_enclave_newapi.SortedMap.{SortedMap}
use test_enclave_newapi.Json.Tree.{Json, null, bool, num, str, arr, obj, Fields, end, field}
use test_enclave_newapi.Json.Scan.{parse_json}
use test_enclave_newapi.Json.Strings.{unquote, quote}
use test_enclave_newapi.Json.Decode.{decode_bool}
use test_enclave_newapi.Json.Print.{print}

-- A `map[string]json.RawMessage`, in the order of its keys.
abbrev pub RawMap : Type 0
RawMap = SortedMap Json

unfoldable pub decode_raw : Fields → RawMap → RawMap
unfolding unquote SortedMap.set
decode_raw end m = m
decode_raw (field k j rest) m = decode_raw rest (SortedMap.set (unquote k) j m)

unfoldable pub encode_raw : RawMap → Fields
unfolding quote
encode_raw [] = end
encode_raw ((k, j) ∷ m) = field (quote k) j (encode_raw m)

-- A write to a nil map panics; `null` for `stream_options` makes the map nil.
pub data Injected : Type 0 where
  body : Bytes → Injected
  panics : Injected

unfoldable pub is_true : Option Json → Bool
is_true (some (bool true)) = true
is_true _ = false

unfoldable pub options_of : Option Json → Option RawMap
unfolding decode_raw
options_of (some (obj fs)) = some (decode_raw fs [])
options_of (some null) = none
options_of _ = some []

unfoldable pub with_usage : RawMap → Injected
with_usage top = elim (options_of (SortedMap.get (codes "stream_options") top)) [
  | none ↦ panics
  | some so ↦ body (
      print (
        obj (
          encode_raw (
            SortedMap.set (codes "stream_options")
              (obj (encode_raw (SortedMap.set (codes "include_usage") (bool true) so))) top))))
]

unfoldable pub ensure_stream_usage : Bytes → Injected
ensure_stream_usage text = elim (parse_json text) [
  | none ↦ body text
  | some j ↦ elim j [
    | obj fs ↦
        if is_true (SortedMap.get (codes "stream") (decode_raw fs []))
        then with_usage (decode_raw fs [])
        else body text
    | _ ↦ body text
  ]
]

injected :
    (ensure_stream_usage (codes "{\"stream\": true, \"model\":\"m\",\"stream_options\":{\"x\":1}}")
      ≡ body (
          codes
            "{\"model\":\"m\",\"stream\":true,\"stream_options\":{\"include_usage\":true,\"x\":1}}"))
    × (ensure_stream_usage (codes "{\"stream\": false}") ≡ body (codes "{\"stream\": false}"))
    × (ensure_stream_usage (codes "{\"stream\":true,\"stream_options\":null}") ≡ panics)
unfolding ensure_stream_usage parse_json decode_raw is_true with_usage SortedMap.get SortedMap.set
    encode_raw options_of print
injected = (refl, refl, refl)
