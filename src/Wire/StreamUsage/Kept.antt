-- ===== src/Wire/StreamUsage/Kept.antt =====
-- pkg/relaycontrol/wire.go, `EnsureStreamUsage`: what it changes in a body.
use test_enclave_newapi.Common.{◌≡◌, true, false, [], some}
use test_enclave_newapi.Text.{Bytes, codes, str_eq}
use test_enclave_newapi.SortedMap
use test_enclave_newapi.Json.Tree.{Json, bool, obj, Fields}
use test_enclave_newapi.Json.Scan.{parse_json}
use test_enclave_newapi.Json.Print.{print}
use test_enclave_newapi.Wire.StreamUsage.{RawMap, decode_raw, encode_raw, options_of}

-- Two maps have the same values but for one key.
abbrev pub AgreeBut : Bytes → RawMap → RawMap → Type 0
AgreeBut key a b = (k : Bytes) → str_eq k key ≡ false → SortedMap.get k a ≡ SortedMap.get k b

-- The body is an object that asks for streaming; what is sent is an object with the same members, but
-- for the options, which keep theirs and ask for the usage.
pub record Injection (text out : Bytes) : Type 0 where
  pub members : Fields
  pub options : RawMap
  pub sent : RawMap
  pub sent_options : RawMap
  pub parsed : parse_json text ≡ some (obj members)
  pub streams : SortedMap.get (codes "stream") (decode_raw members []) ≡ some (bool true)
  pub had :
      options_of (SortedMap.get (codes "stream_options") (decode_raw members [])) ≡ some options
  pub printed : out ≡ print (obj (encode_raw sent))
  pub others : AgreeBut (codes "stream_options") sent (decode_raw members [])
  pub new_options :
      SortedMap.get (codes "stream_options") sent ≡ some (obj (encode_raw sent_options))
  pub other_options : AgreeBut (codes "include_usage") sent_options options
  pub usage : SortedMap.get (codes "include_usage") sent_options ≡ some (bool true)
