-- ===== src/Wire/Mapping.antt =====
-- pkg/relaycontrol/wire.go: `ResolveModelMapping` follows a channel's model mapping.
pub mod Chain
pub mod Resolve
use test_enclave_newapi.Common.{
  ℕ, zero, suc, ◌+◌, ◌≡◌, refl, Bool, true, false, ◌||◌, List, [], ◌∷◌, Option, none, some,
  if◌then◌else◌, length,
}
use test_enclave_newapi.Text.{Bytes, codes, str_eq}
use test_enclave_newapi.Url.Percent.{is_empty}
use test_enclave_newapi.Json.Tree.{Json, null, bool, num, str, arr, obj, Fields, end, field}
use test_enclave_newapi.Json.Scan.{parse_json}
use test_enclave_newapi.Json.Strings.{unquote}
use test_enclave_newapi.Json.Decode.{decode_string}

abbrev pub Mapping : Type 0
Mapping = List (Bytes × Bytes)

-- The entry of a key; a later entry of the JSON object stands in front.
unfoldable pub target : Mapping → Bytes → Option Bytes
unfolding str_eq
target [] k = none
target ((j, v) ∷ m) k = if str_eq j k then some v else target m k

unfoldable pub decode_entries : Fields → Mapping → Option Mapping
unfolding unquote decode_string
decode_entries end m = some m
decode_entries (field k j rest) m = elim (decode_string j []) [
  | none ↦ none
  | some v ↦ decode_entries rest ((unquote k, v) ∷ m)
]

unfoldable pub decode_mapping : Json → Option Mapping
unfolding decode_entries
decode_mapping (obj fs) = decode_entries fs []
decode_mapping null = some []
decode_mapping _ = none

unfoldable pub visited_before : List Bytes → Bytes → Bool
unfolding str_eq
visited_before [] k = false
visited_before (v ∷ vs) k = str_eq v k || visited_before vs k

pub data Resolution : Type 0 where
  model : Bytes → Resolution
  invalid : Resolution
  cycle : Resolution
  unfinished : Resolution

-- The `for` loop; `unfinished` stands for fuel that ran out.
unfoldable pub follow : Mapping → ℕ → List Bytes → Bytes → Resolution
unfolding target visited_before
follow m zero visited current = unfinished
follow m (suc n) visited current = elim (target m current) [
  | none ↦ model current
  | some next ↦ elim (is_empty next || str_eq next current) [
    | true ↦ model current
    | false ↦ elim (visited_before visited next) [
      | true ↦ cycle
      | false ↦ follow m n (next ∷ visited) next
    ]
  ]
]

-- Every round visits another name, and all but the last are keys of the mapping.
abbrev pub resolve_in : Mapping → Bytes → Resolution
resolve_in m name = follow m (length m + 2) (name ∷ []) name

unfoldable pub resolve_model_mapping : Bytes → Bytes → Resolution
unfolding str_eq parse_json decode_mapping follow
resolve_model_mapping name mapping_json =
    if is_empty mapping_json || str_eq mapping_json (codes "{}")
    then model name
    else elim (parse_json mapping_json) [
      | none ↦ invalid
      | some j ↦ elim (decode_mapping j) [ none ↦ invalid | some m ↦ resolve_in m name ]
    ]

mappings :
    (resolve_model_mapping (codes "a") (codes "{\"a\":\"b\",\"b\":\"c\"}") ≡ model (codes "c"))
    × (resolve_model_mapping (codes "a") (codes "{\"a\":\"b\",\"b\":\"a\"}") ≡ cycle)
    × (resolve_model_mapping (codes "a") (codes "{\"a\":\"a\"}") ≡ model (codes "a"))
    × (resolve_model_mapping (codes "a") (codes "{\"a\":1}") ≡ invalid)
unfolding resolve_model_mapping
mappings = (refl, refl, refl, refl)
