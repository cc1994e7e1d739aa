-- ===== src/Json/Decode.antt =====
-- `json.Unmarshal` into the program's structs. A mismatched value makes the call fail, which every
-- caller treats as "no result": `none`. `null` leaves a field as it is, and a later key of the same
-- name wins.
use test_enclave_newapi.Common.{
  ℕ, ℤ, pos, negsuc, ◌+◌, ◌-◌, ◌*◌, ◌≡◌, refl, Bool, ◌&&◌, List, [], ◌∷◌, Option, none, some, leb,
  ltb, ◌==◌, if◌then◌else◌, two63, all,
}
use test_enclave_newapi.Text.{Bytes, codes, is_digit_byte}
use test_enclave_newapi.Json.Tree.{
  Json, null, bool, num, str, arr, obj, Items, nil, cons, Fields, end, field,
}
use test_enclave_newapi.Json.Strings.{unquote}

unfoldable pub decimal : ℕ → Bytes → ℕ
decimal n [] = n
decimal n (c ∷ s) = decimal (n * 10 + (c - b'0')) s

-- `strconv.ParseInt(s, 10, 64)` on a JSON number literal.
unfoldable pub parse_int64 : Bytes → Option ℤ
unfolding decimal
parse_int64 [] = none
parse_int64 (c ∷ s) =
    if c == b'-'
    then if all is_digit_byte s && leb 1 (decimal 0 s) && leb (decimal 0 s) two63
      then some (negsuc (decimal 0 s - 1))
      else if all is_digit_byte s && decimal 0 s == 0
      then some (pos 0)
      else none
    else if all is_digit_byte (c ∷ s) && ltb (decimal 0 (c ∷ s)) two63
    then some (pos (decimal 0 (c ∷ s)))
    else none

-- A value for a field that holds `cur`.
unfoldable pub decode_string : Json → Bytes → Option Bytes
unfolding unquote
decode_string (str s) cur = some (unquote s)
decode_string null cur = some cur
decode_string _ cur = none

unfoldable pub decode_bool : Json → Bool → Option Bool
decode_bool (bool b) cur = some b
decode_bool null cur = some cur
decode_bool _ cur = none

unfoldable pub decode_int : Json → ℤ → Option ℤ
unfolding parse_int64
decode_int (num s) cur = parse_int64 s
decode_int null cur = some cur
decode_int _ cur = none

-- `set` stores the value of one key in the struct.
unfoldable pub decode_fields {ℓ} :
    {S : Type ℓ} → (Bytes → Json → S → Option S) → Fields → S → Option S
decode_fields set end s = some s
decode_fields set (field k j m) s = elim (set k j s) [
  | none ↦ none
  | some t ↦ decode_fields set m t
]

unfoldable pub decode_struct {ℓ} :
    {S : Type ℓ} → (Bytes → Json → S → Option S) → Json → S → Option S
unfolding decode_fields
decode_struct set (obj m) s = decode_fields set m s
decode_struct set null s = some s
decode_struct set _ s = none

-- A slice: `null` is nil, and an element starts from the zero value.
unfoldable pub decode_items {ℓ} : {S : Type ℓ} → (Json → Option S) → Items → Option (List S)
decode_items read nil = some []
decode_items read (cons j js) = elim (read j) [
  | none ↦ none
  | some x ↦ elim (decode_items read js) [ none ↦ none | some xs ↦ some (x ∷ xs) ]
]

unfoldable pub decode_slice {ℓ} : {S : Type ℓ} → (Json → Option S) → Json → Option (List S)
unfolding decode_items
decode_slice read (arr js) = decode_items read js
decode_slice read null = some []
decode_slice read _ = none

-- Onto a slice that an earlier key has filled: `backing` is its array, whose elements the new ones are
-- decoded onto. The result is the slice, and what of the array is left behind it.
unfoldable pub decode_items_over {ℓ} :
    {S : Type ℓ} → (Json → S → Option S) → S → Items → List S → Option (List S × List S)
decode_items_over read zero nil backing = some ([], backing)
decode_items_over read zero (cons j js) [] = elim (read j zero) [
  | none ↦ none
  | some x ↦ elim (decode_items_over read zero js []) [
    | none ↦ none
    | some (xs, left) ↦ some (x ∷ xs, left)
  ]
]
decode_items_over read zero (cons j js) (b ∷ bs) = elim (read j b) [
  | none ↦ none
  | some x ↦ elim (decode_items_over read zero js bs) [
    | none ↦ none
    | some (xs, left) ↦ some (x ∷ xs, left)
  ]
]

-- `null` and the empty list start with a new array.
unfoldable pub decode_slice_over {ℓ} :
    {S : Type ℓ} → (Json → S → Option S) → S → Json → List S → Option (List S × List S)
unfolding decode_items_over
decode_slice_over read zero (arr nil) backing = some ([], [])
decode_slice_over read zero (arr (cons j js)) backing =
    decode_items_over read zero (cons j js) backing
decode_slice_over read zero null backing = some ([], [])
decode_slice_over read zero _ backing = none

int_bounds :
    (parse_int64 (codes "-9223372036854775808") ≡ some (negsuc (two63 - 1)))
    × (parse_int64 (codes "9223372036854775808") ≡ none)
    × (parse_int64 (codes "1.0") ≡ none)
    × (parse_int64 (codes "-0") ≡ some (pos 0))
unfolding parse_int64
int_bounds = (refl, refl, refl, refl)
