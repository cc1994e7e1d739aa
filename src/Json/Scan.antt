-- ===== src/Json/Scan.antt =====
-- The scanner of `encoding/json`: the whole text is checked before a value is stored. Nesting is
-- limited to 10000 levels. Every round reads a byte, so fuel above the text's length is enough.
use mathlib.Core.List.{reverse}
use test_enclave_newapi.Common.{
  ℕ, zero, suc, ◌+◌, ◌≡◌, refl, Bool, true, false, [], ◌∷◌, Option, none, some, ltb, ◌==◌,
  if◌then◌else◌, length, drop,
}
use test_enclave_newapi.Text.{Bytes, codes, has_prefix, is_digit_byte}
use test_enclave_newapi.Url.Percent.{hex_value, one_of}
use test_enclave_newapi.Json.Tree.{
  Json, null, bool, num, str, arr, obj, Items, nil, cons, Fields, end, field,
}

unfoldable pub skip_space : Bytes → Bytes
skip_space [] = []
skip_space (c ∷ s) = if one_of (codes " \t\r\n") c then skip_space s else c ∷ s

-- The states of a number literal, and what one more byte does.
pub data NumState : Type 0 where
  minus zeros whole point fraction exponent sign power : NumState

abbrev pub num_next : NumState → ℕ → Option NumState
num_next minus c = if c == b'0' then some zeros else if is_digit_byte c then some whole else none
num_next zeros c =
    if c == b'.' then some point else if one_of (codes "eE") c then some exponent else none
num_next whole c =
    if is_digit_byte c
    then some whole
    else if c == b'.'
    then some point
    else if one_of (codes "eE") c
    then some exponent
    else none
num_next point c = if is_digit_byte c then some fraction else none
num_next fraction c =
    if is_digit_byte c then some fraction else if one_of (codes "eE") c then some exponent else none
num_next exponent c =
    if one_of (codes "+-") c then some sign else if is_digit_byte c then some power else none
num_next sign c = if is_digit_byte c then some power else none
num_next power c = if is_digit_byte c then some power else none

abbrev pub num_ends : NumState → Bool
num_ends zeros = true
num_ends whole = true
num_ends fraction = true
num_ends power = true
num_ends _ = false

unfoldable pub num_run : NumState → Bytes → Bytes → Option (Bytes × Bytes)
num_run st acc [] = if num_ends st then some (reverse acc, []) else none
num_run st acc (c ∷ s) = elim (num_next st c) [
  | some st' ↦ num_run st' (c ∷ acc) s
  | none ↦ if num_ends st then some (reverse acc, c ∷ s) else none
]

unfoldable pub scan_number : Bytes → Option (Bytes × Bytes)
unfolding num_run
scan_number [] = none
scan_number (c ∷ s) =
    if c == b'-'
    then num_run minus (c ∷ []) s
    else elim (num_next minus c) [ none ↦ none | some st ↦ num_run st (c ∷ []) s ]

-- The states of a string literal: plain text, behind a backslash, or in a \u escape.
pub data StrState : Type 0 where
  plain escape : StrState
  digits : ℕ → StrState

pub data StrStep : Type 0 where
  go : StrState → StrStep
  done bad : StrStep

abbrev pub str_next : StrState → ℕ → StrStep
str_next plain c =
    if c == b'"'
    then done
    else if c == b'\\'
    then go escape
    else if ltb c 0x20
    then bad
    else go plain
str_next escape c =
    if c == b'u' then go (digits 3) else if one_of (codes "bfnrt/\\\"") c then go plain else bad
str_next (digits n) c = elim (hex_value c) [
  | none ↦ bad
  | some _ ↦ elim n [ zero ↦ go plain | suc m ↦ go (digits m) ]
]

unfoldable pub str_run : StrState → Bytes → Bytes → Option (Bytes × Bytes)
unfolding hex_value
str_run st acc [] = none
str_run st acc (c ∷ s) = elim (str_next st c) [
  | go st' ↦ str_run st' (c ∷ acc) s
  | done ↦ some (reverse acc, s)
  | bad ↦ none
]

-- What a value starts with.
pub data Lead : Type 0 where
  scalar : Json → Bytes → Lead
  brace : Bytes → Lead
  bracket : Bytes → Lead
  refused : Lead

unfoldable pub lead : Bytes → Lead
unfolding str_run scan_number has_prefix
lead [] = refused
lead (c ∷ s) =
    if c == b'{'
    then brace s
    else if c == b'['
    then bracket s
    else if c == b'"'
    then elim (str_run plain [] s) [ none ↦ refused | some (t, r) ↦ scalar (str t) r ]
    else if has_prefix (c ∷ s) (codes "null")
    then scalar null (drop 4 (c ∷ s))
    else if has_prefix (c ∷ s) (codes "true")
    then scalar (bool true) (drop 4 (c ∷ s))
    else if has_prefix (c ∷ s) (codes "false")
    then scalar (bool false) (drop 5 (c ∷ s))
    else elim (scan_number (c ∷ s)) [ none ↦ refused | some (t, r) ↦ scalar (num t) r ]

-- What stands at the start of a text behind white space.
abbrev pub first_is : ℕ → Bytes → Option Bytes
first_is b s = elim (skip_space s) [ [] ↦ none | c ∷ r ↦ if c == b then some r else none ]

-- A key and its colon.
unfoldable pub scan_key : Bytes → Option (Bytes × Bytes)
unfolding skip_space str_run
scan_key s = elim (first_is b'"' s) [
  | none ↦ none
  | some r ↦ elim (str_run plain [] r) [
    | none ↦ none
    | some (k, t) ↦ elim (first_is b':' t) [ none ↦ none | some u ↦ some (k, u) ]
  ]
]

unfoldable mutual
  unfolding skip_space lead scan_key

  pub value : ℕ → ℕ → Bytes → Option (Json × Bytes)
  value zero d s = none
  value (suc f) d s = elim (lead (skip_space s)) [
    | refused ↦ none
    | scalar j r ↦ some (j, r)
    | brace r ↦ elim d [
      | zero ↦ none
      | suc e ↦ elim (first_is b'}' r) [
        | some t ↦ some (obj end, t)
        | none ↦ elim (members f e r) [ none ↦ none | some (m, t) ↦ some (obj m, t) ]
      ]
    ]
    | bracket r ↦ elim d [
      | zero ↦ none
      | suc e ↦ elim (first_is b']' r) [
        | some t ↦ some (arr nil, t)
        | none ↦ elim (elements f e r) [ none ↦ none | some (m, t) ↦ some (arr m, t) ]
      ]
    ]
  ]

  pub members : ℕ → ℕ → Bytes → Option (Fields × Bytes)
  members zero d s = none
  members (suc f) d s = elim (scan_key s) [
    | none ↦ none
    | some (k, r) ↦ elim (value f d r) [
      | none ↦ none
      | some (j, t) ↦ elim (first_is b'}' t) [
        | some u ↦ some (field k j end, u)
        | none ↦ elim (first_is b',' t) [
          | none ↦ none
          | some u ↦ elim (members f d u) [ none ↦ none | some (m, v) ↦ some (field k j m, v) ]
        ]
      ]
    ]
  ]

  pub elements : ℕ → ℕ → Bytes → Option (Items × Bytes)
  elements zero d s = none
  elements (suc f) d s = elim (value f d s) [
    | none ↦ none
    | some (j, t) ↦ elim (first_is b']' t) [
      | some u ↦ some (cons j nil, u)
      | none ↦ elim (first_is b',' t) [
        | none ↦ none
        | some u ↦ elim (elements f d u) [ none ↦ none | some (m, v) ↦ some (cons j m, v) ]
      ]
    ]
  ]

abbrev pub max_depth : ℕ
max_depth = 10000

-- A whole text: one value, with nothing but white space behind it.
unfoldable pub parse_json : Bytes → Option Json
unfolding value skip_space
parse_json s = elim (value (length s + 1) max_depth s) [
  | none ↦ none
  | some (j, r) ↦ elim (skip_space r) [ [] ↦ some j | _ ∷ _ ↦ none ]
]

-- The first value of a stream, as `json.Decoder` reads it.
unfoldable pub parse_first : Bytes → Option Json
unfolding value
parse_first s = elim (value (length s + 1) max_depth s) [ none ↦ none | some (j, _) ↦ some j ]

nested :
    parse_json (codes " {\"a\" : [1, -2.5e+3, \"x\\u0041\"], \"b\":{} } ")
    ≡ some (
        obj (
          field
            (codes "a")
            (arr (
              cons
                (num (codes "1"))
                (cons (num (codes "-2.5e+3")) (cons (str (codes "x\\u0041")) nil))))
            (field (codes "b") (obj end) end)))
unfolding parse_json
nested = refl

malformed :
    (parse_json (codes "{\"a\":01}") ≡ none)
    × (parse_json (codes "[1,]") ≡ none)
    × (parse_json (codes "{} x") ≡ none)
    × (parse_json (codes "\"\\q\"") ≡ none)
unfolding parse_json
malformed = (refl, refl, refl, refl)
