-- ===== src/Url/Percent.antt =====
-- Percent encoding in `net/url`.
use test_enclave_newapi.Common.{
  ℕ, ◌+◌, ◌-◌, ◌*◌, Bool, true, false, not, ◌&&◌, ◌||◌, [], ◌∷◌, Option, none, some, ltb, leb, ◌==◌,
  if◌then◌else◌, any,
}
use test_enclave_newapi.Text.{Bytes, codes, is_upper_byte, is_lower_byte, is_digit_byte}

-- Which part of a URL is decoded; paths, fragments and user information follow one rule.
pub data Mode : Type 0 where
  host zone other : Mode

abbrev pub is_alnum : ℕ → Bool
is_alnum c = is_lower_byte c || is_upper_byte c || is_digit_byte c

abbrev pub one_of : Bytes → ℕ → Bool
one_of s c = any (λ d. c == d) s

-- `shouldEscape(c, encodeHost)`
unfoldable pub should_escape_host : ℕ → Bool
should_escape_host c =
    not (is_alnum c || one_of (codes "!$&'()*+,;=:[]<>\"") c || one_of (codes "-_.~") c)

unfoldable pub hex_value : ℕ → Option ℕ
hex_value c =
    if is_digit_byte c
    then some (c - b'0')
    else if leb b'a' c && leb c b'f'
    then some (c - b'a' + 10)
    else if leb b'A' c && leb c b'F'
    then some (c - b'A' + 10)
    else none

-- The digits that encoding writes.
abbrev pub upper_hex : ℕ → ℕ
upper_hex n = if ltb n 10 then b'0' + n else b'A' + (n - 10)

abbrev pub is_empty : Bytes → Bool
is_empty [] = true
is_empty (_ ∷ _) = false

abbrev pub push : ℕ → Option Bytes → Option Bytes
push c none = none
push c (some s) = some (c ∷ s)

unfoldable pub refused : Mode → ℕ → Bool
unfolding should_escape_host
refused other c = false
refused _ c = ltb c 0x80 && should_escape_host c

-- `%de`: in a host only bytes outside ASCII may be encoded, and `%25`; in a zone also a space and
-- what needs no encoding.
unfoldable pub decode : Mode → ℕ → ℕ → Option Bytes → Option Bytes
unfolding hex_value should_escape_host
decode m d e rest = elim (hex_value d) [
  | none ↦ none
  | some h ↦ elim (hex_value e) [
    | none ↦ none
    | some l ↦ elim m [
      | other ↦ push (h * 16 + l) rest
      | host ↦ if ltb h 8 && not (d == b'2' && e == b'5') then none else push (h * 16 + l) rest
      | zone ↦
          if not (d == b'2' && e == b'5')
            && not (h * 16 + l == 0x20)
            && should_escape_host (h * 16 + l)
          then none
          else push (h * 16 + l) rest
    ]
  ]
]

unfoldable pub unescape : Mode → Bytes → Option Bytes
unfolding refused decode
unescape m [] = some []
unescape m (c ∷ []) = if c == b'%' || refused m c then none else some (c ∷ [])
unescape m (c ∷ d ∷ []) = elim (c == b'%' || refused m c) [
  | true ↦ none
  | false ↦ push c (unescape m (d ∷ []))
]
unescape m (c ∷ d ∷ e ∷ s) = elim (c == b'%') [
  | true ↦ decode m d e (unescape m s)
  | false ↦ elim (refused m c) [ true ↦ none | false ↦ push c (unescape m (d ∷ e ∷ s)) ]
]
