-- ===== src/Text.antt =====
-- The functions of Go's `strings` and `bytes` packages that the program calls, over byte strings.
-- A Go string is a list of bytes; `codes` gives the bytes of an ASCII literal.
pub mod Laws
pub mod Cuts
pub mod Trim
pub mod Order
use Prim.Native.Char.{code}
use mathlib.Core.List.{reverse}
use test_enclave_newapi.Common.{
  ℕ, ◌≡◌, refl, ◌+◌, ◌-◌, String, Bool, true, false, ◌&&◌, ◌||◌, List, [], ◌∷◌, ◌++◌, Option, none,
  some, ltb, leb, ◌==◌, if◌then◌else◌, length, drop, any,
}

abbrev pub Bytes : Type 0
Bytes = List ℕ

abbrev pub codes : String → Bytes
codes String.[] = []
codes (String.◌∷◌ c s) = code c ∷ codes s

-- `a == b` on strings.
unfoldable pub str_eq : Bytes → Bytes → Bool
str_eq [] [] = true
str_eq [] (d ∷ t) = false
str_eq (c ∷ s) [] = false
str_eq (c ∷ s) (d ∷ t) = c == d && str_eq s t

-- `a < b` on strings: byte by byte.
unfoldable pub str_lt : Bytes → Bytes → Bool
str_lt [] [] = false
str_lt [] (d ∷ t) = true
str_lt (c ∷ s) [] = false
str_lt (c ∷ s) (d ∷ t) = ltb c d || (c == d && str_lt s t)

unfoldable pub has_prefix : Bytes → Bytes → Bool
has_prefix s [] = true
has_prefix [] (d ∷ p) = false
has_prefix (c ∷ s) (d ∷ p) = c == d && has_prefix s p

unfoldable pub has_suffix : Bytes → Bytes → Bool
unfolding str_eq
has_suffix s t = leb (length t) (length s) && str_eq (drop (length s - length t) s) t

unfoldable pub contains : Bytes → Bytes → Bool
unfolding has_prefix
contains [] t = has_prefix [] t
contains (c ∷ s) t = has_prefix (c ∷ s) t || contains s t

unfoldable pub trim_prefix : Bytes → Bytes → Bytes
unfolding has_prefix
trim_prefix s p = if has_prefix s p then drop (length p) s else s

unfoldable pub trim_suffix : Bytes → Bytes → Bytes
unfolding has_suffix
trim_suffix s t = if has_suffix s t then reverse (drop (length t) (reverse s)) else s

-- The parts before and after the first byte `b`.
unfoldable pub cut : Bytes → ℕ → Option (Bytes × Bytes)
cut [] b = none
cut (c ∷ s) b =
    if c == b then some ([], s) else elim (cut s b) [ none ↦ none | some (x, y) ↦ some (c ∷ x, y) ]

-- The parts before and after the last byte `b`.
unfoldable pub last_cut : Bytes → ℕ → Option (Bytes × Bytes)
last_cut [] b = none
last_cut (c ∷ s) b = elim (last_cut s b) [
  | some (x, y) ↦ some (c ∷ x, y)
  | none ↦ if c == b then some ([], s) else none
]

-- `before` of `strings.Cut(s, string(b))`, the whole text where `b` does not occur.
unfoldable pub before : Bytes → ℕ → Bytes
before [] b = []
before (c ∷ s) b = if c == b then [] else c ∷ before s b

-- The text from the first `b` on, or nothing.
unfoldable pub from : Bytes → ℕ → Bytes
from [] b = []
from (c ∷ s) b = if c == b then c ∷ s else from s b

-- `strings.Cut(s, t)`: the parts around the first occurrence of `t`.
unfoldable pub cut_str : Bytes → Bytes → Option (Bytes × Bytes)
unfolding has_prefix
cut_str [] t = if has_prefix [] t then some ([], []) else none
cut_str (c ∷ s) t =
    if has_prefix (c ∷ s) t
    then some ([], drop (length t) (c ∷ s))
    else elim (cut_str s t) [ none ↦ none | some (x, y) ↦ some (c ∷ x, y) ]

unfoldable pub split_from : Bytes → ℕ → Bytes → List Bytes
split_from [] b cur = reverse cur ∷ []
split_from (c ∷ s) b cur = elim (c == b) [
  | true ↦ reverse cur ∷ split_from s b []
  | false ↦ split_from s b (c ∷ cur)
]

unfoldable pub split : Bytes → ℕ → List Bytes
unfolding split_from
split s b = split_from s b []

unfoldable pub join : List Bytes → Bytes → Bytes
join [] sep = []
join (p ∷ []) sep = p
join (p ∷ q ∷ ps) sep = p ++ (sep ++ join (q ∷ ps) sep)

-- The UTF-8 forms of the runes that `unicode.IsSpace` accepts.
abbrev pub spaces : List Bytes
spaces =
    (0x09 ∷ [])
    ∷ (0x0a ∷ [])
    ∷ (0x0b ∷ [])
    ∷ (0x0c ∷ [])
    ∷ (0x0d ∷ [])
    ∷ (0x20 ∷ [])
    ∷ (0xc2 ∷ 0x85 ∷ [])
    ∷ (0xc2 ∷ 0xa0 ∷ [])
    ∷ (0xe1 ∷ 0x9a ∷ 0x80 ∷ [])
    ∷ (0xe2 ∷ 0x80 ∷ 0x80 ∷ [])
    ∷ (0xe2 ∷ 0x80 ∷ 0x81 ∷ [])
    ∷ (0xe2 ∷ 0x80 ∷ 0x82 ∷ [])
    ∷ (0xe2 ∷ 0x80 ∷ 0x83 ∷ [])
    ∷ (0xe2 ∷ 0x80 ∷ 0x84 ∷ [])
    ∷ (0xe2 ∷ 0x80 ∷ 0x85 ∷ [])
    ∷ (0xe2 ∷ 0x80 ∷ 0x86 ∷ [])
    ∷ (0xe2 ∷ 0x80 ∷ 0x87 ∷ [])
    ∷ (0xe2 ∷ 0x80 ∷ 0x88 ∷ [])
    ∷ (0xe2 ∷ 0x80 ∷ 0x89 ∷ [])
    ∷ (0xe2 ∷ 0x80 ∷ 0x8a ∷ [])
    ∷ (0xe2 ∷ 0x80 ∷ 0xa8 ∷ [])
    ∷ (0xe2 ∷ 0x80 ∷ 0xa9 ∷ [])
    ∷ (0xe2 ∷ 0x80 ∷ 0xaf ∷ [])
    ∷ (0xe2 ∷ 0x81 ∷ 0x9f ∷ [])
    ∷ (0xe3 ∷ 0x80 ∷ 0x80 ∷ [])
    ∷ []

-- The text without the one of `forms` that it starts with.
unfoldable pub strip_one : List Bytes → Bytes → Option Bytes
unfolding has_prefix
strip_one [] s = none
strip_one (f ∷ fs) s = if has_prefix s f then some (drop (length f) s) else strip_one fs s

-- Each round takes away at least a byte, so the length of the text is enough fuel.
unfoldable pub strip_all : ℕ → List Bytes → Bytes → Bytes
unfolding strip_one
strip_all ℕ.zero fs s = s
strip_all (ℕ.suc n) fs s = elim (strip_one fs s) [ none ↦ s | some r ↦ strip_all n fs r ]

unfoldable pub reverse_each : List Bytes → List Bytes
reverse_each [] = []
reverse_each (f ∷ fs) = reverse f ∷ reverse_each fs

unfoldable pub trim_space : Bytes → Bytes
unfolding strip_all reverse_each
trim_space s =
    let front = strip_all (length s) spaces s in
    reverse (strip_all (length front) (reverse_each spaces) (reverse front))

unfoldable pub drop_while_byte : ℕ → Bytes → Bytes
drop_while_byte b [] = []
drop_while_byte b (c ∷ s) = if c == b then drop_while_byte b s else c ∷ s

-- `strings.TrimRight(s, string(b))`
unfoldable pub trim_right : Bytes → ℕ → Bytes
unfolding drop_while_byte
trim_right s b = reverse (drop_while_byte b (reverse s))

abbrev pub is_upper_byte : ℕ → Bool
is_upper_byte c = leb b'A' c && leb c b'Z'

abbrev pub is_lower_byte : ℕ → Bool
is_lower_byte c = leb b'a' c && leb c b'z'

abbrev pub is_digit_byte : ℕ → Bool
is_digit_byte c = leb b'0' c && leb c b'9'

abbrev pub lower_byte : ℕ → ℕ
lower_byte c = if is_upper_byte c then c + 32 else c

-- `strings.ToLower` on ASCII, and on the two other runes with an ASCII lower case: U+0130 (0xc4 0xb0)
-- and U+212A (0xe2 0x84 0xaa). Other runes have no ASCII lower case, and stay as they are here.
unfoldable pub to_lower : Bytes → Bytes
to_lower [] = []
to_lower (c ∷ []) = lower_byte c ∷ []
to_lower (c ∷ d ∷ []) = elim (c == 0xc4 && d == 0xb0) [
  | true ↦ b'i' ∷ []
  | false ↦ lower_byte c ∷ to_lower (d ∷ [])
]
to_lower (c ∷ d ∷ e ∷ s) = elim (c == 0xc4 && d == 0xb0) [
  | true ↦ b'i' ∷ to_lower (e ∷ s)
  | false ↦ elim (c == 0xe2 && d == 0x84 && e == 0xaa) [
    | true ↦ b'k' ∷ to_lower s
    | false ↦ lower_byte c ∷ to_lower (d ∷ e ∷ s)
  ]
]

trim_space_test : trim_space (codes " \t a b\n") ≡ codes "a b"
unfolding trim_space
trim_space_test = refl

to_lower_test : to_lower (codes "AbC-9Z") ≡ codes "abc-9z"
unfolding to_lower
to_lower_test = refl

split_test : split (codes "a||b") b'|' ≡ codes "a" ∷ [] ∷ codes "b" ∷ []
unfolding split
split_test = refl

suffix_test : has_suffix (codes "x.azure.com") (codes ".azure.com") ≡ true
unfolding has_suffix
suffix_test = refl

trim_right_test : trim_right (codes "a/b//") b'/' ≡ codes "a/b"
unfolding trim_right
trim_right_test = refl

last_cut_test : last_cut (codes "a@b@c") b'@' ≡ some (codes "a@b", codes "c")
unfolding last_cut
last_cut_test = refl
