-- ===== src/Base64.antt =====
-- `encoding/base64`: the encodings that the program uses, standard with padding and URL without.
pub mod Laws
use test_enclave_newapi.Common.{
  ℕ, ◌+◌, ◌-◌, ◌*◌, ◌/◌, ◌%◌, ◌≡◌, refl, Bool, [], ◌∷◌, ◌++◌, Option, none, some, ltb, leb, ◌==◌,
  if◌then◌else◌, length,
}
use test_enclave_newapi.Text.{Bytes, codes, before, is_upper_byte, is_lower_byte, is_digit_byte}

-- The two alphabets differ in their last two characters.
pub data Alphabet : Type 0 where
  standard url : Alphabet

abbrev pub plus_of : Alphabet → ℕ
plus_of standard = b'+'
plus_of url = b'-'

abbrev pub slash_of : Alphabet → ℕ
slash_of standard = b'/'
slash_of url = b'_'

abbrev pub character : Alphabet → ℕ → ℕ
character a v =
    if ltb v 26
    then b'A' + v
    else if ltb v 52
    then b'a' + (v - 26)
    else if ltb v 62
    then b'0' + (v - 52)
    else if v == 62
    then plus_of a
    else slash_of a

-- `RawStdEncoding` and `RawURLEncoding`
unfoldable pub encode_raw : Alphabet → Bytes → Bytes
encode_raw a [] = []
encode_raw a (x ∷ []) = character a (x / 4) ∷ character a (x % 4 * 16) ∷ []
encode_raw a (x ∷ y ∷ []) =
    character a (x / 4) ∷ character a (x % 4 * 16 + y / 16) ∷ character a (y % 16 * 4) ∷ []
encode_raw a (x ∷ y ∷ z ∷ s) =
    character a (x / 4)
    ∷ character a (x % 4 * 16 + y / 16)
    ∷ character a (y % 16 * 4 + z / 64)
    ∷ character a (z % 64)
    ∷ encode_raw a s

-- What fills the last group of four.
abbrev pub padding : ℕ → Bytes
padding n = if n % 3 == 1 then codes "==" else if n % 3 == 2 then codes "=" else []

-- `StdEncoding.EncodeToString`
unfoldable pub encode_std : Bytes → Bytes
unfolding encode_raw
encode_std s = encode_raw standard s ++ padding (length s)

unfoldable pub value_of : Alphabet → ℕ → Option ℕ
value_of a c =
    if is_upper_byte c
    then some (c - b'A')
    else if is_lower_byte c
    then some (c - b'a' + 26)
    else if is_digit_byte c
    then some (c - b'0' + 52)
    else if c == plus_of a
    then some 62
    else if c == slash_of a
    then some 63
    else none

-- The values of all characters.
unfoldable pub values : Alphabet → Bytes → Option Bytes
unfolding value_of
values a [] = some []
values a (c ∷ s) = elim (value_of a c) [
  | none ↦ none
  | some v ↦ elim (values a s) [ none ↦ none | some vs ↦ some (v ∷ vs) ]
]

-- The bytes of the values, six bits each; the bits left over are dropped.
unfoldable pub regroup : Bytes → Option Bytes
regroup [] = some []
regroup (a ∷ []) = none
regroup (a ∷ b ∷ []) = some ((a * 4 + b / 16) ∷ [])
regroup (a ∷ b ∷ c ∷ []) = some ((a * 4 + b / 16) ∷ (b % 16 * 16 + c / 4) ∷ [])
regroup (a ∷ b ∷ c ∷ d ∷ s) = elim (regroup s) [
  | none ↦ none
  | some t ↦ some ((a * 4 + b / 16) ∷ (b % 16 * 16 + c / 4) ∷ (c % 4 * 64 + d) ∷ t)
]

-- How a reader takes an encoded text back; padding is not asked for.
unfoldable pub decode : Alphabet → Bytes → Option Bytes
unfolding values regroup
decode a s = elim (values a (before s b'=')) [ none ↦ none | some vs ↦ regroup vs ]

known :
    (encode_std (codes "any carnal") ≡ codes "YW55IGNhcm5hbA==")
    × (encode_raw url (0xfb ∷ 0xff ∷ []) ≡ codes "-_8")
    × (decode standard (codes "+/8=") ≡ some (0xfb ∷ 0xff ∷ []))
unfolding encode_std encode_raw decode before
known = (refl, refl, refl)
