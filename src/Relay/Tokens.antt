-- ===== src/Relay/Tokens.antt =====
-- cmd/relay-core/dispatch.go and server.go: the gateway token, the key file's text, and decimal
-- numbers.
pub mod Laws
use mathlib.Core.List.{reverse}
use test_enclave_newapi.Common.{
  ℕ, ℤ, pos, negsuc, zero, suc, ◌+◌, ◌/◌, ◌%◌, ◌≡◌, refl, Bool, true, false, ◌||◌, List, [], ◌∷◌,
  ◌++◌, Option, none, some, if◌then◌else◌, ◌==◌, length, map, neg64, int_ltb, two63, ltb, ◌-◌,
}
use test_enclave_newapi.Text.{Bytes, codes, trim_prefix, trim_space}
use test_enclave_newapi.Url.Percent.{is_empty}

unfoldable pub bearer_token : Bytes → Bytes
bearer_token auth_header = trim_space (trim_prefix auth_header (codes "Bearer "))

abbrev pub hex_char : ℕ → ℕ
hex_char n = if ltb n 10 then b'0' + n else b'a' + (n - 10)

unfoldable pub hex_encode : Bytes → Bytes
hex_encode [] = []
hex_encode (c ∷ s) = hex_char (c / 16) ∷ hex_char (c % 16) ∷ hex_encode s

-- `sha256` is Go's crypto/sha256.
unfoldable pub hash_token : (Bytes → Bytes) → Bytes → Bytes
hash_token sha256 auth_header =
    if is_empty (bearer_token auth_header)
    then []
    else hex_encode (sha256 (bearer_token auth_header))

abbrev pub is_space : ℕ → Bool
is_space b = b == b' ' || b == b'\t' || b == b'\n' || b == b'\r'

unfoldable pub drop_spaces : Bytes → Bytes
drop_spaces [] = []
drop_spaces (c ∷ s) = if is_space c then drop_spaces s else c ∷ s

-- `trimSpace`: the bounds of the two loops, as texts.
unfoldable pub trim_ascii_space : Bytes → Bytes
unfolding drop_spaces
trim_ascii_space s = reverse (drop_spaces (reverse (drop_spaces s)))

-- `fileKeyStore.KeyFor`: the file's text where it can be read, and the variable's value.
unfoldable pub key_for : Option Bytes → Bytes → Option Bytes
unfolding trim_ascii_space
key_for file variable =
    let fallback : Option Bytes = if is_empty variable then none else some variable in
    elim file [
      | none ↦ fallback
      | some text ↦
          if is_empty (trim_ascii_space text) then fallback else some (trim_ascii_space text)
    ]

-- The loop of `itoa64`, which writes in front of `out`; the fuel bounds the number of digits.
unfoldable pub digits_of : ℕ → ℕ → Bytes → Bytes
digits_of zero i out = out
digits_of (suc n) i out = elim (i == 0) [
  | true ↦ out
  | false ↦ digits_of n (i / 10) ((b'0' + i % 10) ∷ out)
]

-- The loop runs while `i > 0`, so it writes nothing for a negative `i`.
unfoldable pub digits_of_int : ℤ → Bytes
unfolding digits_of
digits_of_int (pos i) = digits_of 20 i []
digits_of_int (negsuc i) = []

unfoldable pub itoa64 : ℤ → Bytes
unfolding digits_of_int
itoa64 (pos zero) = codes "0"
itoa64 (pos (suc n)) = digits_of_int (pos (suc n))
itoa64 (negsuc n) = b'-' ∷ digits_of_int (neg64 (negsuc n))

tokens :
    (bearer_token (codes "Bearer  sk-1 ") ≡ codes "sk-1")
    × (hex_encode (0xab ∷ 7 ∷ []) ≡ codes "ab07")
unfolding bearer_token trim_space trim_prefix hex_encode
tokens = (refl, refl)

numbers :
    (itoa64 (pos 1203) ≡ codes "1203")
    × (itoa64 (negsuc 41) ≡ codes "-42")
    × (itoa64 (negsuc (two63 - 1)) ≡ codes "-")
unfolding itoa64
numbers = (refl, refl, refl)
