-- ===== src/Relay/Tokens/Laws.antt =====
-- cmd/relay-core/server.go and dispatch.go: decimal numbers and hexadecimal digests, read back.
use test_enclave_newapi.Common.{
  ℕ, ℤ, pos, negsuc, zero, suc, ◌+◌, ◌-◌, ◌*◌, ◌/◌, ◌%◌, ◌^◌, ◌<◌, ◌≡◌, ◌≢◌, refl, ap, ◌∙◌, inl,
  inr, [], ◌∷◌, some, if◌then◌else◌, ◌==◌, ==_iff, neg64, two63, two64, IsInt64, sub_ℕ, arith,
  Bool-cases, All,
}
use test_enclave_newapi.Text.{Bytes}
use test_enclave_newapi.Url.Percent.{hex_value}
use test_enclave_newapi.Verify.{hex_decode}
use test_enclave_newapi.Verify.Comparison.{IsByte}
use test_enclave_newapi.Relay.Tokens.{digits_of, itoa64, hex_encode, hex_char}

-- The number that decimal digits stand for, behind those read into `a`.
abbrev pub read_digits : ℕ → Bytes → ℕ
read_digits a [] = a
read_digits a (c ∷ s) = read_digits (a * 10 + (c - b'0')) s

-- The number that a text stands for, where `-` gives a negative one.
abbrev pub read_int : Bytes → ℤ
read_int [] = pos 0
read_int (c ∷ s) = if c == b'-' then sub_ℕ 0 (read_digits 0 s) else pos (read_digits 0 (c ∷ s))

digits_of-read :
    (n i : ℕ) (out : Bytes) → i < 10 ^ n → read_digits 0 (digits_of n i out) ≡ read_digits i out
unfolding digits_of
digits_of-read zero i out h = ap (λ t. read_digits t out) (omega (arith, h))
digits_of-read (suc n) i out h = elim (Bool-cases (i == 0)) [
  | inl y ↦ rw (y, digits_of) (ground arith)
  | inr f ↦
      rw (f, digits_of)
        (digits_of-read n (i / 10) ((b'0' + i % 10) ∷ out) (omega (arith, h))
          ∙ ap (λ t. read_digits t out) (omega arith))
]

hex_char-value : (h : ℕ) → h < 16 → hex_value (hex_char h) ≡ some h
unfolding hex_value
hex_char-value h b = ground arith

-- Hexadecimal text decodes to the bytes that it was made from.
pub hex_decode-hex_encode : (s : Bytes) → All IsByte s → hex_decode (hex_encode s) ≡ some s
unfolding hex_decode hex_encode
hex_decode-hex_encode [] h = refl
hex_decode-hex_encode (c ∷ s) (b, h) =
    rw
      (
        hex_char-value (c / 16) (omega (arith, b)),
        hex_char-value (c % 16) (omega (arith, b)),
        hex_decode-hex_encode s h,
        hex_decode,
      )
      (ap (λ x. some (x ∷ s)) (omega arith))

digits_of-not-minus :
    (n i c : ℕ) (out : Bytes)
    → c ≢ b'-'
    → read_int (digits_of n i (c ∷ out)) ≡ pos (read_digits 0 (digits_of n i (c ∷ out)))
unfolding digits_of
digits_of-not-minus zero i c out h = ground arith
digits_of-not-minus (suc n) i c out h = elim (Bool-cases (i == 0)) [
  | inl y ↦ rw (y, digits_of) (ground arith)
  | inr f ↦
      rw (f, digits_of) (digits_of-not-minus n (i / 10) (b'0' + i % 10) (c ∷ out) (omega arith))
]

digits_of-read_int : (n i : ℕ) → i < 10 ^ suc n → i ≢ 0 → read_int (digits_of (suc n) i []) ≡ pos i
unfolding digits_of
digits_of-read_int n i b h = elim (Bool-cases (i == 0)) [
  | inl y ↦ absurd (h ((==_iff i 0).0 y))
  | inr f ↦
      rw (f, digits_of)
        (digits_of-not-minus n (i / 10) (b'0' + i % 10) [] (omega arith)
          ∙ ap pos
              (digits_of-read n (i / 10) ((b'0' + i % 10) ∷ []) (omega (arith, b)) ∙ omega arith))
]

-- The value of a number below 2 ^ 64 is in its 20 digits.
digits-value : (i : ℕ) → i < two64 → read_digits 0 (digits_of 20 i []) ≡ i
digits-value i b = digits_of-read 20 i [] (omega (arith, b))

neg64_negsuc : (n : ℕ) → n < two63 - 1 → neg64 (negsuc n) ≡ pos (suc n)
neg64_negsuc n h = ground arith

sub_zero : (n : ℕ) → sub_ℕ 0 (suc n) ≡ negsuc n
sub_zero n = ground arith

above_least : (n : ℕ) → n < two63 → negsuc n ≢ negsuc (two63 - 1) → n < two63 - 1
above_least n h k = elim (Bool-cases (n == two63 - 1)) [
  | inl y ↦ absurd (k (ap negsuc ((==_iff n (two63 - 1)).0 y)))
  | inr f ↦ ground arith
]

-- The decimal text of a 64-bit integer reads back as this integer, but for the least one, whose
-- text is a minus sign alone.
pub itoa64-read : (a : ℤ) → IsInt64 a → a ≢ negsuc (two63 - 1) → read_int (itoa64 a) ≡ a
unfolding itoa64
itoa64-read (pos zero) h k = refl
itoa64-read (pos (suc n)) h k = digits_of-read_int 19 (suc n) (omega (arith, h)) (omega arith)
itoa64-read (negsuc n) h k =
    let b = above_least n h k in
    rw (neg64_negsuc n b)
      (ap (λ i. sub_ℕ 0 i) (digits-value (suc n) (omega (arith, b))) ∙ sub_zero n)
