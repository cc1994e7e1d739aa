-- ===== src/Official/SigV4/Encoding.antt =====
-- pkg/officialurls/sigv4.go, `awsURIEncode`: the encoding can be read back, and is safe in a URL.
use test_enclave_newapi.Common.{
  ℕ, ◌+◌, ◌*◌, ◌/◌, ◌%◌, ◌<◌, ◌≡◌, refl, ap, ◌∙◌, inl, inr, Bool, true, false, not, ◌&&◌, ◌||◌, [],
  ◌∷◌, ◌++◌, Option, some, arith, ◌==◌, Bool-cases, All,
}
use test_enclave_newapi.Text.{Bytes}
use test_enclave_newapi.Url.Percent.{upper_hex, hex_value, other, push, decode, refused, unescape}
use test_enclave_newapi.Official.SigV4.{is_unreserved, encode_byte, aws_uri_encode}
use test_enclave_newapi.Verify.Comparison.{IsByte}

pub upper_hex-value : (h : ℕ) → h < 16 → hex_value (upper_hex h) ≡ some h
unfolding hex_value
upper_hex-value h b = ground arith

pub unescape-plain :
    (c : ℕ) (s : Bytes) → (c == b'%') ≡ false → unescape other (c ∷ s) ≡ push c (unescape other s)
unfolding unescape refused
unescape-plain c [] h = rw (h, unescape) refl
unescape-plain c (d ∷ []) h = rw (h, unescape) refl
unescape-plain c (d ∷ e ∷ s) h = rw (h, unescape) refl

decoded :
    (d e h l : ℕ) (rest : Option Bytes)
    → hex_value d ≡ some h
    → hex_value e ≡ some l
    → decode other d e rest ≡ push (h * 16 + l) rest
unfolding decode
decoded d e h l rest p q = rw (p, q, decode) refl

pub unescape-triple :
    (c : ℕ) (s : Bytes)
    → IsByte c
    → unescape other (b'%' ∷ upper_hex (c / 16) ∷ upper_hex (c % 16) ∷ s)
      ≡ push c (unescape other s)
unfolding unescape
unescape-triple c s b =
    decoded (upper_hex (c / 16)) (upper_hex (c % 16)) (c / 16) (c % 16) (unescape other s)
      (upper_hex-value (c / 16) (omega (arith, b))) (upper_hex-value (c % 16) (omega (arith, b)))
    ∙ ap (λ n. push n (unescape other s)) (omega arith)

unreserved-not-percent : (c : ℕ) → is_unreserved c ≡ true → (c == b'%') ≡ false
unfolding is_unreserved
unreserved-not-percent c h = ground arith

-- One encoded byte is read back.
unescape-encode_byte :
    (slash : Bool) (c : ℕ) (s : Bytes)
    → IsByte c
    → unescape other (encode_byte slash c ++ s) ≡ push c (unescape other s)
unfolding encode_byte
unescape-encode_byte slash c s b = elim (Bool-cases (is_unreserved c)) [
  | inl y ↦ rw (y, encode_byte) (unescape-plain c s (unreserved-not-percent c y))
  | inr n ↦ elim (Bool-cases (c == b'/' && not slash)) [
    | inl y ↦ rw (n, y, encode_byte) (unescape-plain c s (ground arith))
    | inr m ↦ rw (n, m, encode_byte) (unescape-triple c s b)
  ]
]

-- The encoding of a byte string, with or without the slash, decodes to the byte string.
pub unescape-aws_uri_encode :
    (s : Bytes) (slash : Bool) → All IsByte s → unescape other (aws_uri_encode s slash) ≡ some s
unfolding aws_uri_encode unescape
unescape-aws_uri_encode [] slash h = refl
unescape-aws_uri_encode (c ∷ s) slash (b, h) =
    unescape-encode_byte slash c (aws_uri_encode s slash) b
    ∙ ap (push c) (unescape-aws_uri_encode s slash h)

-- What may stand in a signed path or query.
abbrev pub Safe : Bool → ℕ → Type 0
Safe slash c = (is_unreserved c || c == b'%' || (c == b'/' && not slash)) ≡ true
