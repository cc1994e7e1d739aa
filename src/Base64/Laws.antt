-- ===== src/Base64/Laws.antt =====
-- `encoding/base64`: encoded bytes are read back, and what an encoded text is made of.
use test_enclave_newapi.Common.{
  ℕ, ◌+◌, ◌*◌, ◌/◌, ◌%◌, ◌<◌, ◌≡◌, ◌≢◌, refl, ap, [], ◌∷◌, ◌++◌, some, arith, All, All-map, map,
  append-nil, ◌⊎◌, length, Bool-cases, inl, inr, ◌==◌,
}
use test_enclave_newapi.Text.{Bytes, before}
use test_enclave_newapi.Text.Laws.{Lacks}
use test_enclave_newapi.Text.Cuts.{before-append, before_of_Lacks}
use test_enclave_newapi.Verify.Comparison.{IsByte}
use test_enclave_newapi.Base64.{
  Alphabet, standard, url, character, encode_raw, encode_std, padding, value_of, values, regroup,
  decode,
}

-- The values of six bits that an encoding writes.
abbrev sextets : Bytes → Bytes
sextets [] = []
sextets (x ∷ []) = x / 4 ∷ x % 4 * 16 ∷ []
sextets (x ∷ y ∷ []) = x / 4 ∷ (x % 4 * 16 + y / 16) ∷ y % 16 * 4 ∷ []
sextets (x ∷ y ∷ z ∷ s) = x / 4 ∷ (x % 4 * 16 + y / 16) ∷ (y % 16 * 4 + z / 64) ∷ z % 64 ∷ sextets s

encode_raw-map : (a : Alphabet) (s : Bytes) → encode_raw a s ≡ map (character a) (sextets s)
unfolding encode_raw
encode_raw-map a [] = refl
encode_raw-map a (x ∷ []) = refl
encode_raw-map a (x ∷ y ∷ []) = refl
encode_raw-map a (x ∷ y ∷ z ∷ s) = rw (encode_raw-map a s) refl

abbrev IsSextet : ℕ → Type 0
IsSextet v = v < 64

sextets-IsSextet : (s : Bytes) → All IsByte s → All IsSextet (sextets s)
sextets-IsSextet [] h = tt
sextets-IsSextet (x ∷ []) (p, h) = (omega (arith, p), (omega (arith, p), tt))
sextets-IsSextet (x ∷ y ∷ []) (p, (q, h)) =
    (omega (arith, p), (omega (arith, p, q), (omega (arith, q), tt)))
sextets-IsSextet (x ∷ y ∷ z ∷ s) (p, (q, (r, h))) = (
  omega (arith, p),
  (omega (arith, p, q), (omega (arith, q, r), (omega (arith, r), sextets-IsSextet s h))),
)

regroup-sextets : (s : Bytes) → All IsByte s → regroup (sextets s) ≡ some s
unfolding regroup
regroup-sextets [] h = refl
regroup-sextets (x ∷ []) (p, h) =
    let a : x / 4 * 4 + x % 4 * 16 / 16 ≡ x = omega (arith, p) in ap (λ n. some (n ∷ [])) a
regroup-sextets (x ∷ y ∷ []) (p, (q, h)) =
    let a : x / 4 * 4 + (x % 4 * 16 + y / 16) / 16 ≡ x = omega (arith, p, q) in
    let b : (x % 4 * 16 + y / 16) % 16 * 16 + y % 16 * 4 / 4 ≡ y = omega (arith, p, q) in
    rw (a, b) refl
regroup-sextets (x ∷ y ∷ z ∷ s) (p, (q, (r, h))) =
    let a : x / 4 * 4 + (x % 4 * 16 + y / 16) / 16 ≡ x = omega (arith, p, q) in
    let b : (x % 4 * 16 + y / 16) % 16 * 16 + (y % 16 * 4 + z / 64) / 4 ≡ y =
      omega (arith, p, q, r) in
    let c : (y % 16 * 4 + z / 64) % 4 * 64 + z % 64 ≡ z = omega (arith, q, r) in
    rw (regroup-sextets s h, a, b, c) refl

value_of-character : (a : Alphabet) (v : ℕ) → v < 64 → value_of a (character a v) ≡ some v
unfolding value_of
value_of-character standard v h = ground arith
value_of-character url v h = ground arith

values-map :
    (a : Alphabet) (vs : Bytes) → All IsSextet vs → values a (map (character a) vs) ≡ some vs
unfolding values
values-map a [] h = refl
values-map a (v ∷ vs) (p, h) = rw (value_of-character a v p, values-map a vs h, values) refl

-- What every character of an alphabet has, every character of an encoded text has.
pub All-encode_raw :
    (P : ℕ → Type 0) (a : Alphabet)
    → ((v : ℕ) → P (character a v))
    → (s : Bytes) → All P (encode_raw a s)
All-encode_raw P a h s = rw (encode_raw-map a s) (All-map P (character a) h (sextets s))

character-not-pad : (a : Alphabet) (v : ℕ) → character a v ≢ b'='
character-not-pad standard v = ground arith
character-not-pad url v = ground arith

encode_raw-Lacks_pad : (a : Alphabet) (s : Bytes) → Lacks b'=' (encode_raw a s)
encode_raw-Lacks_pad a s = All-encode_raw (λ c. c ≢ b'=') a (character-not-pad a) s

decode_of_raw :
    (a : Alphabet) (s t : Bytes)
    → All IsByte s
    → before t b'=' ≡ encode_raw a s
    → decode a t ≡ some s
unfolding decode
decode_of_raw a s t h e =
    rw (e, encode_raw-map a s, values-map a (sextets s) (sextets-IsSextet s h), decode)
      (regroup-sextets s h)

-- An unpadded text is read back.
pub decode-encode_raw :
    (a : Alphabet) (s : Bytes) → All IsByte s → decode a (encode_raw a s) ≡ some s
decode-encode_raw a s h =
    decode_of_raw a s (encode_raw a s) h
      (before_of_Lacks (encode_raw a s) b'=' (encode_raw-Lacks_pad a s))

padding-cases : (n : ℕ) → (padding n ≡ []) ⊎ ((r : Bytes) × (padding n ≡ b'=' ∷ r))
padding-cases n = elim (Bool-cases (n % 3 == 1)) [
  | inl y ↦ inr (b'=' ∷ [], rw y refl)
  | inr f ↦ elim (Bool-cases (n % 3 == 2)) [
    | inl y ↦ inr ([], rw (f, y) refl)
    | inr g ↦ inl (rw (f, g) refl)
  ]
]

before-padding : (s : Bytes) (n : ℕ) → Lacks b'=' s → before (s ++ padding n) b'=' ≡ s
before-padding s n h = elim (padding-cases n) [
  | inl e ↦ rw (e, append-nil s) (before_of_Lacks s b'=' h)
  | inr (r, e) ↦ rw e (before-append s r b'=' h)
]

-- A padded text is read back.
pub decode-encode_std : (s : Bytes) → All IsByte s → decode standard (encode_std s) ≡ some s
unfolding encode_std
decode-encode_std s h =
    let l = encode_raw-Lacks_pad standard s in
    decode_of_raw standard s (encode_std s) h (before-padding (encode_raw standard s) (length s) l)
