-- ===== src/Json/Octets.antt =====
-- What is written stays within bytes: string literals and numbers of `encoding/json`.
use test_enclave_newapi.Common.{
  ℕ, zero, suc, ℤ, pos, negsuc, ◌/◌, ◌%◌, ◌<◌, ◌≡◌, inl, inr, Bool, true, false, ◌||◌, ◌&&◌, List,
  [], ◌∷◌, ◌++◌, arith, ◌==◌, ltb, if◌then◌else◌, Bool-cases, All, All-append, all, refl,
  and-eq-true, ltb→lt, take, drop, length,
}
use test_enclave_newapi.Text.{Bytes, codes}
use test_enclave_newapi.Verify.Comparison.{IsByte}
use test_enclave_newapi.Json.Tree.{Json, obj, of_fields}
use test_enclave_newapi.Json.Strings.{
  quote, quote_from, quote_step, hex_digit, byte_at, rune_length,
}
use test_enclave_newapi.Json.Print.{html_safe, html_byte, print, print_fields, string_value}
use test_enclave_newapi.Relay.Tokens.{digits_of}
use test_enclave_newapi.Relay.Bedrock.Encode.{int_text}

abbrev pub AllBytes : Bytes → Type 0
AllBytes = All IsByte

pick : {A : Type 0} (P : A → Type 0) (b : Bool) {x y : A} → P x → P y → P (if b then x else y)
pick P true p q = p
pick P false p q = q

take-AllBytes : (n : ℕ) (s : Bytes) → AllBytes s → AllBytes (take n s)
take-AllBytes zero s h = tt
take-AllBytes (suc n) [] h = tt
take-AllBytes (suc n) (c ∷ s) (b, h) = (b, take-AllBytes n s h)

drop-AllBytes : (n : ℕ) (s : Bytes) → AllBytes s → AllBytes (drop n s)
drop-AllBytes zero s h = h
drop-AllBytes (suc n) [] h = tt
drop-AllBytes (suc n) (c ∷ s) (b, h) = drop-AllBytes n s h

hex_digit-IsByte : (h : ℕ) → h < 16 → IsByte (hex_digit h)
hex_digit-IsByte h b = ground arith

-- A constant text, whose bytes are looked at.
pub constant : (s : Bytes) → all (λ c. ltb c 256) s ≡ true → AllBytes s
constant [] h = tt
constant (c ∷ s) h =
    let (b, r) = and-eq-true (ltb c 256) (all (λ d. ltb d 256) s) h in
    (ltb→lt c 256 b, constant s r)

prefixed : (s t : Bytes) → all (λ c. ltb c 256) s ≡ true → AllBytes t → AllBytes (s ++ t)
prefixed s t h = All-append IsByte s t (constant s h)

abbrev Wrote : Bytes × ℕ → Type 0
Wrote p = AllBytes p.0

quote_step-AllBytes : (c : ℕ) (s : Bytes) → AllBytes (c ∷ s) → AllBytes (quote_step c s).0
unfolding quote_step
quote_step-AllBytes c s (b, h) =
    let n = rune_length (c ∷ s) in
    let self : AllBytes (c ∷ []) = (b, tt) in
    let x = hex_digit-IsByte (c / 16) (omega (arith, b)) in
    let y = hex_digit-IsByte (c % 16) (omega arith) in
    let hex =
      prefixed (codes "\\u00") (hex_digit (c / 16) ∷ hex_digit (c % 16) ∷ []) refl (x, (y, tt)) in
    pick Wrote (c == b'"' || c == b'\\') (omega arith, self)
      (pick Wrote (c == 8) (constant (codes "\\b") refl) (
        pick Wrote (c == 12) (constant (codes "\\f") refl) (
          pick Wrote (c == 10) (constant (codes "\\n") refl) (
            pick Wrote (c == 13) (constant (codes "\\r") refl) (
              pick Wrote (c == 9) (constant (codes "\\t") refl) (
                pick Wrote (ltb c 0x20 || c == b'<' || c == b'>' || c == b'&') hex (
                  pick Wrote (ltb c 0x80) self (
                    pick Wrote (n == 0) (constant (codes "\\ufffd") refl) (
                      pick Wrote (c == 0xe2 && byte_at s 0 == 0x80 && byte_at s 1 == 0xa8)
                        (constant (codes "\\u2028") refl)
                        (pick Wrote (c == 0xe2 && byte_at s 0 == 0x80 && byte_at s 1 == 0xa9)
                          (constant (codes "\\u2029") refl)
                          (take-AllBytes n (c ∷ s) (b, h))))))))))))

quote_from-AllBytes : (n : ℕ) (s : Bytes) → AllBytes s → AllBytes (quote_from n s)
unfolding quote_from
quote_from-AllBytes zero s h = tt
quote_from-AllBytes (suc n) [] h = tt
quote_from-AllBytes (suc n) (c ∷ s) h =
    All-append IsByte (quote_step c s).0 (quote_from n (drop (quote_step c s).1 (c ∷ s)))
      (quote_step-AllBytes c s h)
      (quote_from-AllBytes n (drop (quote_step c s).1 (c ∷ s))
        (drop-AllBytes (quote_step c s).1 (c ∷ s) h))

html_byte-AllBytes : (c : ℕ) → IsByte c → AllBytes (html_byte c)
unfolding html_byte
html_byte-AllBytes c b = pick AllBytes (c == b'<') (constant (codes "\\u003c") refl) (
    pick AllBytes (c == b'>') (constant (codes "\\u003e") refl)
      (pick AllBytes (c == b'&') (constant (codes "\\u0026") refl) (b, tt)))

html_safe-AllBytes : (s : Bytes) → AllBytes s → AllBytes (html_safe s)
unfolding html_safe
html_safe-AllBytes [] h = tt
html_safe-AllBytes (c ∷ []) (b, h) = html_byte-AllBytes c b
html_safe-AllBytes (c ∷ d ∷ []) (b, h) =
    All-append IsByte (html_byte c) _ (html_byte-AllBytes c b) (html_safe-AllBytes (d ∷ []) h)
html_safe-AllBytes (c ∷ d ∷ e ∷ s) (b, (p, (q, h))) =
    let rest = html_safe-AllBytes s h in
    elim (Bool-cases (c == 0xe2 && d == 0x80 && e == 0xa8)) [
      | inl y ↦ rw (y, html_safe) (prefixed (codes "\\u2028") (html_safe s) refl rest)
      | inr n ↦ elim (Bool-cases (c == 0xe2 && d == 0x80 && e == 0xa9)) [
        | inl y ↦ rw (n, y, html_safe) (prefixed (codes "\\u2029") (html_safe s) refl rest)
        | inr m ↦
            rw (n, m, html_safe)
              (All-append IsByte (html_byte c) _ (html_byte-AllBytes c b)
                (html_safe-AllBytes (d ∷ e ∷ s) (p, (q, h))))
      ]
    ]

digits_of-AllBytes : (n i : ℕ) (out : Bytes) → AllBytes out → AllBytes (digits_of n i out)
unfolding digits_of
digits_of-AllBytes zero i out h = h
digits_of-AllBytes (suc n) i out h = elim (Bool-cases (i == 0)) [
  | inl y ↦ rw (y, digits_of) h
  | inr f ↦ rw (f, digits_of) (digits_of-AllBytes n (i / 10) _ (omega arith, h))
]

pub int_text-AllBytes : (n : ℤ) → AllBytes (int_text n)
unfolding int_text
int_text-AllBytes (pos zero) = constant (codes "0") refl
int_text-AllBytes (pos (suc n)) = digits_of-AllBytes 20 (suc n) [] tt
int_text-AllBytes (negsuc n) = (omega arith, digits_of-AllBytes 20 (suc n) [] tt)

-- A text between quotes, as `json.Marshal` writes it.
pub string_value-AllBytes : (s : Bytes) → AllBytes s → AllBytes (print (string_value s))
unfolding print quote
string_value-AllBytes s h =
    let q = html_safe-AllBytes (quote s) (quote_from-AllBytes (length s) s h) in
    (
      omega arith,
      All-append IsByte (html_safe (quote s)) (codes "\"") q (constant (codes "\"") refl),
    )

-- A member of an object whose parts are written within bytes.
abbrev pub IsWritten : Bytes × Json → Type 0
IsWritten p = (all (λ c. ltb c 256) (html_safe p.0) ≡ true) × AllBytes (print p.1)

fields-AllBytes :
    (m : List (Bytes × Json)) → All IsWritten m → AllBytes (print_fields (of_fields m))
unfolding print_fields
fields-AllBytes [] h = tt
fields-AllBytes ((k, j) ∷ []) ((p, q), h) = (
  omega arith,
  All-append IsByte (html_safe k) _ (constant (html_safe k) p)
      (prefixed (codes "\":") (print j) refl q),
)
fields-AllBytes ((k, j) ∷ (l, i) ∷ m) ((p, q), h) =
    let rest = fields-AllBytes ((l, i) ∷ m) h in
    (
      omega arith,
      All-append IsByte (html_safe k) _ (constant (html_safe k) p) (
          prefixed (codes "\":") (print j ++ (b',' ∷ print_fields (of_fields ((l, i) ∷ m)))) refl (
            All-append IsByte (print j) (b',' ∷ print_fields (of_fields ((l, i) ∷ m))) q
              (omega arith, rest))),
    )

-- An object of such members.
pub object-AllBytes :
    (m : List (Bytes × Json)) → All IsWritten m → AllBytes (print (obj (of_fields m)))
unfolding print
object-AllBytes m h = (
  omega arith,
  All-append IsByte (print_fields (of_fields m)) (codes "}") (fields-AllBytes m h)
      (constant (codes "}") refl),
)
