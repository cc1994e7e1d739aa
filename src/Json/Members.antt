-- ===== src/Json/Members.antt =====
-- The scanner of `encoding/json` on objects whose keys and strings have no escapes.
use mathlib.Core.List.{reverse}
use test_enclave_newapi.Common.{
  ℕ, suc, ◌≡◌, refl, sym, ap, ◌∙◌, Bool, true, [], ◌∷◌, ◌++◌, some, append-nil, arith, All, all,
  not, ◌&&◌, ◌==◌, ltb, and-eq-true,
}
use test_enclave_newapi.Text.{Bytes}
use test_enclave_newapi.Text.Laws.{reverse-shift}
use test_enclave_newapi.Json.Tree.{str, Fields, end, field}
use test_enclave_newapi.Json.Scan.{plain, go, str_next, str_run, scan_key, lead, value, members}

-- A byte that stands for itself in a string literal.
abbrev pub IsPlain : ℕ → Type 0
IsPlain c = str_next plain c ≡ go plain

-- The same as a test.
abbrev pub is_plain : ℕ → Bool
is_plain c = not (c == b'"') && not (c == b'\\') && not (ltb c 0x20)

is_plain_sound : (c : ℕ) → is_plain c ≡ true → IsPlain c
is_plain_sound c h = ground arith

-- A text all of whose bytes pass the test.
pub text-IsPlain : (s : Bytes) → all is_plain s ≡ true → All IsPlain s
text-IsPlain [] h = tt
text-IsPlain (c ∷ s) h =
    let (b, r) = and-eq-true (is_plain c) (all is_plain s) h in
    (is_plain_sound c b, text-IsPlain s r)

pub str_run-plain :
    (t acc r : Bytes)
    → All IsPlain t
    → str_run plain acc (t ++ b'"' ∷ r) ≡ some (reverse acc ++ t, r)
unfolding str_run
str_run-plain [] acc r h = ap (λ x. some (x, r)) (sym (append-nil (reverse acc)))
str_run-plain (c ∷ t) acc r (p, h) =
    rw (p, str_run) (str_run-plain t (c ∷ acc) r h ∙ ap (λ x. some (x, r)) (reverse-shift acc c t))

scan_key-plain :
    (k u : Bytes) → All IsPlain k → scan_key (b'"' ∷ (k ++ (b'"' ∷ b':' ∷ u))) ≡ some (k, u)
unfolding scan_key
scan_key-plain k u p = rw (str_run-plain k [] (b':' ∷ u) p, scan_key) refl

value-plain :
    (f d : ℕ) (t u : Bytes)
    → All IsPlain t
    → value (suc f) d (b'"' ∷ (t ++ (b'"' ∷ u))) ≡ some (str t, u)
unfolding value
value-plain f d t u p = rw (str_run-plain t [] u p, value, lead) refl

-- A member that is a string is read, and the next byte shows whether there are more.
pub last_member :
    (f d : ℕ) (k t r : Bytes)
    → All IsPlain k
    → All IsPlain t
    → members (suc (suc f)) d (b'"' ∷ (k ++ (b'"' ∷ b':' ∷ b'"' ∷ (t ++ (b'"' ∷ b'}' ∷ r)))))
      ≡ some (field k (str t) end, r)
unfolding members
last_member f d k t r p q =
    rw
      (
        scan_key-plain k (b'"' ∷ (t ++ (b'"' ∷ b'}' ∷ r))) p,
        value-plain f d t (b'}' ∷ r) q,
        members,
      )
      refl

pub next_member :
    (f d : ℕ) (k t u r : Bytes) (m : Fields)
    → All IsPlain k
    → All IsPlain t
    → members (suc f) d u ≡ some (m, r)
    → members (suc (suc f)) d (b'"' ∷ (k ++ (b'"' ∷ b':' ∷ b'"' ∷ (t ++ (b'"' ∷ b',' ∷ u)))))
      ≡ some (field k (str t) m, r)
unfolding members
next_member f d k t u r m p q h =
    rw
      (
        scan_key-plain k (b'"' ∷ (t ++ (b'"' ∷ b',' ∷ u))) p,
        value-plain f d t (b',' ∷ u) q,
        h,
        members,
      )
      refl
