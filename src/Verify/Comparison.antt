-- ===== src/Verify/Comparison.antt =====
-- `bytesEqual` of cmd/relay-verify decides equality. Facts about single bytes are checked for all
-- values.
use Prim.Native.Nat.{bit_or, bit_xor}
use test_enclave_newapi.Common.{
  ℕ, zero, suc, ◌<◌, ◌≡◌, refl, ◌↔◌, Bool, true, ◌&&◌, [], ◌∷◌, arith, ltb, ◌==◌, ==_iff, ==_self,
  if◌then◌else◌, length, all, All, and-eq-true, Bool-cases, inl, inr,
}
use test_enclave_newapi.Text.{Bytes}
use test_enclave_newapi.Verify.{differences, bytes_equal}

abbrev pub IsByte : ℕ → Type 0
IsByte c = c < 256

-- The numbers below a bound, the greatest first.
numbers_below : ℕ → Bytes
numbers_below zero = []
numbers_below (suc n) = n ∷ numbers_below n

checked_number :
    (test : ℕ → Bool) (bound c : ℕ)
    → c < bound
    → all test (numbers_below bound) ≡ true
    → test c ≡ true
unfolding numbers_below
checked_number test zero c lt e = absurd (omega (arith, lt))
checked_number test (suc n) c lt e =
    let (top, rest) = and-eq-true (test n) (all test (numbers_below n)) e in
    elim (Bool-cases (c == n)) [
      | inl y ↦ rw ((==_iff c n).0 y) top
      | inr f ↦ checked_number test n c (ground arith) rest
    ]

-- What the proof needs of two bytes.
abbrev pair_test : ℕ → ℕ → Bool
pair_test x y =
    (if bit_xor x y == 0 then x == y else ltb (bit_xor x y) 256)
    && (if bit_or x y == 0 then x == 0 && y == 0 else ltb (bit_or x y) 256)

pair_table : all (λ x. all (λ y. pair_test x y) (numbers_below 256)) (numbers_below 256) ≡ true
unfolding numbers_below
pair_table = refl

pair_lem : (x y : ℕ) → x < 256 → y < 256 → pair_test x y ≡ true
pair_lem x y h k =
    checked_number (pair_test x) 256 y k
      (checked_number (λ x. all (λ y. pair_test x y) (numbers_below 256)) 256 x h pair_table)

self_table : all (λ x. bit_xor x x == 0) (numbers_below 256) ≡ true
unfolding numbers_below
self_table = refl

xor_self : (x : ℕ) → x < 256 → bit_xor x x ≡ 0
xor_self x h =
    (==_iff (bit_xor x x) 0).0 (checked_number (λ x. bit_xor x x == 0) 256 x h self_table)

xor_lt : (x y : ℕ) → x < 256 → y < 256 → bit_xor x y < 256
xor_lt x y h k = ground (arith, pair_lem x y h k)

eq_of_xor : (x y : ℕ) → x < 256 → y < 256 → bit_xor x y ≡ 0 → x ≡ y
eq_of_xor x y h k e = ground (arith, pair_lem x y h k)

or_lt : (x y : ℕ) → x < 256 → y < 256 → bit_or x y < 256
or_lt x y h k = ground (arith, pair_lem x y h k)

zero_of_or : (x y : ℕ) → x < 256 → y < 256 → bit_or x y ≡ 0 → (x ≡ 0) × (y ≡ 0)
zero_of_or x y h k e = ground (arith, pair_lem x y h k)

differences_zero :
    (diff : ℕ) (a b : Bytes)
    → diff < 256
    → All IsByte a
    → All IsByte b
    → length a ≡ length b
    → differences diff a b ≡ 0
    → (diff ≡ 0) × (a ≡ b)
unfolding differences
differences_zero diff [] [] h p q e z = (z, refl)
differences_zero diff [] (d ∷ b) h p q e z = absurd (omega arith)
differences_zero diff (c ∷ a) [] h p q e z = absurd (omega arith)
differences_zero diff (c ∷ a) (d ∷ b) h (pc, p) (pd, q) e z =
    let (o, t) =
      differences_zero (bit_or diff (bit_xor c d)) a b
        (or_lt diff (bit_xor c d) h (xor_lt c d pc pd)) p q (omega arith) z in
    let (u, v) = zero_of_or diff (bit_xor c d) h (xor_lt c d pc pd) o in
    (u, cc (eq_of_xor c d pc pd v, t))

differences_self : (a : Bytes) → All IsByte a → differences 0 a a ≡ 0
unfolding differences
differences_self [] p = refl
differences_self (c ∷ a) (pc, p) = rw (xor_self c pc) (differences_self a p)

-- The comparison, which collects differences instead of stopping at one, decides equality. The
-- condition is that both texts consist of bytes.
pub bytes_equal_iff :
    (a b : Bytes) → All IsByte a → All IsByte b → (bytes_equal a b ≡ true) ↔ (a ≡ b)
unfolding bytes_equal
bytes_equal_iff a b p q = (
  λ h. elim (Bool-cases (length a == length b)) [
    | inl e ↦
        (differences_zero 0 a b (omega arith) p q ((==_iff _ _).0 e)
          ((==_iff _ 0).0 (equal_part e h))).1
    | inr e ↦ absurd (cc (rw (e, bytes_equal) at h))
  ],
  λ e. rw (← e) (rw (==_self (length a), differences_self a p)),
)
  where
    equal_part :
        (length a == length b) ≡ true → bytes_equal a b ≡ true → (differences 0 a b == 0) ≡ true
    equal_part e h = rw (e, bytes_equal) at h
