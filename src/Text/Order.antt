-- ===== src/Text/Order.antt =====
-- The order of byte strings is total.
use test_enclave_newapi.Common.{
  ◌≡◌, refl, ap, ◌∙◌, inl, inr, true, false, [], ◌∷◌, arith, ==_self, Bool-cases,
}
use test_enclave_newapi.Text.{Bytes, str_eq, str_lt}
use test_enclave_newapi.Text.Laws.{eq_of_str_eq, str_eq_refl}

pub str_lt_irrefl : (s : Bytes) → str_lt s s ≡ false
unfolding str_lt
str_lt_irrefl [] = refl
str_lt_irrefl (c ∷ s) = rw (==_self c, str_lt_irrefl s) (ground arith)

pub str_lt_trans : (s t u : Bytes) → str_lt s t ≡ true → str_lt t u ≡ true → str_lt s u ≡ true
unfolding str_lt
str_lt_trans [] [] [] h k = absurd (cc h)
str_lt_trans [] (d ∷ t) [] h k = absurd (cc k)
str_lt_trans [] t (e ∷ u) h k = refl
str_lt_trans (c ∷ s) [] u h k = absurd (cc h)
str_lt_trans (c ∷ s) (d ∷ t) [] h k = absurd (cc k)
str_lt_trans (c ∷ s) (d ∷ t) (e ∷ u) h k =
    let ih = str_lt_trans s t u in
    elim (Bool-cases (str_lt s t)) [
      | inl a ↦ elim (Bool-cases (str_lt t u)) [
        | inl b ↦ let i = ih a b in ground (arith, h, k, i)
        | inr b ↦ ground (arith, h, k, b)
      ]
      | inr a ↦ ground (arith, h, k, a)
    ]

pub str_lt_total : (s t : Bytes) → str_lt s t ≡ false → str_lt t s ≡ false → s ≡ t
unfolding str_lt
str_lt_total [] [] h k = refl
str_lt_total [] (d ∷ t) h k = absurd (cc h)
str_lt_total (c ∷ s) [] h k = absurd (cc k)
str_lt_total (c ∷ s) (d ∷ t) h k =
    let e : c ≡ d = ground (arith, h, k) in
    let p : str_lt s t ≡ false = ground (arith, h, e) in
    let q : str_lt t s ≡ false = ground (arith, k, e) in
    ap (λ x. x ∷ s) e ∙ ap (λ x. d ∷ x) (str_lt_total s t p q)

pub str_lt-differ : (s t : Bytes) → str_lt s t ≡ true → str_eq s t ≡ false
str_lt-differ s t h = elim (Bool-cases (str_eq s t)) [
  | inr n ↦ n
  | inl y ↦ absurd (cc (rw (eq_of_str_eq s t y) at h, str_lt_irrefl t))
]

pub str_eq_sym : (s t : Bytes) → str_eq s t ≡ false → str_eq t s ≡ false
str_eq_sym s t h = elim (Bool-cases (str_eq t s)) [
  | inr n ↦ n
  | inl y ↦ absurd (cc (rw (eq_of_str_eq t s y) at h, str_eq_refl s))
]
