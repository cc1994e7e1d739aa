-- ===== src/Text/Laws.antt =====
-- What the string tests establish.
use mathlib.Core.List.{reverse, reverse-cons}
use test_enclave_newapi.Common.{
  ℕ, append_assoc, arith, length-append, ◌-◌, ◌≡◌, refl, sym, ap, ◌∙◌, ◌↔◌, ◌≢◌, true, [], ◌∷◌,
  ◌++◌, leb, ◌==◌, ==_iff, ==_self, and-eq-true, length, take, drop, All,
}
use test_enclave_newapi.Text.{Bytes, str_eq, has_prefix, has_suffix}

abbrev pub Lacks : ℕ → Bytes → Type 0
Lacks b = All (λ c. c ≢ b)

pub eq_of_str_eq : (a b : Bytes) → str_eq a b ≡ true → a ≡ b
unfolding str_eq
eq_of_str_eq [] [] h = refl
eq_of_str_eq [] (d ∷ t) h = cc
eq_of_str_eq (c ∷ s) [] h = cc
eq_of_str_eq (c ∷ s) (d ∷ t) h =
    let (p, q) = and-eq-true (c == d) (str_eq s t) h in cc ((==_iff c d).0 p, eq_of_str_eq s t q)

pub str_eq_refl : (a : Bytes) → str_eq a a ≡ true
unfolding str_eq
str_eq_refl [] = refl
str_eq_refl (c ∷ s) = rw (==_self c, str_eq_refl s)

pub str_eq_iff : (a b : Bytes) → (str_eq a b ≡ true) ↔ (a ≡ b)
str_eq_iff a b = (eq_of_str_eq a b, λ e. ap (str_eq a) (sym e) ∙ str_eq_refl a)

pub has_prefix_sound : (s p : Bytes) → has_prefix s p ≡ true → (r : Bytes) × (s ≡ p ++ r)
unfolding has_prefix
has_prefix_sound s [] h = (s, refl)
has_prefix_sound [] (d ∷ p) h = cc
has_prefix_sound (c ∷ s) (d ∷ p) h =
    let (e, q) = and-eq-true (c == d) (has_prefix s p) h in
    let (r, t) = has_prefix_sound s p q in (r, cc ((==_iff c d).0 e, t))

pub has_prefix-append : (p r : Bytes) → has_prefix (p ++ r) p ≡ true
unfolding has_prefix
has_prefix-append [] r = refl
has_prefix-append (c ∷ p) r = rw (==_self c, has_prefix-append p r)

pub take-append-drop : (n : ℕ) (s : Bytes) → take n s ++ drop n s ≡ s
take-append-drop ℕ.zero s = refl
take-append-drop (ℕ.suc n) [] = refl
take-append-drop (ℕ.suc n) (c ∷ s) = rw (take-append-drop n s)

pub drop-append : (r t : Bytes) → drop (length r) (r ++ t) ≡ t
drop-append [] t = refl
drop-append (c ∷ r) t = drop-append r t

pub has_suffix_sound : (s t : Bytes) → has_suffix s t ≡ true → (r : Bytes) × (s ≡ r ++ t)
unfolding has_suffix
has_suffix_sound s t h =
    let n = length s - length t in
    let (_, q) = and-eq-true (leb (length t) (length s)) (str_eq (drop n s) t) h in
    (take n s, sym (take-append-drop n s) ∙ ap (λ u. take n s ++ u) (eq_of_str_eq (drop n s) t q))

pub reverse-shift :
    (acc : Bytes) (c : ℕ) (s : Bytes) → reverse (c ∷ acc) ++ s ≡ reverse acc ++ c ∷ s
reverse-shift acc c s =
    ap (λ t. t ++ s) (reverse-cons c acc) ∙ append_assoc (reverse acc) (c ∷ []) s

pub has_suffix-append : (x t : Bytes) → has_suffix (x ++ t) t ≡ true
unfolding has_suffix
has_suffix-append x t =
    let n : length (x ++ t) - length t ≡ length x = omega (arith, length-append x t) in
    let l : leb (length t) (length (x ++ t)) ≡ true = ground (arith, length-append x t) in
    rw (l, n, drop-append x t, str_eq_refl t) refl
