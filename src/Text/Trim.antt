-- ===== src/Text/Trim.antt =====
-- `strings.TrimSpace` leaves nothing to trim, and what `strings.TrimRight` takes away.
use mathlib.Core.List.{reverse, reverse-cons, reverse-append, reverse-reverse}
use test_enclave_newapi.Common.{
  ℕ, zero, suc, ◌≤◌, ◌<◌, ◌≡◌, refl, sym, ap, ◌∙◌, ◌⊎◌, inl, inr, true, List, [], ◌∷◌, ◌++◌, none,
  some, some_inj, arith, ◌==◌, ==_iff, Bool-cases, Option-cases, All, All-append, all, ltb, ltb→lt,
  and-eq-true, length, drop, length-append, append_assoc,
}
use test_enclave_newapi.Text.{
  Bytes, spaces, has_prefix, strip_one, strip_all, reverse_each, trim_space, trim_right,
  drop_while_byte,
}
use test_enclave_newapi.Text.Laws.{has_prefix_sound, has_prefix-append, drop-append}

-- No form is empty.
abbrev NonEmpty : Bytes → Type 0
NonEmpty f = 0 < length f

strip_one_sound :
    (fs : List Bytes) (s r : Bytes)
    → All NonEmpty fs
    → strip_one fs s ≡ some r
    → (f : Bytes) × (s ≡ f ++ r) × (0 < length f)
unfolding strip_one
strip_one_sound [] s r h e = absurd (cc e)
strip_one_sound (f ∷ fs) s r (p, h) e = elim (Bool-cases (has_prefix s f)) [
  | inr n ↦ strip_one_sound fs s r h (rw (n, strip_one) at e)
  | inl y ↦
      let (t, w) = has_prefix_sound s f y in
      let d : drop (length f) s ≡ r = some_inj (rw (y, strip_one) at e) in
      (f, w ∙ ap (λ x. f ++ x) (sym (drop-append f t) ∙ (ap (drop (length f)) (sym w) ∙ d)), p)
]

strip_one-nil : (fs : List Bytes) → All NonEmpty fs → strip_one fs [] ≡ none
strip_one-nil fs h = elim (Option-cases (strip_one fs [])) [
  | inl n ↦ n
  | inr (r, e) ↦
      let (f, w, p) = strip_one_sound fs [] r h e in
      absurd (omega (arith, p, ap length w ∙ length-append f r))
]

-- What is left after stripping: a tail of the text, from which no form can be stripped.
pub record Stripped (fs : List Bytes) (s r : Bytes) : Type 0 where
  pub front : Bytes
  pub whole : s ≡ front ++ r
  pub done : strip_one fs r ≡ none

strip_all-Stripped :
    (n : ℕ) (fs : List Bytes) (s : Bytes)
    → All NonEmpty fs
    → length s ≤ n
    → Stripped fs s (strip_all n fs s)
unfolding strip_all
strip_all-Stripped zero fs [] h b = record { front = []; whole = refl; done = strip_one-nil fs h }
strip_all-Stripped zero fs (c ∷ s) h b = absurd (omega (arith, b))
strip_all-Stripped (suc n) fs s h b = elim (Option-cases (strip_one fs s)) [
  | inl e ↦ rw (e, strip_all) (record { front = []; whole = refl; done = e })
  | inr (r, e) ↦
      let (f, w, p) = strip_one_sound fs s r h e in
      let shorter : length r ≤ n = omega (arith, b, p, ap length w ∙ length-append f r) in
      let more = strip_all-Stripped n fs r h shorter in
      rw (e, strip_all)
        (record {
          front = f ++ more.front;
          whole =
              w
              ∙ (ap (λ x. f ++ x) more.whole ∙ sym (append_assoc f more.front (strip_all n fs r)));
          done = more.done;
        })
]

strip_all-none :
    (n : ℕ) (fs : List Bytes) (s : Bytes) → strip_one fs s ≡ none → strip_all n fs s ≡ s
unfolding strip_all
strip_all-none zero fs s h = refl
strip_all-none (suc n) fs s h = rw (h, strip_all) refl

-- A form that starts a text starts every longer text.
strip_one-longer :
    (fs : List Bytes) (s t : Bytes) → strip_one fs (s ++ t) ≡ none → strip_one fs s ≡ none
unfolding strip_one
strip_one-longer [] s t h = refl
strip_one-longer (f ∷ fs) s t h = elim (Bool-cases (has_prefix s f)) [
  | inr n ↦ elim (Bool-cases (has_prefix (s ++ t) f)) [
    | inl y ↦ absurd (cc (rw (y, strip_one) at h))
    | inr m ↦ rw (n, strip_one) (strip_one-longer fs s t (rw (m, strip_one) at h))
  ]
  | inl y ↦
      let (r, w) = has_prefix_sound s f y in
      let long : has_prefix (s ++ t) f ≡ true =
        ap (λ x. has_prefix x f) (ap (λ x. x ++ t) w ∙ append_assoc f r t)
        ∙ has_prefix-append f (r ++ t) in
      absurd (cc (rw (long, strip_one) at h))
]

nonempty_forms : (fs : List Bytes) → all (λ f. ltb 0 (length f)) fs ≡ true → All NonEmpty fs
nonempty_forms [] h = tt
nonempty_forms (f ∷ fs) h =
    let (p, q) = and-eq-true (ltb 0 (length f)) (all (λ g. ltb 0 (length g)) fs) h in
    (ltb→lt 0 (length f) p, nonempty_forms fs q)

length-reversed : (s : Bytes) → length (reverse s) ≡ length s
length-reversed [] = refl
length-reversed (c ∷ s) =
    ap length (reverse-cons c s)
    ∙ (length-append (reverse s) (c ∷ []) ∙ omega (arith, length-reversed s))

-- What `trim_space` does to a text that neither starts nor ends with a space.
pub trim_space-bare :
    (y : Bytes)
    → strip_one spaces y ≡ none
    → strip_one (reverse_each spaces) (reverse y) ≡ none
    → trim_space y ≡ y
unfolding trim_space
trim_space-bare y h k =
    let first = strip_all-none (length y) spaces y h in
    rw first (
      ap reverse (strip_all-none (length y) (reverse_each spaces) (reverse y) k)
      ∙ reverse-reverse y)

-- Trimming a second time changes nothing.
pub trim_space-trim_space : (x : Bytes) → trim_space (trim_space x) ≡ trim_space x
unfolding trim_space
trim_space-trim_space x =
    let front = strip_all (length x) spaces x in
    let f = strip_all-Stripped (length x) spaces x (nonempty_forms spaces refl) (omega arith) in
    let z = strip_all (length front) (reverse_each spaces) (reverse front) in
    let b =
      strip_all-Stripped (length front) (reverse_each spaces) (reverse front)
        (nonempty_forms (reverse_each spaces) refl) (omega (arith, length-reversed front)) in
    let whole : front ≡ reverse z ++ reverse b.front =
      sym (reverse-reverse front) ∙ (ap reverse b.whole ∙ reverse-append b.front z) in
    trim_space-bare (reverse z)
      (strip_one-longer spaces (reverse z) (reverse b.front)
        (ap (strip_one spaces) (sym whole) ∙ f.done))
      (ap (strip_one (reverse_each spaces)) (reverse-reverse z) ∙ b.done)

-- A text that does not end with the byte.
abbrev pub EndsOtherwise : ℕ → Bytes → Type 0
EndsOtherwise b s = (x : Bytes) → s ≡ x ++ (b ∷ []) → ⊥

-- Nothing, or a text that starts with the byte.
abbrev pub TailOf : ℕ → Bytes → Type 0
TailOf b t = (t ≡ []) ⊎ ((r : Bytes) × (t ≡ b ∷ r))

drop_while_byte-first : (b : ℕ) (s x : Bytes) → drop_while_byte b s ≡ b ∷ x → ⊥
unfolding drop_while_byte
drop_while_byte-first b [] x h = cc h
drop_while_byte-first b (c ∷ s) x h = elim (Bool-cases (c == b)) [
  | inl y ↦ drop_while_byte-first b s x (rw (y, drop_while_byte) at h)
  | inr n ↦
      let e : c ∷ s ≡ b ∷ x = rw (n, drop_while_byte) at h in
      let same : c ≡ b = cc e in cc ((==_iff c b).1 same, n)
]

pub trim_right-EndsOtherwise : (s : Bytes) (b : ℕ) → EndsOtherwise b (trim_right s b)
unfolding trim_right
trim_right-EndsOtherwise s b x h = drop_while_byte-first b (reverse s) (reverse x) (
    sym (reverse-reverse (drop_while_byte b (reverse s)))
    ∙ (ap reverse h ∙ reverse-append x (b ∷ [])))

drop_while_byte-front :
    (b : ℕ) (s : Bytes) → (x : Bytes) × (s ≡ x ++ drop_while_byte b s) × All (λ c. c ≡ b) x
unfolding drop_while_byte
drop_while_byte-front b [] = ([], refl, tt)
drop_while_byte-front b (c ∷ s) = elim (Bool-cases (c == b)) [
  | inr n ↦ rw (n, drop_while_byte) ([], refl, tt)
  | inl y ↦
      let (x, w, a) = drop_while_byte-front b s in
      rw (y, drop_while_byte) (c ∷ x, ap (λ t. c ∷ t) w, ((==_iff c b).0 y, a))
]

All-reverse : (P : ℕ → Type 0) (x : Bytes) → All P x → All P (reverse x)
All-reverse P [] h = tt
All-reverse P (c ∷ x) (p, h) =
    rw (reverse-cons c x) (All-append P (reverse x) (c ∷ []) (All-reverse P x h) (p, tt))

TailOf-All : (b : ℕ) (x : Bytes) → All (λ c. c ≡ b) x → TailOf b x
TailOf-All b [] h = inl refl
TailOf-All b (c ∷ x) (p, h) = inr (x, ap (λ d. d ∷ x) p)

-- What `trim_right` takes away is nothing or starts with the byte.
pub trim_right_rest :
    (s : Bytes) (b : ℕ) → (rest : Bytes) × (s ≡ trim_right s b ++ rest) × TailOf b rest
unfolding trim_right
trim_right_rest s b =
    let (x, w, a) = drop_while_byte-front b (reverse s) in
    (
      reverse x,
      sym (reverse-reverse s) ∙ (ap reverse w ∙ reverse-append x (drop_while_byte b (reverse s))),
      TailOf-All b (reverse x) (All-reverse (λ c. c ≡ b) x a),
    )
