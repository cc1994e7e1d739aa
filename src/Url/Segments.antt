-- ===== src/Url/Segments.antt =====
-- Percent decoding of a path, segment by segment.
use test_enclave_newapi.Common.{
  ℕ, ◌*◌, ◌+◌, ◌≡◌, refl, sym, ap, ◌∙◌, inl, inr, true, false, [], ◌∷◌, ◌++◌, Option, none, some,
  some_inj, ◌==◌, Bool-cases, Option-cases,
}
use test_enclave_newapi.Text.{Bytes}
use test_enclave_newapi.Url.Percent.{other, unescape, decode, push, hex_value}
use test_enclave_newapi.Official.SigV4.Encoding.{unescape-plain}

-- What `unescape` gives for two texts is what it gives for both in one.
pub record Parts (s t p : Bytes) : Type 0 where
  pub front : Bytes
  pub back : Bytes
  pub first : unescape other s ≡ some front
  pub second : unescape other t ≡ some back
  pub whole : p ≡ front ++ back

pub push_inv :
    (c : ℕ) (o : Option Bytes) (p : Bytes)
    → push c o ≡ some p
    → (q : Bytes) × (o ≡ some q) × (p ≡ c ∷ q)
push_inv c none p h = absurd (cc h)
push_inv c (some q) p h = (q, refl, sym (some_inj h))

slash-undecoded : (d : ℕ) (o : Option Bytes) → decode other d b'/' o ≡ none
unfolding decode hex_value
slash-undecoded d o = elim (Option-cases (hex_value d)) [
  | inl n ↦ rw (n, decode) refl
  | inr (h, n) ↦ rw (n, decode) refl
]

slash-undecoded_first : (e : ℕ) (o : Option Bytes) → decode other b'/' e o ≡ none
unfolding decode hex_value
slash-undecoded_first e o = refl

decode_inv :
    (d e : ℕ) (o : Option Bytes) (p : Bytes)
    → decode other d e o ≡ some p
    → (c : ℕ) × (q : Bytes) × (o ≡ some q)
      × (p ≡ c ∷ q)
      × ((x : Option Bytes) → decode other d e x ≡ push c x)
unfolding decode
decode_inv d e o p h = elim (Option-cases (hex_value d)) [
  | inl n ↦ absurd (cc (rw (n, decode) at h))
  | inr (a, n) ↦ elim (Option-cases (hex_value e)) [
    | inl m ↦ absurd (cc (rw (n, m, decode) at h))
    | inr (b, m) ↦
        let (q, x, y) = push_inv (a * 16 + b) o p (rw (n, m, decode) at h) in
        (a * 16 + b, q, x, y, λ z. rw (n, m, decode) refl)
  ]
]

none_left : unescape other [] ≡ some []
unfolding unescape
none_left = refl

bare : (c : ℕ) (r : Bytes) → (c == b'%') ≡ true → unescape other (c ∷ b'/' ∷ r) ≡ none
unfolding unescape
bare c [] h = rw (h, unescape) refl
bare c (e ∷ r) h = rw (h, unescape) (slash-undecoded_first e (unescape other r))

cut_short : (c d : ℕ) (r : Bytes) → (c == b'%') ≡ true → unescape other (c ∷ d ∷ b'/' ∷ r) ≡ none
unfolding unescape
cut_short c d r h = rw (h, unescape) (slash-undecoded d (unescape other r))

triple :
    (c d e : ℕ) (s : Bytes)
    → (c == b'%') ≡ true
    → unescape other (c ∷ d ∷ e ∷ s) ≡ decode other d e (unescape other s)
unfolding unescape
triple c d e s h = rw (h, unescape) refl

-- One more decoded byte in front.
grown :
    (c : ℕ) (s u t p q : Bytes)
    → unescape other u ≡ push c (unescape other s)
    → p ≡ c ∷ q
    → Parts s t q
    → Parts u t p
grown c s u t p q e w r = record {
  front = c ∷ r.front;
  back = r.back;
  first = e ∙ ap (push c) r.first;
  second = r.second;
  whole = w ∙ ap (λ x. c ∷ x) r.whole;
}

plain_step :
    (c : ℕ) (s t p : Bytes)
    → (c == b'%') ≡ false
    → ((q : Bytes) → unescape other (s ++ t) ≡ some q → Parts s t q)
    → unescape other (c ∷ (s ++ t)) ≡ some p
    → Parts (c ∷ s) t p
plain_step c s t p n rest h =
    let (q, u, w) =
      push_inv c (unescape other (s ++ t)) p (sym (unescape-plain c (s ++ t) n) ∙ h) in
    grown c s (c ∷ s) t p q (unescape-plain c s n) w (rest q u)

-- A slash behind a text is not read as a part of an escape.
pub unescape-slash :
    (s r p : Bytes) → unescape other (s ++ b'/' ∷ r) ≡ some p → Parts s (b'/' ∷ r) p
unescape-slash [] r p h = record {
  front = [];
  back = p;
  first = none_left;
  second = h;
  whole = refl;
}
unescape-slash (c ∷ []) r p h = elim (Bool-cases (c == b'%')) [
  | inl y ↦ absurd (cc (bare c r y, h))
  | inr n ↦ plain_step c [] (b'/' ∷ r) p n (unescape-slash [] r) h
]
unescape-slash (c ∷ d ∷ []) r p h = elim (Bool-cases (c == b'%')) [
  | inl y ↦ absurd (cc (cut_short c d r y, h))
  | inr n ↦ plain_step c (d ∷ []) (b'/' ∷ r) p n (unescape-slash (d ∷ []) r) h
]
unescape-slash (c ∷ d ∷ e ∷ s) r p h = elim (Bool-cases (c == b'%')) [
  | inl y ↦
      let (x, q, u, w, f) =
        decode_inv d e (unescape other (s ++ b'/' ∷ r)) p
          (sym (triple c d e (s ++ b'/' ∷ r) y) ∙ h) in
      grown x s (c ∷ d ∷ e ∷ s) (b'/' ∷ r) p q (triple c d e s y ∙ f (unescape other s)) w
        (unescape-slash s r q u)
  | inr n ↦ plain_step c (d ∷ e ∷ s) (b'/' ∷ r) p n (unescape-slash (d ∷ e ∷ s) r) h
]
