-- ===== src/Url/Shape.antt =====
-- `url.Parse`: an authority does not depend on what follows it.
use mathlib.Core.List.{reverse}
use test_enclave_newapi.Common.{
  ℕ, ◌≡◌, refl, sym, ap, ◌∙◌, ◌⊎◌, inl, inr, Bool, true, false, not, ◌&&◌, ◌||◌, [], ◌∷◌, ◌++◌,
  arith, ◌==◌, ==_iff, drop, Bool-cases, and-eq-true, append_assoc,
}
use test_enclave_newapi.Text.{
  Bytes, codes, before, has_prefix, is_lower_byte, is_upper_byte, is_digit_byte,
}
use test_enclave_newapi.Text.Laws.{has_prefix-append}
use test_enclave_newapi.Text.Trim.{EndsOtherwise, TailOf}
use test_enclave_newapi.Url.{Scheme, found, absent, missing, scheme_from, get_scheme}
use test_enclave_newapi.Url.Percent.{is_empty, one_of}
use test_enclave_newapi.Url.Authority.{
  has_prefix-nil, upto_path, authority_in, authority_of, Scheme-cases,
}

-- The scheme of a longer text.
abbrev pub after : Scheme → Bytes → Scheme
after (found sc t) z = found sc (t ++ z)
after absent z = absent
after missing z = missing

after-no_scheme : (acc : Bytes) (z : Bytes) → TailOf b'/' z → scheme_from acc z ≡ absent
unfolding scheme_from
after-no_scheme acc z (inl e) = rw e refl
after-no_scheme acc z (inr (r, e)) = rw e refl

scheme_from-append :
    (acc s z : Bytes) → TailOf b'/' z → scheme_from acc (s ++ z) ≡ after (scheme_from acc s) z
unfolding scheme_from
scheme_from-append acc [] z t = after-no_scheme acc z t
scheme_from-append acc (c ∷ s) z t =
    let more = scheme_from-append (c ∷ acc) s z t in
    elim (Bool-cases (is_lower_byte c || is_upper_byte c)) [
      | inl y ↦ rw (y, scheme_from) more
      | inr n ↦ elim (Bool-cases (is_digit_byte c || one_of (codes "+-.") c)) [
        | inl y ↦ elim (Bool-cases (is_empty acc)) [
          | inl a ↦ rw (n, y, a, scheme_from) refl
          | inr a ↦ rw (n, y, a, scheme_from) more
        ]
        | inr m ↦ elim (Bool-cases (c == b':')) [
          | inr k ↦ rw (n, m, k, scheme_from) refl
          | inl y ↦ elim (Bool-cases (is_empty acc)) [
            | inl a ↦ rw (n, m, y, a, scheme_from) refl
            | inr a ↦ rw (n, m, y, a, scheme_from) refl
          ]
        ]
      ]
    ]

-- A scheme ends at a colon of the text.
pub scheme_from-colon :
    (acc s sc t : Bytes) → scheme_from acc s ≡ found sc t → (x : Bytes) × (s ≡ x ++ b':' ∷ t)
unfolding scheme_from
scheme_from-colon acc [] sc t h = absurd (cc h)
scheme_from-colon acc (c ∷ s) sc t h =
    let more : scheme_from (c ∷ acc) s ≡ found sc t → (x : Bytes) × (c ∷ s ≡ x ++ b':' ∷ t) =
      λ g. let (x, w) = scheme_from-colon (c ∷ acc) s sc t g in (c ∷ x, ap (λ y. c ∷ y) w) in
    elim (Bool-cases (is_lower_byte c || is_upper_byte c)) [
      | inl y ↦ more (rw (y, scheme_from) at h)
      | inr n ↦ elim (Bool-cases (is_digit_byte c || one_of (codes "+-.") c)) [
        | inl y ↦ elim (Bool-cases (is_empty acc)) [
          | inl a ↦ absurd (cc (rw (n, y, a, scheme_from) at h))
          | inr a ↦ more (rw (n, y, a, scheme_from) at h)
        ]
        | inr m ↦ elim (Bool-cases (c == b':')) [
          | inr k ↦ absurd (cc (rw (n, m, k, scheme_from) at h))
          | inl y ↦ elim (Bool-cases (is_empty acc)) [
            | inl a ↦ absurd (cc (rw (n, m, y, a, scheme_from) at h))
            | inr a ↦
                let g : found (reverse acc) s ≡ found sc t = rw (n, m, y, a, scheme_from) at h in
                let e : s ≡ t = cc g in
                ([], ap (λ d. d ∷ s) ((==_iff c b':').0 y) ∙ ap (λ r. b':' ∷ r) e)
          ]
        ]
      ]
    ]

-- What may follow a base: nothing, or a path whose second byte is no slash, where the base ends in
-- none.
abbrev pub Follows : Bytes → Bytes → Type 0
Follows base z =
    (z ≡ [])
    ⊎ ((r : Bytes) × (z ≡ b'/' ∷ r) × (has_prefix r (codes "/") ≡ false) × EndsOtherwise b'/' base)

pub Follows-TailOf : (base z : Bytes) → Follows base z → TailOf b'/' z
Follows-TailOf base z (inl e) = inl e
Follows-TailOf base z (inr (r, e, _, _)) = inr (r, e)

-- Two slashes at the start of the rest of a base are in the base.
double :
    (base pre t z : Bytes)
    → base ≡ pre ++ t
    → Follows base z
    → has_prefix (t ++ z) (codes "//") ≡ true
    → (a : Bytes) × (t ≡ codes "//" ++ a)
unfolding has_prefix
double base pre [] z e (inl w) h = absurd (cc (rw w at h))
double base pre [] z e (inr (r, w, n, _)) h = absurd (cc (rw w at h, n))
double base pre (c ∷ []) z e (inl w) h =
    let (_, q) = and-eq-true (c == b'/') false (rw w at h) in absurd (cc q)
double base pre (c ∷ []) z e (inr (r, w, n, q)) h =
    let (p, _) = and-eq-true (c == b'/') (has_prefix z (codes "/")) h in
    absurd (q pre (e ∙ ap (λ x. pre ++ (x ∷ [])) ((==_iff c b'/').0 p)))
double base pre (c ∷ d ∷ a) z e f h =
    let (p, q) = and-eq-true (c == b'/') (has_prefix (d ∷ (a ++ z)) (codes "/")) h in
    let (r, _) = and-eq-true (d == b'/') (has_prefix (a ++ z) []) q in
    (a, ap (λ x. x ∷ d ∷ a) ((==_iff c b'/').0 p) ∙ ap (λ x. b'/' ∷ x ∷ a) ((==_iff d b'/').0 r))

upto_path-tail : (a z : Bytes) → TailOf b'/' z → upto_path (a ++ z) ≡ upto_path a
unfolding before
upto_path-tail [] z (inl e) = rw e refl
upto_path-tail [] z (inr (r, e)) = rw e refl
upto_path-tail (c ∷ a) z t = elim (Bool-cases (c == b'?')) [
  | inl y ↦ rw (y, before) refl
  | inr n ↦ elim (Bool-cases (c == b'/')) [
    | inl y ↦ rw (n, y, before) refl
    | inr m ↦ rw (n, m, before) (ap (λ x. c ∷ x) (upto_path-tail a z t))
  ]
]

-- Where the authority of a base stands.
pub data Shape (base : Bytes) : Type 0 where
  with_scheme : (sc a : Bytes) → get_scheme base ≡ found sc (codes "//" ++ a) → Shape base
  bare : (c : ℕ) (a : Bytes) → (c == b'/') ≡ false → base ≡ codes "//" ++ (c ∷ a) → Shape base

found-Shape :
    (base z sc t : Bytes)
    → get_scheme base ≡ found sc t
    → Follows base z
    → (authority_in (found sc (t ++ z)) (base ++ z) ≡ []) ⊎ Shape base
unfolding get_scheme
found-Shape base z sc t g f = elim (Bool-cases (has_prefix (t ++ z) (codes "//"))) [
  | inr n ↦ inl (rw n refl)
  | inl y ↦
      let (x, w) = scheme_from-colon [] base sc t g in
      let (a, e) =
        double base (x ++ (b':' ∷ [])) t z (w ∙ sym (append_assoc x (b':' ∷ []) t)) f y in
      inr (with_scheme sc a (g ∙ ap (found sc) e))
]

not-true : (b : Bool) → not b ≡ true → b ≡ false
not-true b h = ground arith

bare-Shape :
    (base z a : Bytes)
    → base ≡ codes "//" ++ a
    → Follows base z
    → has_prefix (base ++ z) (codes "///") ≡ false
    → (upto_path (drop 2 (base ++ z)) ≡ []) ⊎ Shape base
unfolding has_prefix before
bare-Shape base z [] e f n =
    inl (ap (λ x. upto_path (drop 2 (x ++ z))) e ∙ upto_path-tail [] z (Follows-TailOf base z f))
bare-Shape base z (c ∷ a) e f n = elim (Bool-cases (c == b'/')) [
  | inr m ↦ inr (bare c a m e)
  | inl y ↦
      let long : has_prefix (base ++ z) (codes "///") ≡ true =
        ap (λ x. has_prefix (x ++ z) (codes "///")) e ∙ rw y (has_prefix-nil (a ++ z)) in
      absurd (cc (long, n))
]

absent-Shape :
    (base z : Bytes) → Follows base z → (authority_in absent (base ++ z) ≡ []) ⊎ Shape base
absent-Shape base z f =
    elim (Bool-cases
      (has_prefix (base ++ z) (codes "//") && not (has_prefix (base ++ z) (codes "///")))) [
        | inr n ↦ inl (rw n refl)
        | inl y ↦
            let (p, q) =
              and-eq-true (has_prefix (base ++ z) (codes "//"))
                (not (has_prefix (base ++ z) (codes "///"))) y in
            let (a, e) = double base [] base z refl f p in
            elim (bare-Shape base z a e f (not-true (has_prefix (base ++ z) (codes "///")) q)) [
              | inl x ↦ inl (rw y x)
              | inr x ↦ inr x
            ]
      ]

-- A base followed by nothing or a path has no authority, or one that stands in the base.
pub Shape-of : (base z : Bytes) → Follows base z → (authority_of (base ++ z) ≡ []) ⊎ Shape base
unfolding get_scheme
Shape-of base z f =
    let e = scheme_from-append [] base z (Follows-TailOf base z f) in
    let at = ap (λ x. authority_in x (base ++ z)) e in
    elim (Scheme-cases (get_scheme base)) [
      | inl o ↦ inl (at ∙ ap (λ x. authority_in (after x z) (base ++ z)) o)
      | inr (inl o) ↦ elim (absent-Shape base z f) [
        | inl x ↦ inl (at ∙ (ap (λ x. authority_in (after x z) (base ++ z)) o ∙ x))
        | inr x ↦ inr x
      ]
      | inr (inr (sc, t, o)) ↦ elim (found-Shape base z sc t o f) [
        | inl x ↦ inl (at ∙ (ap (λ x. authority_in (after x z) (base ++ z)) o ∙ x))
        | inr x ↦ inr x
      ]
    ]

-- The authority in the base.
abbrev pub shape_authority : {base : Bytes} → Shape base → Bytes
shape_authority (with_scheme sc a g) = upto_path a
shape_authority (bare c a n e) = upto_path (c ∷ a)

bare_authority :
    (c : ℕ) (s : Bytes)
    → (c == b'/') ≡ false
    → authority_of (codes "//" ++ (c ∷ s)) ≡ upto_path (c ∷ s)
unfolding get_scheme has_prefix
bare_authority c s n = rw n refl

pub Shape-authority :
    (base z : Bytes) (s : Shape base) → TailOf b'/' z → authority_of (base ++ z) ≡ shape_authority s
unfolding get_scheme
Shape-authority base z (with_scheme sc a g) t =
    ap (λ x. authority_in x (base ++ z)) (scheme_from-append [] base z t)
    ∙ (ap (λ x. authority_in (after x z) (base ++ z)) g
        ∙ rw (has_prefix-append (codes "//") (a ++ z)) (upto_path-tail a z t))
Shape-authority base z (bare c a n e) t =
    ap (λ x. authority_of (x ++ z)) e ∙ (bare_authority c (a ++ z) n ∙ upto_path-tail (c ∷ a) z t)
