-- ===== src/Url/Authority.antt =====
-- `url.Parse`: where the authority stands in a text without a fragment.
use test_enclave_newapi.Common.{
  ℕ, ◌≡◌, refl, sym, ap, ◌∙◌, ◌⊎◌, inl, inr, true, false, not, ◌&&◌, ◌||◌, [], ◌∷◌, some, some_inj,
  arith, ◌==◌, drop, Bool-cases, Option-cases, and-eq-true, if◌then◌else◌,
}
use test_enclave_newapi.Text.{Bytes, codes, before, from, has_prefix, contains, str_eq, to_lower}
use test_enclave_newapi.Text.Laws.{Lacks, has_prefix_sound}
use test_enclave_newapi.Url.{
  Url, Scheme, found, absent, missing, get_scheme, has_control_byte, parse_hierarchy, parse_rest,
  parse_unfragmented,
}
use test_enclave_newapi.Url.Laws.{with_path_host}
use test_enclave_newapi.Url.Percent.{is_empty}
use test_enclave_newapi.Url.Address.{parse_authority}

-- Up to the query and the path.
abbrev pub upto_path : Bytes → Bytes
upto_path s = before (before s b'?') b'/'

abbrev pub authority_in : Scheme → Bytes → Bytes
authority_in (found scheme rest) s =
    if has_prefix rest (codes "//") then upto_path (drop 2 rest) else []
authority_in absent s =
    if has_prefix s (codes "//") && not (has_prefix s (codes "///"))
    then upto_path (drop 2 s)
    else []
authority_in missing s = []

abbrev pub authority_of : Bytes → Bytes
authority_of s = authority_in (get_scheme s) s

pub has_prefix-nil : (s : Bytes) → has_prefix s [] ≡ true
unfolding has_prefix
has_prefix-nil [] = refl
has_prefix-nil (c ∷ s) = refl

pub has_prefix-before :
    (s p : Bytes) (b : ℕ) → Lacks b p → has_prefix (before s b) p ≡ has_prefix s p
unfolding has_prefix before
has_prefix-before [] p b h = refl
has_prefix-before (c ∷ s) [] b h = has_prefix-nil (before (c ∷ s) b) ∙ sym (has_prefix-nil (c ∷ s))
has_prefix-before (c ∷ s) (d ∷ p) b (q, h) = elim (Bool-cases (c == b)) [
  | inl y ↦ let other : (c == d) ≡ false = ground arith in rw (y, other) refl
  | inr n ↦ rw (n, has_prefix-before s p b h) refl
]

-- The host of an address: none, or that of the authority behind two slashes.
abbrev Hosted : Bytes → Bytes → Url → Type 0
Hosted scheme rest u =
    (has_prefix rest (codes "//") ≡ true)
    × ((not (is_empty scheme) || not (has_prefix rest (codes "///"))) ≡ true)
    × (parse_authority (before (drop 2 rest) b'/') ≡ some u.host)

hierarchy-Hosted :
    (scheme rest query : Bytes) (u : Url)
    → parse_hierarchy scheme rest query ≡ some u
    → is_empty u.host ≡ false
    → Hosted scheme rest u
unfolding parse_hierarchy
hierarchy-Hosted scheme rest query u h e =
    elim (Bool-cases (not (has_prefix rest (codes "/")) && not (is_empty scheme))) [
      | inl y ↦ absurd (cc (ap (λ x. is_empty x.host) (some_inj (rw (y, parse_hierarchy) at h)), e))
      | inr n ↦
          elim (Bool-cases
            (not (has_prefix rest (codes "/")) && contains (before rest b'/') (codes ":"))) [
              | inl y ↦ absurd (cc (rw (n, y, parse_hierarchy) at h))
              | inr m ↦
                  elim (Bool-cases (
                    has_prefix rest (codes "//")
                    && (not (is_empty scheme) || not (has_prefix rest (codes "///"))))) [
                      | inr f ↦
                          let (_, q) =
                            with_path_host scheme [] rest query u
                              (rw (n, m, f, parse_hierarchy) at h) in
                          absurd (cc (ap is_empty q, e))
                      | inl y ↦
                          let (p, q) =
                            and-eq-true (has_prefix rest (codes "//"))
                              (not (is_empty scheme) || not (has_prefix rest (codes "///"))) y in
                          elim (Option-cases (parse_authority (before (drop 2 rest) b'/'))) [
                            | inl o ↦ absurd (cc (rw (n, m, y, o, parse_hierarchy) at h))
                            | inr (a, o) ↦
                                let (_, r) =
                                  with_path_host scheme a (from (drop 2 rest) b'/') query u
                                    (rw (n, m, y, o, parse_hierarchy) at h) in
                                (p, q, o ∙ ap some (sym r))
                          ]
                    ]
            ]
    ]

slashes-free : Lacks b'?' (codes "//")
slashes-free = (omega arith, (omega arith, tt))

slashes3-free : Lacks b'?' (codes "///")
slashes3-free = (omega arith, (omega arith, (omega arith, tt)))

two_off : (t : Bytes) → drop 2 (before (b'/' ∷ b'/' ∷ t) b'?') ≡ before t b'?'
unfolding before
two_off t = refl

rest-Hosted :
    (scheme rest : Bytes) (u : Url)
    → parse_rest scheme rest ≡ some u
    → is_empty u.host ≡ false
    → (has_prefix rest (codes "//") ≡ true)
      × ((not (is_empty scheme) || not (has_prefix rest (codes "///"))) ≡ true)
      × (parse_authority (upto_path (drop 2 rest)) ≡ some u.host)
unfolding parse_rest
rest-Hosted scheme rest u h e =
    let (p, q, r) = hierarchy-Hosted scheme (before rest b'?') _ u h e in
    let p' : has_prefix rest (codes "//") ≡ true =
      sym (has_prefix-before rest (codes "//") b'?' slashes-free) ∙ p in
    let q' = rw (has_prefix-before rest (codes "///") b'?' slashes3-free) at q in
    let (t, w) = has_prefix_sound rest (codes "//") p' in
    let same : drop 2 (before rest b'?') ≡ before (drop 2 rest) b'?' =
      ap (λ x. drop 2 (before x b'?')) w ∙ (two_off t ∙ ap (λ x. before (drop 2 x) b'?') (sym w)) in
    (p', q', ap (λ x. parse_authority (before x b'/')) (sym same) ∙ r)

pub Scheme-cases :
    (x : Scheme) → (x ≡ missing) ⊎ (x ≡ absent) ⊎ ((s : Bytes) × (r : Bytes) × (x ≡ found s r))
Scheme-cases missing = inl refl
Scheme-cases absent = inr (inl refl)
Scheme-cases (found s r) = inr (inr (s, r, refl))

-- A parsed address with a host has it from the authority that stands behind two slashes.
pub parse_unfragmented-authority :
    (s : Bytes) (u : Url)
    → parse_unfragmented s ≡ some u
    → is_empty u.host ≡ false
    → parse_authority (authority_of s) ≡ some u.host
unfolding parse_unfragmented
parse_unfragmented-authority s u h e = elim (Bool-cases (has_control_byte s)) [
  | inl y ↦ absurd (cc (rw (y, parse_unfragmented) at h))
  | inr n ↦ elim (Bool-cases (str_eq s (codes "*"))) [
    | inl y ↦
        absurd (cc (ap (λ x. is_empty x.host) (some_inj (rw (n, y, parse_unfragmented) at h)), e))
    | inr m ↦ elim (Scheme-cases (get_scheme s)) [
      | inl o ↦ absurd (cc (rw (n, m, o, parse_unfragmented) at h))
      | inr (inl o) ↦
          let (p, q, r) = rest-Hosted [] s u (rw (n, m, o, parse_unfragmented) at h) e in
          rw (o, p, q) r
      | inr (inr (c, t, o)) ↦
          let (p, q, r) = rest-Hosted (to_lower c) t u (rw (n, m, o, parse_unfragmented) at h) e in
          rw (o, p) r
    ]
  ]
]
