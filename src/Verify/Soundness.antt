-- ===== src/Verify/Soundness.antt =====
-- cmd/relay-verify, `main`: a run that ends in success has established the quote, its chain, its
-- measurement and its binding to the certificate's key.
use test_enclave_newapi.Common.{
  ◌≡◌, refl, sym, ap, ◌∙◌, ◌⊎◌, inl, inr, Bool, true, false, not, some, ltb, length, All,
  Bool-cases, Option-cases, ◌&&◌, ◌||◌,
}
use test_enclave_newapi.Text.{Bytes}
use test_enclave_newapi.Url.Percent.{is_empty}
use test_enclave_newapi.Verify.{
  min_quote_len, parse_quote, bytes_equal, Certificate, quote_in, Options, Platform, verified,
  bound_to, check_quote, chain_accepted, check_certificate, expected, main,
}
use test_enclave_newapi.Verify.Comparison.{IsByte, bytes_equal_iff}
use test_enclave_newapi.Verify.Laws.{
  measurement, bound_data, Established, chain_sound, expected-IsByte, All-take, All-drop,
  HasByteValues, quote_in-IsByte,
}

-- What the platform hands to the verifier as bytes are bytes.
pub record DeliversBytes (p : Platform) : Type 0 where
  pub certificates :
      (a : Bytes) (c : Certificate) → p.leaf_certificate a ≡ some c → All HasByteValues c.extensions
  pub digests : (m : Bytes) → All IsByte (p.sha512 m)

bound_sound :
    (p : Platform) (o : Options) (c : Certificate) (r : Bytes)
    → DeliversBytes p
    → All IsByte r
    → bound_to p o c r ≡ true
    → (o.allow_unbound ≡ true) ⊎ (r ≡ p.sha512 c.spki)
unfolding bound_to
bound_sound p o c r d b h = elim (Bool-cases o.allow_unbound) [
  | inl y ↦ inl y
  | inr n ↦ inr ((bytes_equal_iff r (p.sha512 c.spki) b (d.digests c.spki)).0 (rw n at h))
]

check_quote_sound :
    (p : Platform) (o : Options) (want : Bytes) (c : Certificate) (checked : Bool) (q : Bytes)
    → DeliversBytes p
    → All IsByte want
    → All IsByte q
    → check_quote p o want c checked q ≡ verified
    → (checked ≡ true)
      × (measurement q ≡ want)
      × ((o.allow_unbound ≡ true) ⊎ (bound_data q ≡ p.sha512 c.spki))
unfolding check_quote parse_quote
check_quote_sound p o want c checked q d bw bq h =
    elim (Bool-cases (ltb (length q) min_quote_len)) [
      | inl y ↦ absurd (cc (rw (y, check_quote, parse_quote) at h))
      | inr n ↦ elim (Bool-cases (bytes_equal (measurement q) want)) [
        | inr e ↦ absurd (cc (rw (n, e, check_quote, parse_quote) at h))
        | inl e ↦ elim (Bool-cases (bound_to p o c (bound_data q))) [
          | inr f ↦ absurd (cc (rw (n, e, f, check_quote, parse_quote) at h))
          | inl f ↦ elim (Bool-cases checked) [
            | inr g ↦ absurd (cc (rw (n, e, f, g, check_quote, parse_quote) at h))
            | inl g ↦ (
              g,
              (bytes_equal_iff (measurement q) want (All-take 32 _ (All-drop 112 q bq)) bw).0 e,
              bound_sound p o c (bound_data q) d (All-take 64 _ (All-drop 368 q bq)) f,
            )
          ]
        ]
      ]
    ]

accepted_of : (a b : Bool) → a ≡ true → a && not b ≡ false → b ≡ true
accepted_of true true _ h = refl
accepted_of true false _ h = cc
accepted_of false b e h = cc

check_certificate_sound :
    (p : Platform) (o : Options) (want : Bytes) (c : Certificate)
    → DeliversBytes p
    → p.leaf_certificate o.addr ≡ some c
    → expected o.mrenclave ≡ some want
    → check_certificate p o want c ≡ verified
    → Established p o
unfolding check_certificate
check_certificate_sound p o want c d s w h = elim (Option-cases (quote_in c.extensions)) [
  | inl n ↦ absurd (cc (rw (n, check_certificate) at h))
  | inr (q, e) ↦ elim (Bool-cases (o.dcap_verify && not (chain_accepted p o q))) [
    | inl r ↦ absurd (cc (rw (e, r, check_certificate) at h))
    | inr r ↦
        let f =
          check_quote_sound p o want c o.dcap_verify q d (expected-IsByte o.mrenclave want w)
            (quote_in-IsByte c.extensions q (d.certificates o.addr c s) e)
            (rw (e, r, check_certificate) at h) in
        record {
          certificate = c;
          quote = q;
          served = s;
          carried = e;
          chain = chain_sound p o q (accepted_of o.dcap_verify (chain_accepted p o q) f.0 r);
          measured = w ∙ ap some (sym f.1);
          bound = f.2;
        }
  ]
]

-- When the verifier ends with full success, the server has presented a certificate that carries a
-- quote such that: the quote-verification library was present and accepted the quote with a result
-- that the options allow, the quote's measurement is the one the user asked for, and its report
-- data is the SHA-512 of the certificate's public key, unless unbound certificates were allowed.
-- The condition is that certificates and digests consist of bytes.
pub main_sound :
    (p : Platform) (o : Options) → DeliversBytes p → main p o ≡ verified → Established p o
unfolding main
main_sound p o d h = elim (Bool-cases (is_empty o.addr || is_empty o.mrenclave)) [
  | inl y ↦ absurd (cc (rw (y, main) at h))
  | inr n ↦ elim (Option-cases (expected o.mrenclave)) [
    | inl m ↦ absurd (cc (rw (n, m, main) at h))
    | inr (w, e) ↦ elim (Option-cases (p.leaf_certificate o.addr)) [
      | inl m ↦ absurd (cc (rw (n, e, m, main) at h))
      | inr (c, f) ↦ check_certificate_sound p o w c d f e (rw (n, e, f, main) at h)
    ]
  ]
]
