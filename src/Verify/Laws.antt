-- ===== src/Verify/Laws.antt =====
-- What a successful run of the verifier has established.
use test_enclave_newapi.Common.{
  ℕ, zero, suc, ◌<◌, ◌≡◌, ◌⊎◌, inl, inr, true, false, List, [], ◌∷◌, some, arith, ◌==◌, length,
  take, drop, All, Bool-cases, Option-cases, some_inj,
}
use test_enclave_newapi.Text.{Bytes}
use test_enclave_newapi.Url.Percent.{is_empty, hex_value}
use test_enclave_newapi.Verify.{
  Verdict, pass, outdated, fail, classify_qv_result, Certificate, quote_in, hex_decode, Extension,
  oid_equal, ra_tls_quote_oid, Options, Platform, chain_accepted, expected,
}
use test_enclave_newapi.Verify.Comparison.{IsByte}

abbrev pub measurement : Bytes → Bytes
measurement quote = take 32 (drop 112 quote)

abbrev pub bound_data : Bytes → Bytes
bound_data quote = take 64 (drop 368 quote)

-- The verdicts under which a quote's chain counts as verified.
abbrev pub IsTrusted : Options → Verdict → Type 0
IsTrusted o pass = Unit {0}
IsTrusted o outdated = o.allow_outdated ≡ true
IsTrusted o fail = ⊥

pub record ChainVerified (p : Platform) (o : Options) (quote : Bytes) : Type 0 where
  pub code : ℕ
  pub available : p.dcap_available ≡ true
  pub checked : p.verify_quote_chain quote ≡ some code
  pub trusted : IsTrusted o (classify_qv_result code)

-- The quote that the server's certificate carries, and what has been checked of it.
pub record Established (p : Platform) (o : Options) : Type 0 where
  pub certificate : Certificate
  pub quote : Bytes
  pub served : p.leaf_certificate o.addr ≡ some certificate
  pub carried : quote_in certificate.extensions ≡ some quote
  pub chain : ChainVerified p o quote
  pub measured : expected o.mrenclave ≡ some (measurement quote)
  pub bound : (o.allow_unbound ≡ true) ⊎ (bound_data quote ≡ p.sha512 certificate.spki)

IsTrusted-of :
    (o : Options) (v : Verdict)
    → elim v [ pass ↦ true | outdated ↦ o.allow_outdated | fail ↦ false ] ≡ true
    → IsTrusted o v
IsTrusted-of o pass h = tt
IsTrusted-of o outdated h = h
IsTrusted-of o fail h = cc

pub chain_sound :
    (p : Platform) (o : Options) (quote : Bytes)
    → chain_accepted p o quote ≡ true
    → ChainVerified p o quote
unfolding chain_accepted
chain_sound p o quote h = elim (Bool-cases p.dcap_available) [
  | inr e ↦ absurd (cc (rw (e, chain_accepted) at h))
  | inl e ↦ elim (Option-cases (p.verify_quote_chain quote)) [
    | inl n ↦ absurd (cc (rw (e, n, chain_accepted) at h))
    | inr (r, s) ↦ record {
      code = r;
      available = e;
      checked = s;
      trusted = IsTrusted-of o (classify_qv_result r) (rw (e, s, chain_accepted) at h);
    }
  ]
]

hex_value-lt : (c v : ℕ) → hex_value c ≡ some v → v < 16
unfolding hex_value
hex_value-lt c v h = ground arith

hex_decode-IsByte : (s t : Bytes) → hex_decode s ≡ some t → All IsByte t
unfolding hex_decode
hex_decode-IsByte [] t h = rw (← some_inj h) tt
hex_decode-IsByte (c ∷ []) t h = absurd (cc h)
hex_decode-IsByte (c ∷ d ∷ s) t h = elim (Option-cases (hex_value c)) [
  | inl n ↦ absurd (cc (rw (n, hex_decode) at h))
  | inr (u, e) ↦ elim (Option-cases (hex_value d)) [
    | inl n ↦ absurd (cc (rw (e, n, hex_decode) at h))
    | inr (v, f) ↦ elim (Option-cases (hex_decode s)) [
      | inl n ↦ absurd (cc (rw (e, f, n, hex_decode) at h))
      | inr (w, g) ↦
          rw (← some_inj (rw (e, f, g, hex_decode) at h))
            (omega (arith, hex_value-lt c u e, hex_value-lt d v f), hex_decode-IsByte s w g)
    ]
  ]
]

pub expected-IsByte : (s t : Bytes) → expected s ≡ some t → All IsByte t
unfolding expected
expected-IsByte s t h = elim (Option-cases (hex_decode s)) [
  | inl n ↦ absurd (cc (rw (n, expected) at h))
  | inr (w, e) ↦ elim (Bool-cases (length w == 32)) [
    | inr n ↦ absurd (cc (rw (e, n, expected) at h))
    | inl y ↦ rw (← some_inj (rw (e, y, expected) at h)) (hex_decode-IsByte s w e)
  ]
]

pub All-take : (n : ℕ) (s : Bytes) → All IsByte s → All IsByte (take n s)
All-take zero s h = tt
All-take (suc n) [] h = tt
All-take (suc n) (c ∷ s) h = (h.0, All-take n s h.1)

pub All-drop : (n : ℕ) (s : Bytes) → All IsByte s → All IsByte (drop n s)
All-drop zero s h = h
All-drop (suc n) [] h = tt
All-drop (suc n) (c ∷ s) h = All-drop n s h.1

abbrev pub HasByteValues : Extension → Type 0
HasByteValues e = All IsByte e.value

pub quote_in-IsByte :
    (es : List Extension) (q : Bytes) → All HasByteValues es → quote_in es ≡ some q → All IsByte q
unfolding quote_in
quote_in-IsByte [] q b h = absurd (cc h)
quote_in-IsByte (e ∷ es) q b h = elim (Bool-cases (oid_equal e.id ra_tls_quote_oid)) [
  | inr n ↦ quote_in-IsByte es q b.1 (rw (n, quote_in) at h)
  | inl y ↦ elim (Bool-cases (is_empty e.value)) [
    | inl z ↦ absurd (cc (rw (y, z, quote_in) at h))
    | inr z ↦ rw (← some_inj (rw (y, z, quote_in) at h)) b.0
  ]
]
