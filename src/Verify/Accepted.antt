-- ===== src/Verify/Accepted.antt =====
-- cmd/relay-verify: when the signature chain of a quote is accepted, from the command line's options
-- down to the call of the C library.
use test_enclave_newapi.Common.{
  ℕ, pos, ◌%◌, ◌≡◌, ◌↔◌, refl, sym, ap, ◌∙◌, inl, inr, Bool, true, false, not, ◌&&◌, ◌||◌, List, [],
  ◌∷◌, Option, none, some, ◌==◌, any, int_eq, int_eq_iff, length, arith, Bool-cases, and-eq-true,
}
use test_enclave_newapi.Text.{Bytes}
use test_enclave_newapi.Url.Percent.{is_empty}
use test_enclave_newapi.Verify.{
  Verdict, pass, outdated, fail, classify_qv_result, Certificate, Options, chain_accepted,
}
use test_enclave_newapi.Verify.Chain.{
  empty_quote, library_error, Library, rv_verify, Checked, verify_quote_chain, Build, pure_go, dcap,
  dcap_verify_available, checked_by, code_of, platform, qv_result_string,
}

-- The codes of a verified quote, the outdated ones where they are allowed.
abbrev pub is_trusted : Bool → ℕ → Bool
is_trusted allow_outdated r =
    any (λ c. r == c) (0 ∷ 0xa001 ∷ 0xa007 ∷ 0xa008 ∷ [])
    || (allow_outdated && any (λ c. r == c) (0xa002 ∷ 0xa003 ∷ []))

abbrev allowed_verdict : Bool → Verdict → Bool
allowed_verdict allow pass = true
allowed_verdict allow outdated = allow
allowed_verdict allow fail = false

verdict-trusted :
    (allow : Bool) (r : ℕ) → allowed_verdict allow (classify_qv_result r) ≡ is_trusted allow r
unfolding classify_qv_result
verdict-trusted true r = ground arith
verdict-trusted false r = ground arith

-- The library was called with the quote, succeeded, and gave a trusted result.
pub record Trusted (lib : Library) (allow_outdated : Bool) (quote : Bytes) : Type 0 where
  pub non_empty : is_empty quote ≡ false
  pub status : (rv_verify lib quote (length quote % 0x1_0000_0000)).0 ≡ pos 0
  pub result :
      is_trusted allow_outdated (rv_verify lib quote (length quote % 0x1_0000_0000)).1 ≡ true

-- The same as one test.
abbrev trusted_test : Library → Bool → Bytes → Bool
trusted_test lib allow quote =
    let r = rv_verify lib quote (length quote % 0x1_0000_0000) in
    not (is_empty quote) && (int_eq r.0 (pos 0) && is_trusted allow r.1)

-- What the checks make of a code that may be missing.
abbrev judged : Bool → Option ℕ → Bool
judged allow none = false
judged allow (some r) = allowed_verdict allow (classify_qv_result r)

judged-chain :
    (lib : Library) (allow : Bool) (quote : Bytes)
    → judged allow (code_of (verify_quote_chain lib quote)) ≡ trusted_test lib allow quote
unfolding verify_quote_chain
judged-chain lib allow quote =
    let r = rv_verify lib quote (length quote % 0x1_0000_0000) in
    let of_code = λ (c : Checked). judged allow (code_of c) in
    elim (Bool-cases (is_empty quote)) [
      | inl y ↦
          let e : verify_quote_chain lib quote
              ≡ record { code = 0; text = []; error = some empty_quote } =
            rw (y, verify_quote_chain) refl in
          ap of_code e ∙ rw y refl
      | inr n ↦ elim (Bool-cases (int_eq r.0 (pos 0))) [
        | inr f ↦
            let e : verify_quote_chain lib quote
                ≡ record { code = r.1; text = []; error = some (library_error r.0) } =
              rw (n, f, verify_quote_chain) refl in
            ap of_code e ∙ rw (n, f) refl
        | inl t ↦
            let e : verify_quote_chain lib quote
                ≡ record { code = r.1; text = qv_result_string r.1; error = none } =
              rw (n, t, verify_quote_chain) refl in
            ap of_code e ∙ (verdict-trusted allow r.1 ∙ rw (n, t) refl)
      ]
    ]

chain_accepted-test :
    (lib : Library) (dial : Bytes → Option (List Certificate)) (sha512 : Bytes → Bytes)
    (o : Options) (quote : Bytes)
    → chain_accepted (platform (dcap lib) dial sha512) o quote
      ≡ trusted_test lib o.allow_outdated quote
unfolding chain_accepted checked_by dcap_verify_available
chain_accepted-test lib dial sha512 o quote = judged-chain lib o.allow_outdated quote

not-false : (b : Bool) → not b ≡ true → b ≡ false
not-false b h = ground arith

trusted_test-Trusted :
    (lib : Library) (allow : Bool) (quote : Bytes)
    → trusted_test lib allow quote ≡ true
    → Trusted lib allow quote
trusted_test-Trusted lib allow quote h =
    let r = rv_verify lib quote (length quote % 0x1_0000_0000) in
    let (a, t) =
      and-eq-true (not (is_empty quote)) (int_eq r.0 (pos 0) && is_trusted allow r.1) h in
    let (b, c) = and-eq-true (int_eq r.0 (pos 0)) (is_trusted allow r.1) t in
    record {
      non_empty = not-false (is_empty quote) a;
      status = (int_eq_iff r.0 (pos 0)).0 b;
      result = c;
    }

Trusted-trusted_test :
    (lib : Library) (allow : Bool) (quote : Bytes)
    → Trusted lib allow quote
    → trusted_test lib allow quote ≡ true
Trusted-trusted_test lib allow quote t =
    let r = rv_verify lib quote (length quote % 0x1_0000_0000) in
    rw (t.non_empty, (int_eq_iff r.0 (pos 0)).1 t.status, t.result) refl

dcap_inj : (a b : Library) → dcap a ≡ dcap b → a ≡ b
dcap_inj a b h = cc

-- The chain of a quote is accepted exactly when the program is built with the library, the quote is
-- not empty, the library's call succeeds, and its result is a trusted one, or one of outdated
-- platforms where the option allows these.
pub chain_accepted_iff :
    (build : Build) (dial : Bytes → Option (List Certificate)) (sha512 : Bytes → Bytes)
    (o : Options) (quote : Bytes)
    → (chain_accepted (platform build dial sha512) o quote ≡ true)
      ↔ ((lib : Library) × (build ≡ dcap lib) × Trusted lib o.allow_outdated quote)
unfolding chain_accepted dcap_verify_available
chain_accepted_iff pure_go dial sha512 o quote = (λ h. absurd (cc h), λ t. absurd (cc t.1))
chain_accepted_iff (dcap lib) dial sha512 o quote =
    let e = chain_accepted-test lib dial sha512 o quote in
    (
      λ h. (lib, refl, trusted_test-Trusted lib o.allow_outdated quote (sym e ∙ h)),
      λ (l, p, t). e ∙ Trusted-trusted_test lib o.allow_outdated quote (rw (dcap_inj lib l p) t),
    )
