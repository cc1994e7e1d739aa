-- ===== src/Tests/Verify.antt =====
-- cmd/relay-verify on a quote of zeros, with the library's result for an up-to-date platform.
use test_enclave_newapi.Common.{
  ℕ, zero, suc, ◌≡◌, ◌↔◌, refl, true, false, [], ◌∷◌, some, none, pos, All, some_inj, arith,
}
use test_enclave_newapi.Text.{Bytes, codes}
use test_enclave_newapi.Verify.{
  Certificate, ra_tls_quote_oid, Options, Platform, verified, main, expected, hex_decode,
  check_certificate, quote_in, chain_accepted, classify_qv_result, check_quote, parse_quote,
  bound_to, bytes_equal,
}
use test_enclave_newapi.Verify.Comparison.{IsByte, bytes_equal_iff}
use test_enclave_newapi.Verify.Laws.{Established}
use test_enclave_newapi.Verify.Chain
use test_enclave_newapi.Verify.Chain.{Library, dcap}
use test_enclave_newapi.Verify.Accepted.{Trusted, chain_accepted_iff}
use test_enclave_newapi.Verify.Soundness.{DeliversBytes, main_sound}

abbrev copies : ℕ → ℕ → Bytes
copies zero c = []
copies (suc n) c = c ∷ copies n c

copies-IsByte : (n : ℕ) → All IsByte (copies n 0)
copies-IsByte zero = tt
copies-IsByte (suc n) = (omega arith, copies-IsByte n)

abbrev certificate : Certificate
certificate = record {
  extensions = record { id = ra_tls_quote_oid; value = copies 432 0 } ∷ [];
  spki = codes "key";
}

abbrev platform : Platform
platform = record {
  dcap_available = true;
  leaf_certificate = λ a. some certificate;
  verify_quote_chain = λ q. some 0;
  sha512 = λ m. copies 64 0;
}

abbrev options : Options
options = record {
  addr = codes "host:443";
  mrenclave = copies 64 b'0';
  allow_unbound = false;
  dcap_verify = true;
  allow_outdated = false;
}

platform-DeliversBytes : DeliversBytes platform
platform-DeliversBytes = record {
  certificates = λ a c e. rw (← some_inj e) (copies-IsByte 432, tt);
  digests = λ m. copies-IsByte 64;
}

run : main platform options ≡ verified
unfolding main expected hex_decode check_certificate quote_in chain_accepted classify_qv_result
    check_quote parse_quote bound_to bytes_equal
run = refl

main_sound_example : Established platform options
main_sound_example = main_sound platform options platform-DeliversBytes run

abbrev left : Bytes
left = 1 ∷ 2 ∷ []

abbrev right : Bytes
right = 1 ∷ 3 ∷ []

bytes_equal_iff_example : (bytes_equal left right ≡ true) ↔ (left ≡ right)
bytes_equal_iff_example =
    bytes_equal_iff left right (omega arith, (omega arith, tt)) (omega arith, (omega arith, tt))

-- A library that accepts every quote as one of an outdated platform.
abbrev library : Library
library = record {
  supplemental_size = some 8;
  malloc_succeeds = true;
  verify_quote = λ quote n m. (pos 0, 0xa002);
}

chain_accepted_iff_example :
    (chain_accepted (Chain.platform (dcap library) (λ a. none) (λ m. m)) options left ≡ true)
    ↔ ((lib : Library) × (dcap library ≡ dcap lib) × Trusted lib false left)
chain_accepted_iff_example = chain_accepted_iff (dcap library) (λ a. none) (λ m. m) options left
