-- ===== src/Verify/Chain.antt =====
-- cmd/relay-verify: dcap_cgo.go and dcap_stub.go, the two builds of the quote check, with the names of
-- the results (qvresult.go), and `fetchLeafCert`. The C library and the TLS handshake are parameters.
use test_enclave_newapi.Common.{
  ℕ, ℤ, pos, negsuc, ◌%◌, Bool, true, false, not, ◌&&◌, List, [], ◌∷◌, Option, none, some,
  if◌then◌else◌, ◌==◌, ltb, int_eq, length,
}
use test_enclave_newapi.Text.{Bytes, codes}
use test_enclave_newapi.Url.Percent.{is_empty}
use test_enclave_newapi.Verify.{
  qv_ok, qv_config_needed, qv_out_of_date, qv_out_of_date_config, qv_sw_hardening,
  qv_config_sw_hard, Certificate, Platform,
}

-- The result codes that are failures.
abbrev pub qv_invalid_sig : ℕ
qv_invalid_sig = 0xa004

abbrev pub qv_revoked : ℕ
qv_revoked = 0xa005

abbrev pub qv_unspecified : ℕ
qv_unspecified = 0xa006

unfoldable pub qv_result_string : ℕ → Bytes
qv_result_string r =
    if r == qv_ok
    then codes "OK (up-to-date, trusted)"
    else if r == qv_config_needed
    then codes "CONFIG_NEEDED (verified; platform config advisory)"
    else if r == qv_out_of_date
    then codes "OUT_OF_DATE (verified; TCB out of date)"
    else if r == qv_out_of_date_config
    then codes "OUT_OF_DATE_CONFIG_NEEDED (verified; TCB out of date + config)"
    else if r == qv_invalid_sig
    then codes "INVALID_SIGNATURE (FAIL)"
    else if r == qv_revoked
    then codes "REVOKED (FAIL)"
    else if r == qv_unspecified
    then codes "UNSPECIFIED (FAIL)"
    else if r == qv_sw_hardening
    then codes "SW_HARDENING_NEEDED (verified; SW hardening advisory)"
    else if r == qv_config_sw_hard
    then codes "CONFIG_AND_SW_HARDENING_NEEDED (verified; config + SW hardening advisory)"
    else codes "unknown quote-verification result"

-- libsgx_dcap_quoteverify: the size of the supplemental data, none where the call fails, and the check
-- of a quote of a length with a buffer of that size, which gives a status and a result.
pub record Library : Type 0 where
  pub supplemental_size : Option ℕ
  pub malloc_succeeds : Bool
  pub verify_quote : Bytes → ℕ → ℕ → ℤ × ℕ

abbrev pub size_of : Option ℕ → ℕ
size_of none = 0
size_of (some n) = n

-- `rv_verify`: its status, and `*qv_result`, which starts as 0.
unfoldable pub rv_verify : Library → Bytes → ℕ → ℤ × ℕ
rv_verify lib quote quote_len =
    let size = size_of lib.supplemental_size in
    if ltb 0 size && not lib.malloc_succeeds
    then (negsuc 0, 0)
    else lib.verify_quote quote quote_len size

pub data ChainError : Type 0 where
  empty_quote no_dcap_support : ChainError
  library_error : ℤ → ChainError

-- The three results of `verifyQuoteChain`.
pub record Checked : Type 0 where
  pub code : ℕ
  pub text : Bytes
  pub error : Option ChainError

-- With `-tags dcap`; the length is a `uint32_t`.
unfoldable pub verify_quote_chain : Library → Bytes → Checked
verify_quote_chain lib quote =
    if is_empty quote
    then record { code = 0; text = []; error = some empty_quote }
    else let r = rv_verify lib quote (length quote % 0x1_0000_0000) in
      if not (int_eq r.0 (pos 0))
      then record { code = r.1; text = []; error = some (library_error r.0) }
      else record { code = r.1; text = qv_result_string r.1; error = none }

-- The build without the tag.
unfoldable pub verify_quote_chain_stub : Bytes → Checked
verify_quote_chain_stub quote = record { code = 0; text = []; error = some no_dcap_support }

pub data Build : Type 0 where
  pure_go : Build
  dcap : Library → Build

-- `dcapVerifyAvailable`
unfoldable pub dcap_verify_available : Build → Bool
dcap_verify_available pure_go = false
dcap_verify_available (dcap lib) = true

unfoldable pub checked_by : Build → Bytes → Checked
checked_by pure_go quote = verify_quote_chain_stub quote
checked_by (dcap lib) quote = verify_quote_chain lib quote

abbrev pub code_of : Checked → Option ℕ
code_of c = elim c.error [ none ↦ some c.code | some _ ↦ none ]

-- `fetchLeafCert`: the handshake gives the peer's certificates, or fails.
unfoldable pub fetch_leaf_cert : (Bytes → Option (List Certificate)) → Bytes → Option Certificate
fetch_leaf_cert dial addr = elim (dial addr) [
  | none ↦ none
  | some certs ↦ elim certs [ [] ↦ none | cert ∷ _ ↦ some cert ]
]

-- The platform that `main` runs on in a build of the program.
abbrev pub platform : Build → (Bytes → Option (List Certificate)) → (Bytes → Bytes) → Platform
platform build dial sha512 = record {
  dcap_available = dcap_verify_available build;
  leaf_certificate = fetch_leaf_cert dial;
  verify_quote_chain = λ quote. code_of (checked_by build quote);
  sha512 = sha512;
}
