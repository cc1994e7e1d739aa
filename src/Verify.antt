-- ===== src/Verify.antt =====
-- cmd/relay-verify: the client's check of an attested server. TLS, the quote-verification library
-- and SHA-512 are parameters.
pub mod Comparison
pub mod Laws
pub mod Soundness
pub mod Chain
pub mod Accepted
use test_enclave_newapi.Common.{
  ℕ, ◌+◌, ◌-◌, ◌*◌, ◌≡◌, refl, Bool, true, false, not, ◌&&◌, ◌||◌, List, [], ◌∷◌, Option, none,
  some, if◌then◌else◌, ◌==◌, ltb, length, take, drop,
}
use Prim.Native.Nat.{bit_or, bit_xor}
use test_enclave_newapi.Text.{Bytes, codes}
use test_enclave_newapi.Url.Percent.{is_empty, hex_value}

-- The codes of `sgx_ql_qv_result_t`.
abbrev pub qv_ok : ℕ
qv_ok = 0

abbrev pub qv_config_needed : ℕ
qv_config_needed = 0xa001

abbrev pub qv_out_of_date : ℕ
qv_out_of_date = 0xa002

abbrev pub qv_out_of_date_config : ℕ
qv_out_of_date_config = 0xa003

abbrev pub qv_sw_hardening : ℕ
qv_sw_hardening = 0xa007

abbrev pub qv_config_sw_hard : ℕ
qv_config_sw_hard = 0xa008

pub data Verdict : Type 0 where
  pass outdated fail : Verdict

unfoldable pub classify_qv_result : ℕ → Verdict
classify_qv_result r =
    if r == qv_ok || r == qv_config_needed || r == qv_sw_hardening || r == qv_config_sw_hard
    then pass
    else if r == qv_out_of_date || r == qv_out_of_date_config
    then outdated
    else fail

abbrev pub quote_header_len : ℕ
quote_header_len = 48

abbrev pub mr_enclave_body_off : ℕ
mr_enclave_body_off = 64

abbrev pub mr_enclave_len : ℕ
mr_enclave_len = 32

abbrev pub report_data_body_off : ℕ
report_data_body_off = 320

abbrev pub report_data_len : ℕ
report_data_len = 64

abbrev pub min_quote_len : ℕ
min_quote_len = quote_header_len + report_data_body_off + report_data_len

-- MRENCLAVE and REPORT_DATA of a quote that is long enough.
unfoldable pub parse_quote : Bytes → Option (Bytes × Bytes)
parse_quote q =
    if ltb (length q) min_quote_len
    then none
    else some (
      take mr_enclave_len (drop (quote_header_len + mr_enclave_body_off) q),
      take report_data_len (drop (quote_header_len + report_data_body_off) q),
    )

-- The loop of `bytesEqual`: the differences are collected in one byte.
unfoldable pub differences : ℕ → Bytes → Bytes → ℕ
differences diff [] b = diff
differences diff (c ∷ a) [] = diff
differences diff (c ∷ a) (d ∷ b) = differences (bit_or diff (bit_xor c d)) a b

unfoldable pub bytes_equal : Bytes → Bytes → Bool
unfolding differences
bytes_equal a b = if not (length a == length b) then false else differences 0 a b == 0

pub record Extension : Type 0 where
  pub id : List ℕ
  pub value : Bytes

pub record Certificate : Type 0 where
  pub extensions : List Extension
  pub spki : Bytes

abbrev pub ra_tls_quote_oid : List ℕ
ra_tls_quote_oid = 1 ∷ 2 ∷ 840 ∷ 113741 ∷ 1337 ∷ 6 ∷ []

-- `ObjectIdentifier.Equal`
unfoldable pub oid_equal : List ℕ → List ℕ → Bool
oid_equal [] [] = true
oid_equal [] (d ∷ b) = false
oid_equal (c ∷ a) [] = false
oid_equal (c ∷ a) (d ∷ b) = c == d && oid_equal a b

-- The quote of the first extension with the RA-TLS identifier.
unfoldable pub quote_in : List Extension → Option Bytes
unfolding oid_equal
quote_in [] = none
quote_in (e ∷ es) =
    if oid_equal e.id ra_tls_quote_oid
    then if is_empty e.value then none else some e.value
    else quote_in es

-- `hex.DecodeString`
unfoldable pub hex_decode : Bytes → Option Bytes
unfolding hex_value
hex_decode [] = some []
hex_decode (c ∷ []) = none
hex_decode (c ∷ d ∷ s) = elim (hex_value c) [
  | none ↦ none
  | some h ↦ elim (hex_value d) [
    | none ↦ none
    | some l ↦ elim (hex_decode s) [ none ↦ none | some t ↦ some ((h * 16 + l) ∷ t) ]
  ]
]

pub record Options : Type 0 where
  pub addr : Bytes
  pub mrenclave : Bytes
  pub allow_unbound : Bool
  pub dcap_verify : Bool
  pub allow_outdated : Bool

-- `verify_quote_chain` gives the result code, or none on a library error; `dcap_available` says
-- whether the program was built with the library.
pub record Platform : Type 0 where
  pub dcap_available : Bool
  pub leaf_certificate : Bytes → Option Certificate
  pub verify_quote_chain : Bytes → Option ℕ
  pub sha512 : Bytes → Bytes

-- How the program ends: its exit status is 2, 1, 0 and 0.
pub data Exit : Type 0 where
  usage failed partial_pass verified : Exit

unfoldable pub bound_to : Platform → Options → Certificate → Bytes → Bool
bound_to p o cert report_data = o.allow_unbound || bytes_equal report_data (p.sha512 cert.spki)

-- The checks of measurement and channel binding.
unfoldable pub check_quote : Platform → Options → Bytes → Certificate → Bool → Bytes → Exit
check_quote p o want cert checked quote = elim (parse_quote quote) [
  | none ↦ failed
  | some (mre, report_data) ↦
      if not (bytes_equal mre want)
      then failed
      else if not (bound_to p o cert report_data)
      then failed
      else if checked
      then verified
      else partial_pass
]

-- Whether the signature chain is accepted.
unfoldable pub chain_accepted : Platform → Options → Bytes → Bool
chain_accepted p o quote =
    if not p.dcap_available then false else elim (p.verify_quote_chain quote) [
      | none ↦ false
      | some r ↦ elim (classify_qv_result r) [
        | pass ↦ true
        | outdated ↦ o.allow_outdated
        | fail ↦ false
      ]
    ]

unfoldable pub check_certificate : Platform → Options → Bytes → Certificate → Exit
check_certificate p o want cert = elim (quote_in cert.extensions) [
  | none ↦ failed
  | some quote ↦
      if o.dcap_verify && not (chain_accepted p o quote)
      then failed
      else check_quote p o want cert o.dcap_verify quote
]

unfoldable pub expected : Bytes → Option Bytes
expected text = elim (hex_decode text) [
  | none ↦ none
  | some w ↦ if length w == mr_enclave_len then some w else none
]

unfoldable pub main : Platform → Options → Exit
main p o = if is_empty o.addr || is_empty o.mrenclave then usage else elim (expected o.mrenclave) [
  | none ↦ usage
  | some want ↦ elim (p.leaf_certificate o.addr) [
    | none ↦ failed
    | some cert ↦ check_certificate p o want cert
  ]
]
