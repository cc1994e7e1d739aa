-- ===== src/Enclave.antt =====
-- pkg/raenclave: the RA-TLS certificate and the sealed key file, over a file system of which the
-- attestation files are part. Key generation and certificate creation are parameters.
pub mod Laws
use test_enclave_newapi.Common.{
  ℕ, ◌≡◌, refl, Bool, true, false, not, ◌&&◌, List, [], ◌∷◌, ◌++◌, Option, none, some,
  if◌then◌else◌, Result, ok, err,
}
use test_enclave_newapi.Text.{Bytes, codes, str_eq}
use test_enclave_newapi.Url.Percent.{is_empty}
use test_enclave_newapi.Verify.{Extension, Certificate, ra_tls_quote_oid}

-- The attestation device: a quote is made for the report data that was written last.
pub record Device : Type 0 where
  pub quote_exists : Bool
  pub report_data_exists : Bool
  pub report_data : Bytes
  pub write_fails : Bool
  pub quote_for : Bytes → Option Bytes

pub data EnclaveError : Type 0 where
  key_generation marshal_key write_user_report_data read_quote empty_quote create_certificate :
      EnclaveError

-- `Available`
unfoldable pub available : Device → Bool
available d = d.quote_exists && d.report_data_exists

-- `fetchQuote`: the write stands before the read.
unfoldable pub fetch_quote : Bytes → Device → Result EnclaveError Bytes × Device
fetch_quote report_data d =
    if d.write_fails
    then (err write_user_report_data, d)
    else let e = record d { report_data = report_data } in
      elim (e.quote_for e.report_data) [
        | none ↦ (err read_quote, e)
        | some q ↦ if is_empty q then (err empty_quote, e) else (ok q, e)
      ]

-- What Go's crypto packages do for `BuildCert`: the public key in DER, its SHA-512, the signature.
pub record Crypto : Type 0 where
  pub generated_key : Option Bytes
  pub marshal_key : Bytes → Option Bytes
  pub sha512 : Bytes → Bytes
  pub certificate_created : Bool

pub record Cert : Type 0 where
  pub tls : Certificate
  pub attested : Bool
  pub quote : Bytes
  pub report_data : Bytes

abbrev quote_extension : Bytes → List Extension
quote_extension quote = record { id = ra_tls_quote_oid; value = quote } ∷ []

unfoldable pub issue : Crypto → Bytes → Bool → Bytes → Result EnclaveError Cert
issue c spki attested quote =
    if c.certificate_created
    then ok (record {
      tls = record { extensions = if attested then quote_extension quote else []; spki = spki };
      attested = attested;
      quote = quote;
      report_data = c.sha512 spki;
    })
    else err create_certificate

unfoldable pub attest :
    Crypto → Bytes → Result EnclaveError Bytes × Device → Result EnclaveError Cert × Device
attest c spki (err e, d) = (err e, d)
attest c spki (ok quote, d) = (issue c spki true quote, d)

unfoldable pub build_cert : Crypto → Device → Result EnclaveError Cert × Device
build_cert c d = elim c.generated_key [
  | none ↦ (err key_generation, d)
  | some key ↦ elim (c.marshal_key key) [
    | none ↦ (err marshal_key, d)
    | some spki ↦
        if available d
        then attest c spki (fetch_quote (c.sha512 spki) d)
        else (issue c spki false [], d)
  ]
]

-- `SealKeyFile`: the file's new content; none where nothing is written.
unfoldable pub seal_key_file : Bytes → Bool → Option Bytes
seal_key_file secret write_ok =
    if is_empty secret then none else if write_ok then some secret else none
