-- ===== src/Server/Launch.antt =====
-- cmd/relay-core/server.go, `main`: when the key is sealed, and what is listened on.
use test_enclave_newapi.Common.{ℕ, suc, List, [], ◌∷◌, ◌≡◌, Bool, true, false, ok}
use test_enclave_newapi.Text.{Bytes, codes, str_eq}
use test_enclave_newapi.Url.Percent.{is_empty}
use test_enclave_newapi.Enclave.{Cert, build_cert}
use test_enclave_newapi.Enclave.Laws.{Bound}
use test_enclave_newapi.Server.Main.{
  Process, Service, TlsConfig, Action, wrote_file, warned_seal, printed_provisioned, printed_plane,
  printed_listening, listened_plain, listened_tls, exited,
}

-- A certificate that this process has built.
abbrev Own : Process → Cert → Type 0
Own p cert = (build_cert p.crypto p.device).0 ≡ ok cert

abbrev asks_plaintext : Process → Bool
asks_plaintext p = str_eq (p.getenv (codes "RELAY_CORE_PLAINTEXT")) (codes "1")

-- The key of the environment, into a file that was not there, in an enclave whose device quoted the
-- process's certificate.
pub record Sealed (p : Process) (path content : Bytes) : Type 0 where
  pub cert : Cert
  pub bound : Bound p.crypto p.device cert
  pub key : content ≡ p.getenv (codes "RELAY_CORE_UPSTREAM_KEY")
  pub non_empty : is_empty content ≡ false
  pub absent : p.file_exists path ≡ false

-- TLS 1.2 at least, with the certificate that is also shown by /attestation, built by this process.
pub record Secured (p : Process) (s : Service) (c : TlsConfig) : Type 0 where
  pub version : c.min_version ≡ 0x0303
  pub same : c.certificate ≡ s.ra_cert.tls
  pub own : Own p s.ra_cert
  pub wanted : asks_plaintext p ≡ false

-- What each action means for the secrecy of the key and of the requests.
abbrev pub Allowed : Process → Action → Type 0
Allowed p (wrote_file path content) = Sealed p path content
Allowed p warned_seal = Unit
Allowed p printed_provisioned = Unit
Allowed p printed_plane = Unit
Allowed p printed_listening = Unit
Allowed p (listened_plain s) = asks_plaintext p ≡ true
Allowed p (listened_tls s c) = Secured p s c
Allowed p (exited n) = n ≡ 1

-- The number of files written.
abbrev pub files_written : List Action → ℕ
files_written [] = 0
files_written (wrote_file path content ∷ rest) = suc (files_written rest)
files_written (warned_seal ∷ rest) = files_written rest
files_written (printed_provisioned ∷ rest) = files_written rest
files_written (printed_plane ∷ rest) = files_written rest
files_written (printed_listening ∷ rest) = files_written rest
files_written (listened_plain s ∷ rest) = files_written rest
files_written (listened_tls s c ∷ rest) = files_written rest
files_written (exited n ∷ rest) = files_written rest
