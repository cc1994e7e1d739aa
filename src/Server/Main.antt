-- ===== src/Server/Main.antt =====
-- cmd/relay-core/server.go, `main`: from the environment to a listening server. The file system, the
-- certificate and the result of listening are parameters; the trace is what the process does, in order.
use test_enclave_newapi.Common.{
  ℕ, ℤ, pos, Bool, not, ◌&&◌, List, [], ◌∷◌, ◌++◌, none, some, if◌then◌else◌, Result, ok, err,
}
use test_enclave_newapi.Text.{Bytes, codes, str_eq}
use test_enclave_newapi.Url.Percent.{is_empty}
use test_enclave_newapi.Verify.{Certificate}
use test_enclave_newapi.Enclave.{EnclaveError, Cert, Crypto, Device, build_cert, seal_key_file}

-- `os.Getenv` and the parts of the system that `main` calls.
pub record Process : Type 0 where
  pub getenv : Bytes → Bytes
  pub file_exists : Bytes → Bool
  pub write_file_succeeds : Bool
  pub crypto : Crypto
  pub device : Device
  pub listen_fails : Bool

-- `envOr`
unfoldable pub env_or : Process → Bytes → Bytes → Bytes
env_or p name default = if is_empty (p.getenv name) then default else p.getenv name

-- Which control plane the handler gets.
pub data Plane : Type 0 where
  static : ℤ → ℤ → Plane
  http : Bytes → Plane

-- What the server is started with: `newHandler`'s arguments, and the addresses.
pub record Service : Type 0 where
  pub addr : Bytes
  pub plane : Plane
  pub key_file : Bytes
  pub key_variable : Bytes
  pub ra_cert : Cert
  pub read_header_timeout_seconds : ℕ

-- `tls.Config`: the least version, 0x0303 for TLS 1.2, and the only certificate.
pub record TlsConfig : Type 0 where
  pub min_version : ℕ
  pub certificate : Certificate

-- What the process does. The texts on the two standard streams are left out but for their occasions.
pub data Action : Type 0 where
  wrote_file : Bytes → Bytes → Action
  warned_seal printed_provisioned printed_plane printed_listening : Action
  listened_plain : Service → Action
  listened_tls : Service → TlsConfig → Action
  exited : ℕ → Action

abbrev key_variable : Bytes
key_variable = codes "RELAY_CORE_UPSTREAM_KEY"

-- `raenclave.SealKeyFile`, and what is printed.
unfoldable pub seal : Process → Bytes → Bytes → List Action
unfolding seal_key_file
seal p key_file bootstrap = elim (seal_key_file bootstrap p.write_file_succeeds) [
  | none ↦ warned_seal ∷ []
  | some content ↦ wrote_file key_file content ∷ printed_provisioned ∷ []
]

-- The first start in an enclave seals the key of the environment.
unfoldable pub bootstrap : Process → Bytes → Cert → List Action
bootstrap p key_file cert =
    if not (is_empty (p.getenv key_variable)) && (not (p.file_exists key_file) && cert.attested)
    then seal p key_file (p.getenv key_variable)
    else []

unfoldable pub plane_of : Process → Plane
plane_of p =
    let url = p.getenv (codes "RELAY_CORE_CONTROL_URL") in
    if is_empty url then static (pos 1) (pos 1) else http url

-- The end of the process where listening fails.
unfoldable pub after_listening : Process → List Action
after_listening p = if p.listen_fails then exited 1 ∷ [] else []

unfoldable pub listen : Process → Service → List Action
listen p service =
    if str_eq (p.getenv (codes "RELAY_CORE_PLAINTEXT")) (codes "1")
    then printed_listening ∷ listened_plain service ∷ after_listening p
    else printed_listening
      ∷ listened_tls service (record { min_version = 0x0303; certificate = service.ra_cert.tls })
      ∷ after_listening p

unfoldable pub start_with : Process → Cert → List Action
start_with p cert =
    let key_file =
      env_or p (codes "RELAY_CORE_UPSTREAM_KEY_FILE") (codes "/secrets/upstream_key") in
    bootstrap p key_file cert
    ++ (printed_plane
        ∷ listen p (record {
          addr = env_or p (codes "RELAY_CORE_ADDR") (codes ":8443");
          plane = plane_of p;
          key_file = key_file;
          key_variable = key_variable;
          ra_cert = cert;
          read_header_timeout_seconds = 15;
        }))

unfoldable pub started : Process → Result EnclaveError Cert → List Action
started p (err cause) = exited 1 ∷ []
started p (ok cert) = start_with p cert

unfoldable pub main : Process → List Action
main p = started p (build_cert p.crypto p.device).0
