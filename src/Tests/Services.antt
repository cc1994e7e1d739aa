-- ===== src/Tests/Services.antt =====
-- pkg/raenclave, the Vertex token cache and the control client on small inputs.
use test_enclave_newapi.Common.{
  ℕ, pos, ◌≡◌, ◌⊎◌, inr, refl, true, false, [], ◌∷◌, ◌++◌, Option, none, some, ok, arith,
}
use test_enclave_newapi.Text.{Bytes, codes}
use test_enclave_newapi.SortedMap
use test_enclave_newapi.Verify.{ra_tls_quote_oid}
use test_enclave_newapi.Enclave.{
  Device, available, fetch_quote, Crypto, Cert, issue, attest, build_cert,
}
use test_enclave_newapi.Enclave.Laws.{Bound, Unbound, build_cert_sound}
use test_enclave_newapi.Control.{SettleReply, http_settle}
use test_enclave_newapi.Control.Laws.{Run, http_settle-Run}
use test_enclave_newapi.Vertex.{
  Minted, TokenCache, cache_key, expiry, minted_token, cached_vertex_token,
}
use test_enclave_newapi.Vertex.Laws.{
  Cached, Renewed, Outdated, cached_vertex_token_sound, cached_vertex_token_reused,
}

abbrev pub device : Device
device = record {
  quote_exists = true;
  report_data_exists = true;
  report_data = [];
  write_fails = false;
  quote_for = λ r. some (1 ∷ r);
}

abbrev pub crypto : Crypto
crypto = record {
  generated_key = some (codes "k");
  marshal_key = λ k. some (codes "spki");
  sha512 = λ m. 5 ∷ m;
  certificate_created = true;
}

abbrev pub cert : Cert
cert = record {
  tls = record {
    extensions = record { id = ra_tls_quote_oid; value = 1 ∷ 5 ∷ codes "spki" } ∷ [];
    spki = codes "spki";
  };
  attested = true;
  quote = 1 ∷ 5 ∷ codes "spki";
  report_data = 5 ∷ codes "spki";
}

pub built : (build_cert crypto device).0 ≡ ok cert
unfolding build_cert available attest fetch_quote issue
built = refl

build_cert_sound_example :
    ((cert.attested ≡ true) × Bound crypto device cert)
    ⊎ ((cert.attested ≡ false) × (available device ≡ false) × Unbound cert)
build_cert_sound_example = build_cert_sound crypto device cert built

-- The first attempt gets no answer, the second a refusal with a reason.
abbrev replies : ℕ → Option SettleReply
replies ℕ.zero = none
replies _ = some (record { is_ok = false; error = codes "no such token" })

http_settle-Run_example : Run replies 0 3 (http_settle replies)
http_settle-Run_example = http_settle-Run replies

abbrev token : Minted
token = record { token = codes "t"; expires_in = pos 3600 }

abbrev email : Bytes
email = codes "a@b"

abbrev scope : Bytes
scope = codes "s"

abbrev empty_cache : TokenCache
empty_cache = []

abbrev filled_cache : TokenCache
filled_cache = (email ++ (0 ∷ scope), record { token = codes "t"; expires_at = pos 3640 }) ∷ []

minted :
    cached_vertex_token email scope (pos 100) (some token) empty_cache
    ≡ (some (codes "t"), filled_cache)
unfolding cached_vertex_token minted_token SortedMap.get SortedMap.set cache_key expiry
minted = refl

cached_vertex_token_sound_example :
    (Cached email scope (pos 100) empty_cache (codes "t") × (filled_cache ≡ empty_cache))
    ⊎ Renewed email scope (pos 100) (some token) filled_cache (codes "t")
cached_vertex_token_sound_example =
    cached_vertex_token_sound email scope (pos 100) (some token) empty_cache filled_cache
      (codes "t") minted

-- The token of the account is to be replaced.
abbrev old_cache : TokenCache
old_cache = (email ++ (0 ∷ scope), record { token = codes "old"; expires_at = pos 90 }) ∷ []

outdated : Outdated email scope (pos 100) old_cache
unfolding SortedMap.get cache_key
outdated = inr (record { token = codes "old"; expires_at = pos 90 }, refl, refl)

cached_vertex_token_reused_example :
    let first = cached_vertex_token email scope (pos 100) (some token) old_cache in
    cached_vertex_token email scope (pos 3000) none first.1 ≡ (some (codes "t"), first.1)
cached_vertex_token_reused_example =
    cached_vertex_token_reused email scope 100 3600 3000 (codes "t") none old_cache refl outdated
      (omega arith) (omega arith) (omega arith)
