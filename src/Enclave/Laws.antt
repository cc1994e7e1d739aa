-- ===== src/Enclave/Laws.antt =====
-- pkg/raenclave, `BuildCert`: what an attested certificate shows to a client.
use test_enclave_newapi.Common.{
  ◌≡◌, refl, ◌⊎◌, inl, inr, true, false, [], none, some, ok, ok_inj, Bool-cases, Option-cases,
}
use test_enclave_newapi.Text.{Bytes}
use test_enclave_newapi.Url.Percent.{is_empty}
use test_enclave_newapi.Verify.{quote_in}
use test_enclave_newapi.Enclave.{
  Device, available, fetch_quote, Crypto, Cert, issue, attest, build_cert,
}

-- The certificate carries a quote that the device made for the digest of the certificate's key, and
-- a client finds this quote in it.
pub record Bound (c : Crypto) (d : Device) (cert : Cert) : Type 0 where
  pub device : available d ≡ true
  pub report : cert.report_data ≡ c.sha512 cert.tls.spki
  pub quoted : d.quote_for cert.report_data ≡ some cert.quote
  pub found : quote_in cert.tls.extensions ≡ some cert.quote

-- The certificate makes no claim: it has no quote, and a client finds none.
pub record Unbound (cert : Cert) : Type 0 where
  pub report : is_empty cert.quote ≡ true
  pub found : quote_in cert.tls.extensions ≡ none

issue_attested :
    (c : Crypto) (d : Device) (spki q : Bytes) (cert : Cert)
    → available d ≡ true
    → d.quote_for (c.sha512 spki) ≡ some q
    → is_empty q ≡ false
    → issue c spki true q ≡ ok cert
    → (cert.attested ≡ true) × Bound c d cert
unfolding issue quote_in
issue_attested c d spki q cert a e n h = elim (Bool-cases c.certificate_created) [
  | inr f ↦ absurd (cc (rw (f, issue) at h))
  | inl y ↦
      let g = ok_inj (rw (y, issue) at h) in
      rw (← g) (refl, record { device = a; report = refl; quoted = e; found = rw n refl })
]

issue_unattested :
    (c : Crypto) (spki : Bytes) (cert : Cert)
    → issue c spki false [] ≡ ok cert
    → (cert.attested ≡ false) × Unbound cert
unfolding issue quote_in
issue_unattested c spki cert h = elim (Bool-cases c.certificate_created) [
  | inr f ↦ absurd (cc (rw (f, issue) at h))
  | inl y ↦
      let g = ok_inj (rw (y, issue) at h) in rw (← g) (refl, record { report = refl; found = refl })
]

attest_sound :
    (c : Crypto) (d : Device) (spki : Bytes) (cert : Cert)
    → available d ≡ true
    → (attest c spki (fetch_quote (c.sha512 spki) d)).0 ≡ ok cert
    → (cert.attested ≡ true) × Bound c d cert
unfolding attest fetch_quote
attest_sound c d spki cert a h = elim (Bool-cases d.write_fails) [
  | inl y ↦ absurd (cc (rw (y, fetch_quote) at h))
  | inr n ↦ elim (Option-cases (d.quote_for (c.sha512 spki))) [
    | inl m ↦ absurd (cc (rw (n, m, fetch_quote) at h))
    | inr (q, e) ↦ elim (Bool-cases (is_empty q)) [
      | inl y ↦ absurd (cc (rw (n, e, y, fetch_quote) at h))
      | inr f ↦ issue_attested c d spki q cert a e f (rw (n, e, f, fetch_quote) at h)
    ]
  ]
]

-- A certificate that is built is either attested, and then it carries a quote that the device made
-- for the digest of the certificate's own key and that a client finds in it, or it is not attested,
-- and then the device is not there and the certificate carries no quote.
pub build_cert_sound :
    (c : Crypto) (d : Device) (cert : Cert)
    → (build_cert c d).0 ≡ ok cert
    → ((cert.attested ≡ true) × Bound c d cert)
      ⊎ ((cert.attested ≡ false) × (available d ≡ false) × Unbound cert)
unfolding build_cert
build_cert_sound c d cert h = elim (Option-cases c.generated_key) [
  | inl n ↦ absurd (cc (rw (n, build_cert) at h))
  | inr (key, e) ↦ elim (Option-cases (c.marshal_key key)) [
    | inl n ↦ absurd (cc (rw (e, n, build_cert) at h))
    | inr (spki, f) ↦ elim (Bool-cases (available d)) [
      | inl a ↦ inl (attest_sound c d spki cert a (rw (e, f, a, build_cert) at h))
      | inr a ↦
          let (x, y) = issue_unattested c spki cert (rw (e, f, a, build_cert) at h) in inr (x, a, y)
    ]
  ]
]
