-- ===== src/Server/Attested.antt =====
-- cmd/relay-core/server.go, `/attestation`: what a client reads out of its answer.
use test_enclave_newapi.Common.{
  ℕ, suc, pos, ◌+◌, ◌-◌, ◌/◌, ◌%◌, ◌<◌, ◌≡◌, refl, sym, ap, ◌∙◌, inl, inr, true, List, [], ◌∷◌,
  ◌++◌, Option, some, arith, ok, All, All-append, Bool-cases, length, ◌==◌, append-nil,
  append_assoc,
}
use test_enclave_newapi.Text.{Bytes, codes}
use test_enclave_newapi.Base64.{standard, character, encode_raw, decode, padding}
use test_enclave_newapi.Base64.Laws.{All-encode_raw, decode-encode_std}
use test_enclave_newapi.Json.Tree.{Json, bool, str, obj, Fields, end, field}
use test_enclave_newapi.Json.Scan.{parse_json, value, members, max_depth}
use test_enclave_newapi.Json.Members.{IsPlain, text-IsPlain, last_member, next_member}
use test_enclave_newapi.Json.Octets.{AllBytes}
use test_enclave_newapi.Verify.{hex_decode}
use test_enclave_newapi.Relay.Tokens.{hex_char}
use test_enclave_newapi.Relay.Tokens.Laws.{hex_decode-hex_encode}
use test_enclave_newapi.Relay.World.{
  World, Session, content_type, start, note, write_header, is_status_code, write,
}
use test_enclave_newapi.Relay.Verbatim.{sent_bytes, joined, write-sent}
use test_enclave_newapi.Enclave.{Cert, Crypto, Device, build_cert}
use test_enclave_newapi.Enclave.Laws.{build_cert_sound}
use test_enclave_newapi.Server.Handler.{
  b64, hexstr, attestation_texts, write_each, serve_attestation,
}

abbrev Plain : Bytes → Type 0
Plain = All IsPlain

character-IsPlain : (v : ℕ) → IsPlain (character standard v)
character-IsPlain v = ground arith

padding-Plain : (n : ℕ) → Plain (padding n)
padding-Plain n = elim (Bool-cases (n % 3 == 1)) [
  | inl y ↦ rw y (refl, (refl, tt))
  | inr f ↦ elim (Bool-cases (n % 3 == 2)) [ inl y ↦ rw (f, y) (refl, tt) | inr g ↦ rw (f, g) tt ]
]

b64-Plain : (s : Bytes) → Plain (b64 s)
unfolding b64
b64-Plain s =
    All-append IsPlain (encode_raw standard s) (padding (length s))
      (All-encode_raw IsPlain standard character-IsPlain s) (padding-Plain (length s))

hex_char-IsPlain : (h : ℕ) → h < 16 → IsPlain (hex_char h)
hex_char-IsPlain h b = ground arith

hexstr-Plain : (s : Bytes) → AllBytes s → Plain (hexstr s)
unfolding hexstr
hexstr-Plain [] h = tt
hexstr-Plain (c ∷ s) (b, h) = (
  hex_char-IsPlain (c / 16) (omega (arith, b)),
  (hex_char-IsPlain (c % 16) (omega arith), hexstr-Plain s h),
)

abbrev pub members_of : Bytes → Bytes → Fields
members_of quote report =
    field (codes "attested") (bool true)
      (field (codes "quote_b64") (str quote) (field (codes "report_data_hex") (str report) end))

abbrev body_of : Bytes → Bytes → Bytes
body_of quote report =
    codes "{\"attested\":true,\"quote_b64\":\""
    ++ (quote ++ (codes "\",\"report_data_hex\":\"" ++ (report ++ codes "\"}")))

body-members :
    (f d : ℕ) (quote report : Bytes)
    → Plain quote
    → Plain report
    → value (suc (suc (suc (suc (suc f))))) (suc d) (body_of quote report)
      ≡ some (obj (members_of quote report), [])
unfolding value
body-members f d quote report p q =
    let key : Bytes = codes "report_data_hex" in
    let last = last_member f d key report [] (text-IsPlain key refl) q in
    let next =
      next_member (suc f) d (codes "quote_b64") quote
        (b'"' ∷ (key ++ (codes "\":\"" ++ (report ++ codes "\"}")))) [] (field key (str report) end)
        (text-IsPlain (codes "quote_b64") refl) p last in
    rw (next, value, members) refl

parse_of_value :
    (s : Bytes) (j : Json) → value (length s + 1) max_depth s ≡ some (j, []) → parse_json s ≡ some j
unfolding parse_json
parse_of_value s j h = rw (h, parse_json) refl

body-parsed :
    (quote report : Bytes)
    → Plain quote
    → Plain report
    → parse_json (body_of quote report) ≡ some (obj (members_of quote report))
body-parsed quote report p q =
    let n = length (body_of quote report) in
    let fuel : n + 1 ≡ suc (suc (suc (suc (suc (n - 4))))) = omega arith in
    parse_of_value (body_of quote report) (obj (members_of quote report)) (
      ap (λ f. value f max_depth (body_of quote report)) fuel
      ∙ body-members (n - 4) 9999 quote report p q)

write_each-sent :
    (w : World) (bs : List Bytes) (s : Session)
    → sent_bytes (write_each w bs s).events ≡ sent_bytes s.events ++ joined bs
unfolding write_each
write_each-sent w [] s = sym (append-nil (sent_bytes s.events))
write_each-sent w (b ∷ bs) s =
    write_each-sent w bs (write w b s).1
    ∙ (ap (λ x. x ++ joined bs) (write-sent w b s)
        ∙ append_assoc (sent_bytes s.events) b (joined bs))

-- An answer that a client parses, and that has the certificate's quote and report data.
pub record Shown (cert : Cert) (sent : Bytes) : Type 0 where
  pub quote_b64 : Bytes
  pub report_data_hex : Bytes
  pub parsed : parse_json sent ≡ some (obj (members_of quote_b64 report_data_hex))
  pub quote : decode standard quote_b64 ≡ some cert.quote
  pub report : hex_decode report_data_hex ≡ some cert.report_data

texts-body :
    (cert : Cert)
    → cert.attested ≡ true
    → joined (attestation_texts (some cert)) ≡ body_of (b64 cert.quote) (hexstr cert.report_data)
unfolding attestation_texts
texts-body cert h = rw h refl

sent_by_attestation :
    (w : World) (cert : Option Cert)
    → sent_bytes (serve_attestation w cert start).events ≡ joined (attestation_texts cert)
unfolding serve_attestation write_header is_status_code
sent_by_attestation w cert =
    write_each-sent w (attestation_texts cert)
      (write_header (pos 200) (note (content_type (codes "application/json")) start))

attested-Shown :
    (w : World) (cert : Cert)
    → cert.attested ≡ true
    → AllBytes cert.quote
    → AllBytes cert.report_data
    → Shown cert (sent_bytes (serve_attestation w (some cert) start).events)
unfolding b64 hexstr
attested-Shown w cert h p q = record {
  quote_b64 = b64 cert.quote;
  report_data_hex = hexstr cert.report_data;
  parsed =
      ap parse_json (sent_by_attestation w (some cert) ∙ texts-body cert h)
      ∙ body-parsed (b64 cert.quote) (hexstr cert.report_data) (b64-Plain cert.quote)
          (hexstr-Plain cert.report_data q);
  quote = decode-encode_std cert.quote p;
  report = hex_decode-hex_encode cert.report_data q;
}

-- For an attested certificate that BuildCert has built, whose quote and digest are bytes, the answer
-- of /attestation is a JSON object from which a client decodes the certificate's quote and report
-- data; the quote is the device's for the SHA-512 of the certificate's key, which is the report data.
pub serve_attestation-Shown :
    (w : World) (c : Crypto) (d : Device) (cert : Cert)
    → (build_cert c d).0 ≡ ok cert
    → cert.attested ≡ true
    → AllBytes cert.quote
    → AllBytes cert.report_data
    → Shown cert (sent_bytes (serve_attestation w (some cert) start).events)
      × (d.quote_for cert.report_data ≡ some cert.quote)
      × (cert.report_data ≡ c.sha512 cert.tls.spki)
serve_attestation-Shown w c d cert h a p q = elim (build_cert_sound c d cert h) [
  | inl (_, b) ↦ (attested-Shown w cert a p q, b.quoted, b.report)
  | inr (n, _, _) ↦ absurd (cc (a, n))
]
