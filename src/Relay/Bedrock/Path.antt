-- ===== src/Relay/Bedrock/Path.antt =====
-- cmd/relay-core/aws_bedrock.go, `prepareAWSBedrockRequest`: the URL of a call is parsed as its host and
-- its model.
use test_enclave_newapi.Common.{
  ℕ, ◌/◌, ◌%◌, ◌<◌, ◌≡◌, refl, ap, ◌∙◌, inl, inr, Bool, true, false, ◌||◌, [], ◌∷◌, ◌++◌, some,
  arith, ◌==◌, Bool-cases, All, All-append,
}
use test_enclave_newapi.Text.{Bytes, codes}
use test_enclave_newapi.Url.{Url, parse}
use test_enclave_newapi.Url.Laws.{https}
use test_enclave_newapi.Url.Percent.{is_alnum, one_of, upper_hex, other, push, unescape}
use test_enclave_newapi.Url.Written.{Quiet, is_quiet, constant-Quiet, parse-address}
use test_enclave_newapi.Official.SigV4.Encoding.{unescape-plain, unescape-triple}
use test_enclave_newapi.Verify.Comparison.{IsByte}
use test_enclave_newapi.Relay.Bedrock.Call.{bedrock_host, bedrock_url, path_escape}
use test_enclave_newapi.Relay.Bedrock.Prepared.{IsRegion}
use test_enclave_newapi.Relay.Bedrock.Region.{bedrock_host-Plain}

abbrev is_kept : ℕ → Bool
is_kept c = is_alnum c || one_of (codes "-_.~$&+:=@") c

kept_quiet : (c : ℕ) → is_kept c ≡ true → is_quiet c ≡ true
kept_quiet c h = ground arith

kept_plain : (c : ℕ) → is_kept c ≡ true → (c == b'%') ≡ false
kept_plain c h = ground arith

hex_quiet : (h : ℕ) → h < 16 → is_quiet (upper_hex h) ≡ true
hex_quiet h b = ground arith

path_escape-Quiet : (s : Bytes) → All IsByte s → Quiet (path_escape s)
unfolding path_escape
path_escape-Quiet [] h = tt
path_escape-Quiet (c ∷ s) (b, h) = elim (Bool-cases (is_kept c)) [
  | inl y ↦ rw y (kept_quiet c y, path_escape-Quiet s h)
  | inr n ↦ rw n (
    refl,
    (
      hex_quiet (c / 16) (omega (arith, b)),
      (hex_quiet (c % 16) (omega (arith, b)), path_escape-Quiet s h),
    ),
  )
]

-- An escaped model, and what follows it, is read back.
unescape-path_escape :
    (s t u : Bytes)
    → All IsByte s
    → unescape other t ≡ some u
    → unescape other (path_escape s ++ t) ≡ some (s ++ u)
unfolding path_escape
unescape-path_escape [] t u h e = e
unescape-path_escape (c ∷ s) t u (b, h) e = elim (Bool-cases (is_kept c)) [
  | inl y ↦ rw y (
      unescape-plain c (path_escape s ++ t) (kept_plain c y)
      ∙ ap (push c) (unescape-path_escape s t u h e))
  | inr n ↦
      rw n (unescape-triple c (path_escape s ++ t) b ∙ ap (push c) (unescape-path_escape s t u h e))
]

-- The path of a call, decoded.
abbrev pub model_path : Bytes → Bytes
model_path model = codes "/model/" ++ (model ++ codes "/invoke")

abbrev pub model_url : Bytes → Bytes → Url
model_url host model = record {
  scheme = https;
  opaque = [];
  host = host;
  path = model_path model;
  raw_query = [];
}

invoke_read : unescape other (codes "/invoke") ≡ some (codes "/invoke")
unfolding unescape
invoke_read = refl

behind_model :
    (t u : Bytes)
    → unescape other t ≡ some u
    → unescape other (codes "/model/" ++ t) ≡ some (codes "/model/" ++ u)
behind_model t u e =
    unescape-plain b'/' _ refl
    ∙ ap (push b'/') (
        unescape-plain b'm' _ refl
        ∙ ap (push b'm') (
            unescape-plain b'o' _ refl
            ∙ ap (push b'o') (
                unescape-plain b'd' _ refl
                ∙ ap (push b'd') (
                    unescape-plain b'e' _ refl
                    ∙ ap (push b'e') (
                        unescape-plain b'l' _ refl
                        ∙ ap (push b'l') (unescape-plain b'/' _ refl ∙ ap (push b'/') e))))))

-- The URL that is put together for a region and a model is parsed as this host and the path of this
-- model, whatever bytes the model has.
pub parse-bedrock_url :
    (r model : Bytes)
    → IsRegion r
    → All IsByte model
    → parse (bedrock_url (bedrock_host r) model) ≡ some (model_url (bedrock_host r) model)
unfolding bedrock_url
parse-bedrock_url r model k b =
    parse-address (bedrock_host r) (codes "model/" ++ (path_escape model ++ codes "/invoke"))
      (model_path model) (bedrock_host-Plain r k)
      (All-append (λ c. is_quiet c ≡ true) (codes "model/") (path_escape model ++ codes "/invoke")
        (constant-Quiet (codes "model/") refl)
        (All-append (λ c. is_quiet c ≡ true) (path_escape model) (codes "/invoke")
          (path_escape-Quiet model b) (constant-Quiet (codes "/invoke") refl)))
      (behind_model (path_escape model ++ codes "/invoke") (model ++ codes "/invoke")
        (unescape-path_escape model (codes "/invoke") (codes "/invoke") b invoke_read))
