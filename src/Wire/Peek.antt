-- ===== src/Wire/Peek.antt =====
-- pkg/relaycontrol/wire.go: `PeekRequest` reads the routing scalars of a request body.
use test_enclave_newapi.Common.{
  Bool, true, false, [], ◌≡◌, refl, Option, none, some, if◌then◌else◌, Result, ok, err,
}
use test_enclave_newapi.Text.{Bytes, codes}
use test_enclave_newapi.Url.Percent.{is_empty}
use test_enclave_newapi.Json.Tree.{Json}
use test_enclave_newapi.Json.Scan.{parse_json}
use test_enclave_newapi.Json.Strings.{key_is}
use test_enclave_newapi.Json.Decode.{decode_string, decode_bool, decode_struct}

pub record RequestPeek : Type 0 where
  pub model : Bytes
  pub stream : Bool

unfoldable pub set_request : Bytes → Json → RequestPeek → Option RequestPeek
unfolding key_is decode_string decode_bool
set_request k j p =
    if key_is (codes "model") k
    then elim (decode_string j p.model) [ none ↦ none | some m ↦ some (record p { model = m }) ]
    else if key_is (codes "stream") k
    then elim (decode_bool j p.stream) [ none ↦ none | some b ↦ some (record p { stream = b }) ]
    else some p

pub data PeekError : Type 0 where
  bad_json no_model : PeekError

unfoldable pub peek_tree : Json → Option RequestPeek
unfolding set_request decode_struct
peek_tree j = decode_struct set_request j (record { model = []; stream = false })

unfoldable pub peek_request : Bytes → Result PeekError RequestPeek
unfolding parse_json peek_tree
peek_request body = elim (parse_json body) [
  | none ↦ err bad_json
  | some j ↦ elim (peek_tree j) [
    | none ↦ err bad_json
    | some p ↦ if is_empty p.model then err no_model else ok p
  ]
]

peeked :
    (peek_request (codes "{\"messages\":[{\"content\":\"model\"}],\"stream\":true,\"Model\":\"m\"}")
      ≡ ok (record { model = codes "m"; stream = true }))
    × (peek_request (codes "{\"stream\":1,\"model\":\"m\"}") ≡ err bad_json)
    × (peek_request (codes "null") ≡ err no_model)
unfolding peek_request
peeked = (refl, refl, refl)
