-- ===== src/Wire/Images.antt =====
-- pkg/relaycontrol/wire.go: `PeekImageParams` and `PeekImageCount`.
use test_enclave_newapi.Common.{
  ℕ, pos, negsuc, ◌≤◌, ◌≡◌, refl, Bool, false, [], List, Option, none, some, ltb, leb,
  if◌then◌else◌, length, arith,
}
use test_enclave_newapi.Text.{Bytes, codes}
use test_enclave_newapi.Url.Percent.{is_empty}
use test_enclave_newapi.Json.Tree.{Json, null, num, str}
use test_enclave_newapi.Json.Scan.{parse_json, scan_number}
use test_enclave_newapi.Json.Strings.{key_is, unquote}
use test_enclave_newapi.Json.Decode.{
  parse_int64, decode_string, decode_bool, decode_struct, decode_slice,
}
use test_enclave_newapi.Wire.Messages.{max_image_n}
use test_enclave_newapi.Wire.Usage.{store}

pub record ImageParamsPeek : Type 0 where
  pub size : Bytes
  pub quality : Bytes
  pub n : Bytes
  pub stream : Bool

-- A `json.Number` field takes a number literal, or a string that spells one.
unfoldable pub decode_number : Json → Bytes → Option Bytes
unfolding unquote scan_number
decode_number (num s) cur = some s
decode_number (str s) cur = elim (scan_number (unquote s)) [
  | none ↦ none
  | some (t, rest) ↦ if is_empty rest then some t else none
]
decode_number null cur = some cur
decode_number _ cur = none

unfoldable pub set_image : Bytes → Json → ImageParamsPeek → Option ImageParamsPeek
unfolding key_is decode_string decode_bool decode_number
set_image k j p =
    if key_is (codes "size") k
    then store (decode_string j p.size) (λ v. record p { size = v })
    else if key_is (codes "quality") k
    then store (decode_string j p.quality) (λ v. record p { quality = v })
    else if key_is (codes "n") k
    then store (decode_number j p.n) (λ v. record p { n = v })
    else if key_is (codes "stream") k
    then store (decode_bool j p.stream) (λ v. record p { stream = v })
    else some p

pub record ImageParams : Type 0 where
  pub size : Bytes
  pub quality : Bytes
  pub n : ℕ
  pub stream : Bool

-- The bounded image count.
unfoldable pub clamp_n : Bytes → ℕ
unfolding parse_int64
clamp_n text = elim (parse_int64 text) [
  | none ↦ 1
  | some v ↦ elim v [
    | pos m ↦ if ltb max_image_n m then max_image_n else if leb 1 m then m else 1
    | negsuc m ↦ 1
  ]
]

unfoldable pub decode_image_params : Bytes → Option ImageParamsPeek
unfolding parse_json decode_struct set_image
decode_image_params body = elim (parse_json body) [
  | none ↦ none
  | some j ↦ decode_struct set_image j (record { size = []; quality = []; n = []; stream = false })
]

unfoldable pub image_params : Option ImageParamsPeek → ImageParams
image_params none = record { size = []; quality = []; n = 1; stream = false }
image_params (some p) = record {
  size = p.size;
  quality = p.quality;
  n = clamp_n p.n;
  stream = p.stream;
}

unfoldable pub peek_image_params : Bytes → ImageParams
peek_image_params body = image_params (decode_image_params body)

abbrev pub ignore_key : Bytes → Json → Unit {0} → Option (Unit {0})
ignore_key k j u = some u

unfoldable pub set_data : Bytes → Json → List (Unit {0}) → Option (List (Unit {0}))
unfolding key_is decode_slice decode_struct
set_data k j d =
    if key_is (codes "data") k then decode_slice (λ e. decode_struct ignore_key e tt) j else some d

unfoldable pub decode_images : Bytes → Option (List (Unit {0}))
unfolding parse_json decode_struct set_data
decode_images body = elim (parse_json body) [ none ↦ none | some j ↦ decode_struct set_data j [] ]

unfoldable pub image_count : Option (List (Unit {0})) → ℕ
image_count none = 0
image_count (some d) = if ltb max_image_n (length d) then max_image_n else length d

unfoldable pub peek_image_count : Bytes → ℕ
peek_image_count body = image_count (decode_images body)

images :
    ((peek_image_params (codes "{\"prompt\":\"x\",\"n\":-4}")).n ≡ 1)
    × ((peek_image_params (codes "{\"n\":99999999999}")).n ≡ 128)
    × ((peek_image_params (codes "{\"n\":\"3\",\"size\":\"1x1\"}")).n ≡ 3)
    × (peek_image_count (codes "{\"data\":[{\"url\":\"u\"},{\"b64_json\":\"b\"}]}") ≡ 2)
    × (peek_image_count (codes "{\"data\":[1]}") ≡ 0)
unfolding peek_image_params peek_image_count decode_image_params image_params clamp_n decode_images
    image_count
images = (refl, refl, refl, refl, refl)

clamp_n_bounds : (text : Bytes) → (1 ≤ clamp_n text) × (clamp_n text ≤ max_image_n)
unfolding clamp_n
clamp_n_bounds text = ground arith

image_params_bounds :
    (p : Option ImageParamsPeek) → (1 ≤ (image_params p).n) × ((image_params p).n ≤ max_image_n)
unfolding image_params
image_params_bounds none = omega arith
image_params_bounds (some p) = clamp_n_bounds p.n

image_count_bound : (d : Option (List (Unit {0}))) → image_count d ≤ max_image_n
unfolding image_count
image_count_bound none = omega arith
image_count_bound (some d) = ground arith

-- The image counts that can be billed lie in their bounds, whatever client and upstream send: the
-- request's n is at least 1 and at most MaxImageN, the response's count at most MaxImageN.
pub image_counts_bounded :
    (request response : Bytes)
    → (1 ≤ (peek_image_params request).n)
      × ((peek_image_params request).n ≤ max_image_n)
      × (peek_image_count response ≤ max_image_n)
unfolding peek_image_params peek_image_count
image_counts_bounded request response =
    let (low, high) = image_params_bounds (decode_image_params request) in
    (low, high, image_count_bound (decode_images response))
