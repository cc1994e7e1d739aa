-- ===== src/Official/SigV4.antt =====
-- pkg/officialurls/sigv4.go: AWS Signature Version 4. SHA-256 and HMAC are Go's crypto packages, and
-- parameters here; the signing time is its text in the format 20060102T150405Z.
pub mod Sign
pub mod Encoding
pub mod Ordering
use test_enclave_newapi.Common.{
  ℕ, ◌/◌, ◌%◌, ◌≡◌, refl, Bool, true, false, not, ◌&&◌, ◌||◌, List, [], ◌∷◌, ◌++◌, Option, none,
  some, if◌then◌else◌, ◌==◌, map, take, drop, ltb, ◌+◌, ◌-◌,
}
use test_enclave_newapi.Text.{
  Bytes, codes, str_eq, str_lt, split, join, trim_space, to_lower, cut, is_upper_byte,
  is_lower_byte, is_digit_byte,
}
use test_enclave_newapi.SortedMap
use test_enclave_newapi.SortedMap.{SortedMap}
use test_enclave_newapi.Url.{Url}
use test_enclave_newapi.Url.Percent.{upper_hex, other, one_of, is_empty, unescape}
use test_enclave_newapi.Headers.{Headers}

unfoldable pub is_unreserved : ℕ → Bool
is_unreserved c =
    is_upper_byte c
    || is_lower_byte c
    || is_digit_byte c
    || c == b'-'
    || c == b'.'
    || c == b'_'
    || c == b'~'

-- What is written for one byte.
unfoldable pub encode_byte : Bool → ℕ → Bytes
unfolding is_unreserved
encode_byte encode_slash c =
    if is_unreserved c
    then c ∷ []
    else if c == b'/' && not encode_slash
    then c ∷ []
    else b'%' ∷ upper_hex (c / 16) ∷ upper_hex (c % 16) ∷ []

unfoldable pub aws_uri_encode : Bytes → Bool → Bytes
unfolding encode_byte
aws_uri_encode [] encode_slash = []
aws_uri_encode (c ∷ s) encode_slash = encode_byte encode_slash c ++ aws_uri_encode s encode_slash

unfoldable pub canonical_uri_path : Bytes → Bytes
unfolding aws_uri_encode split join
canonical_uri_path path =
    if is_empty path
    then codes "/"
    else join (map (λ s. aws_uri_encode s true) (split path b'/')) (codes "/")

-- `url.QueryUnescape`, or the text itself where that fails.
unfoldable pub query_unescape : Bytes → Bytes
unfolding unescape
query_unescape s = elim (unescape other (map (λ c. if c == b'+' then b' ' else c) s)) [
  | none ↦ s
  | some t ↦ t
]

unfoldable pub query_pair : Bytes → Bytes × Bytes
unfolding query_unescape aws_uri_encode cut
query_pair part = elim (cut part b'=') [
  | none ↦ (aws_uri_encode (query_unescape part) true, aws_uri_encode (query_unescape []) true)
  | some (k, v) ↦ (aws_uri_encode (query_unescape k) true, aws_uri_encode (query_unescape v) true)
]

unfoldable pub pair_before : Bytes × Bytes → Bytes × Bytes → Bool
unfolding str_eq str_lt
pair_before (k, v) (l, u) = if str_eq k l then str_lt v u else str_lt k l

-- `sort.Slice`, as an insertion sort.
unfoldable pub insert_pair : Bytes × Bytes → List (Bytes × Bytes) → List (Bytes × Bytes)
unfolding pair_before
insert_pair p [] = p ∷ []
insert_pair p (q ∷ ps) = if pair_before q p then q ∷ insert_pair p ps else p ∷ q ∷ ps

unfoldable pub sort_pairs : List (Bytes × Bytes) → List (Bytes × Bytes)
unfolding insert_pair
sort_pairs [] = []
sort_pairs (p ∷ ps) = insert_pair p (sort_pairs ps)

unfoldable pub query_pairs : List Bytes → List (Bytes × Bytes)
unfolding query_pair
query_pairs [] = []
query_pairs (part ∷ parts) =
    if is_empty part then query_pairs parts else query_pair part ∷ query_pairs parts

unfoldable pub canonical_query_string : Bytes → Bytes
unfolding sort_pairs query_pairs split join
canonical_query_string raw =
    if is_empty raw
    then []
    else join (map (λ p. p.0 ++ (b'=' ∷ p.1)) (sort_pairs (query_pairs (split raw b'&'))))
        (codes "&")

unfoldable pub lower_headers : Headers → SortedMap Bytes
unfolding to_lower trim_space SortedMap.set
lower_headers [] = []
lower_headers ((k, v) ∷ h) = SortedMap.set (to_lower k) (trim_space v) (lower_headers h)

-- The map `values` of `canonicalizeHeaders`.
unfoldable pub signed_values : Headers → Bytes → SortedMap Bytes
unfolding lower_headers trim_space SortedMap.set
signed_values h host = SortedMap.set (codes "host") (trim_space host) (lower_headers h)

unfoldable pub header_lines : SortedMap Bytes → Bytes
header_lines [] = []
header_lines ((k, v) ∷ m) = k ++ (b':' ∷ (v ++ (10 ∷ header_lines m)))

unfoldable pub canonicalize_headers : Headers → Bytes → Bytes × Bytes
unfolding signed_values header_lines SortedMap.keys join
canonicalize_headers h host =
    (header_lines (signed_values h host), join (SortedMap.keys (signed_values h host)) (codes ";"))

encoded :
    (aws_uri_encode (codes "a b/~:") true ≡ codes "a%20b%2F~%3A")
    × (canonical_uri_path (codes "/model/m:0/invoke") ≡ codes "/model/m%3A0/invoke")
    × (canonical_query_string (codes "b=2&a=x+y&&a=1") ≡ codes "a=1&a=x%20y&b=2")
unfolding aws_uri_encode canonical_uri_path canonical_query_string
encoded = (refl, refl, refl)
