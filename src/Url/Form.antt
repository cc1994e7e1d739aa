-- ===== src/Url/Form.antt =====
-- `url.Values` with one value per key, and its `Encode`.
use test_enclave_newapi.Common.{
  ◌/◌, ◌%◌, ◌≡◌, refl, Bool, true, ◌||◌, [], ◌∷◌, ◌++◌, ◌==◌, if◌then◌else◌, ℕ, All,
}
use test_enclave_newapi.Text.{Bytes, codes}
use test_enclave_newapi.SortedMap
use test_enclave_newapi.SortedMap.{SortedMap}
use test_enclave_newapi.Url.Percent.{upper_hex, is_alnum, one_of}

-- Not `shouldEscape(c, encodeQueryComponent)`
abbrev pub is_query_safe : ℕ → Bool
is_query_safe c = is_alnum c || one_of (codes "-_.~") c

-- `url.QueryEscape`
unfoldable pub query_escape : Bytes → Bytes
query_escape [] = []
query_escape (c ∷ s) =
    (if is_query_safe c
      then c ∷ []
      else if c == b' '
      then b'+' ∷ []
      else b'%' ∷ upper_hex (c / 16) ∷ upper_hex (c % 16) ∷ [])
    ++ query_escape s

-- `Values.Encode`: in the order of the keys.
unfoldable pub encode_values : SortedMap Bytes → Bytes
unfolding query_escape
encode_values [] = []
encode_values ((k, v) ∷ []) = query_escape k ++ (b'=' ∷ query_escape v)
encode_values ((k, v) ∷ (l, w) ∷ m) =
    query_escape k ++ (b'=' ∷ (query_escape v ++ (b'&' ∷ encode_values ((l, w) ∷ m))))

-- A text without special bytes is written as it is.
pub query_escape_of_safe : (s : Bytes) → All (λ c. is_query_safe c ≡ true) s → query_escape s ≡ s
unfolding query_escape
query_escape_of_safe [] h = refl
query_escape_of_safe (c ∷ s) (p, h) = rw (p, query_escape_of_safe s h, query_escape) refl

form :
    encode_values
      (SortedMap.set (codes "a") (codes "x y") (SortedMap.set (codes "b") (codes "/") []))
    ≡ codes "a=x+y&b=%2F"
unfolding encode_values SortedMap.set
form = refl
