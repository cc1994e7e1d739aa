-- ===== src/Headers.antt =====
-- `http.Header` with one value for each key.
use test_enclave_newapi.Common.{
  ◌+◌, ◌-◌, Bool, true, not, ◌&&◌, ◌||◌, List, [], ◌∷◌, if◌then◌else◌, ◌==◌, all,
}
use test_enclave_newapi.Text.{Bytes, codes, str_eq, is_lower_byte, is_upper_byte}
use test_enclave_newapi.Url.Percent.{is_alnum, one_of}

abbrev pub Headers : Type 0
Headers = List (Bytes × Bytes)

-- `http.CanonicalHeaderKey`
unfoldable pub canonical_from : Bool → Bytes → Bytes
canonical_from upper [] = []
canonical_from upper (c ∷ s) =
    (if upper && is_lower_byte c
      then c - 32
      else if not upper && is_upper_byte c
      then c + 32
      else c)
    ∷ canonical_from (c == b'-') s

unfoldable pub canonical_key : Bytes → Bytes
unfolding canonical_from
canonical_key k =
    if all (λ c. is_alnum c || one_of (codes "!#$%&'*+-.^_`|~") c) k
    then canonical_from true k
    else k

-- `Header.Set`: the key's old value is replaced.
unfoldable pub header_put : Bytes → Bytes → Headers → Headers
unfolding str_eq
header_put k v [] = (k, v) ∷ []
header_put k v ((j, u) ∷ h) = if str_eq j k then (j, v) ∷ h else (j, u) ∷ header_put k v h

abbrev pub header_set : Bytes → Bytes → Headers → Headers
header_set k v h = header_put (canonical_key k) v h

unfoldable pub header_set_all : Headers → Headers → Headers
unfolding header_put canonical_key
header_set_all [] h = h
header_set_all ((k, v) ∷ more) h = header_set_all more (header_set k v h)
