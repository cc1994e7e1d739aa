-- ===== src/SortedMap.antt =====
-- Go maps with string keys, held in the order of their keys: the order in which `json.Marshal` and
-- the signer write them.
pub mod Laws
use test_enclave_newapi.Common.{List, [], ◌∷◌, Option, none, some, if◌then◌else◌}
use test_enclave_newapi.Text.{Bytes, str_eq, str_lt}

abbrev pub SortedMap {ℓ} : Type ℓ → Type ℓ
SortedMap V = List (Bytes × V)

module _ {ℓ} {V : Type ℓ} where
  unfoldable pub set : Bytes → V → SortedMap V → SortedMap V
  unfolding str_eq str_lt
  set k v [] = (k, v) ∷ []
  set k v ((l, u) ∷ m) =
      if str_eq k l
      then (k, v) ∷ m
      else if str_lt k l
      then (k, v) ∷ (l, u) ∷ m
      else (l, u) ∷ set k v m

  unfoldable pub get : Bytes → SortedMap V → Option V
  unfolding str_eq
  get k [] = none
  get k ((l, u) ∷ m) = if str_eq k l then some u else get k m

  unfoldable pub keys : SortedMap V → List Bytes
  keys [] = []
  keys ((k, v) ∷ m) = k ∷ keys m
