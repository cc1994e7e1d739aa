-- ===== src/SortedMap/Laws.antt =====
-- What is read from a map after one key is set; the order of the map's keys does not matter here.
use test_enclave_newapi.Common.{◌≡◌, refl, inl, inr, false, [], ◌∷◌, some, Bool-cases}
use test_enclave_newapi.Text.{Bytes, str_eq, str_lt}
use test_enclave_newapi.Text.Laws.{str_eq_refl, eq_of_str_eq}
use test_enclave_newapi.SortedMap.{SortedMap, set, get}

module _ {ℓ} {V : Type ℓ} where
  pub get-set : (k : Bytes) (v : V) (m : SortedMap V) → get k (set k v m) ≡ some v
  unfolding get set
  get-set k v [] = rw (str_eq_refl k) refl
  get-set k v ((l, u) ∷ m) = elim (Bool-cases (str_eq k l)) [
    | inl y ↦ rw (y, str_eq_refl k) refl
    | inr n ↦ elim (Bool-cases (str_lt k l)) [
      | inl y ↦ rw (n, y, str_eq_refl k) refl
      | inr f ↦ rw (n, f, n) (get-set k v m)
    ]
  ]

  pub get-set_other :
      (j k : Bytes) (v : V) (m : SortedMap V) → str_eq j k ≡ false → get j (set k v m) ≡ get j m
  unfolding get set
  get-set_other j k v [] h = rw h refl
  get-set_other j k v ((l, u) ∷ m) h = elim (Bool-cases (str_eq k l)) [
    | inl y ↦ let g : str_eq j l ≡ false = rw (← eq_of_str_eq k l y) h in rw (y, h, g) refl
    | inr n ↦ elim (Bool-cases (str_lt k l)) [
      | inl y ↦ rw (n, y, h) refl
      | inr f ↦ rw (n, f, get-set_other j k v m h) refl
    ]
  ]
