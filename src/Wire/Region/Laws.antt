-- ===== src/Wire/Region/Laws.antt =====
-- What a model name with a region suffix is split into.
use test_enclave_newapi.Common.{
  ◌≤◌, ◌≡◌, refl, ◌≢◌, ◌↔◌, ◌⊎◌, inl, inr, Bool, true, false, not, ◌||◌, [], ◌∷◌, ◌++◌, Option,
  none, some, arith, if◌then◌else◌, Option-cases, All, ℕ,
}
use test_enclave_newapi.Text.{Bytes, last_cut}
use test_enclave_newapi.Text.Laws.{Lacks}
use test_enclave_newapi.Text.Cuts.{last_cut_sound, last_cut-append}
use test_enclave_newapi.Url.Percent.{is_empty}
use test_enclave_newapi.Regex.{Over, matches, matches-All}
use test_enclave_newapi.Wire.Region.{aws_region_pattern, split_model_region}

-- A byte of a host label.
abbrev pub IsRegionByte : ℕ → Type 0
IsRegionByte c = (c ≡ b'-') ⊎ (((b'a' ≤ c) × (c ≤ b'z')) ⊎ ((b'0' ≤ c) × (c ≤ b'9')))

region-Over : Over IsRegionByte aws_region_pattern
region-Over = omega arith

pub region_bytes : (r : Bytes) → matches aws_region_pattern r ≡ true → All IsRegionByte r
region_bytes r h = matches-All IsRegionByte aws_region_pattern r region-Over h

no_at : (r : Bytes) → matches aws_region_pattern r ≡ true → Lacks b'@' r
no_at r h = matches-All (λ c. c ≢ b'@') aws_region_pattern r (omega arith) h

is_empty-false : (m : Bytes) → m ≢ [] → is_empty m ≡ false
is_empty-false [] h = absurd (h refl)
is_empty-false (c ∷ m) h = refl

ne-nil : (m : Bytes) → is_empty m ≡ false → m ≢ []
ne-nil [] h = cc
ne-nil (c ∷ m) h = cc

split_of_parts :
    (m r : Bytes)
    → m ≢ []
    → matches aws_region_pattern r ≡ true
    → split_model_region (m ++ b'@' ∷ r) ≡ some (m, r)
unfolding split_model_region
split_of_parts m r h e =
    rw (last_cut-append m r b'@' (no_at r e), split_model_region) (rw (is_empty-false m h, e))

guarded :
    (a b : Bool) (m r m' r' : Bytes)
    → if◌then◌else◌ {A = Option (Bytes × Bytes)} (a || not b) none (some (m, r)) ≡ some (m', r')
    → (a ≡ false) × (b ≡ true) × (m ≡ m') × (r ≡ r')
guarded a b m r m' r' h = ground arith

parts_of_split :
    (name m r : Bytes)
    → split_model_region name ≡ some (m, r)
    → (name ≡ m ++ b'@' ∷ r) × (m ≢ []) × (matches aws_region_pattern r ≡ true)
unfolding split_model_region
parts_of_split name m r h = elim (Option-cases (last_cut name b'@')) [
  | inl e ↦ absurd (cc (rw (e, split_model_region) at h))
  | inr ((u, v), e) ↦
      let (full, ok, p, q) =
        guarded (is_empty u) (matches aws_region_pattern v) u v m r
          (rw (e, split_model_region) at h) in
      rw (← p, ← q) ((last_cut_sound name b'@' u v e).0, ne-nil u full, ok)
]

-- A model name is split into a model and a region exactly when it is a non-empty model, an `@`, and
-- a text of the AWS region pattern; the `@` is the last one of the name.
pub split_model_region_iff :
    (name m r : Bytes)
    → (split_model_region name ≡ some (m, r))
      ↔ ((name ≡ m ++ b'@' ∷ r) × (m ≢ []) × (matches aws_region_pattern r ≡ true))
split_model_region_iff name m r =
    (parts_of_split name m r, λ (e, h, k). rw e (split_of_parts m r h k))
