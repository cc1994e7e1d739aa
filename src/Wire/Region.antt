-- ===== src/Wire/Region.antt =====
-- pkg/relaycontrol/wire.go: the AWS region pattern and `SplitModelRegion`.
pub mod Laws
use test_enclave_newapi.Common.{
  ◌≡◌, refl, Bool, true, false, not, ◌||◌, [], ◌∷◌, Option, none, some, if◌then◌else◌,
}
use test_enclave_newapi.Text.{Bytes, codes, last_cut}
use test_enclave_newapi.Url.Percent.{is_empty}
use test_enclave_newapi.Regex.{Regex, range, cat, literal, plus, optional, matches}

abbrev lower : Regex
lower = range b'a' b'z'

-- `^[a-z]{2}(?:-gov)?-[a-z]+-\d+$`
abbrev pub aws_region_pattern : Regex
aws_region_pattern = cat lower (
    cat lower (
      cat (optional (literal (codes "-gov"))) (
        cat (literal (codes "-"))
          (cat (plus lower) (cat (literal (codes "-")) (plus (range b'0' b'9')))))))

-- Model and region of `<model>@<region>`; none where `ok` is false and the name stays whole.
unfoldable pub split_model_region : Bytes → Option (Bytes × Bytes)
split_model_region name = elim (last_cut name b'@') [
  | none ↦ none
  | some (model, region) ↦
      if is_empty model || not (matches aws_region_pattern region)
      then none
      else some (model, region)
]

regions :
    (split_model_region (codes "m:0@us-gov-west-1") ≡ some (codes "m:0", codes "us-gov-west-1"))
    × (split_model_region (codes "a@b@eu-west-12") ≡ some (codes "a@b", codes "eu-west-12"))
    × (split_model_region (codes "m@evil.com/x") ≡ none)
    × (split_model_region (codes "@us-east-1") ≡ none)
unfolding split_model_region last_cut matches
regions = (refl, refl, refl, refl)
