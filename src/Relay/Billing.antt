-- ===== src/Relay/Billing.antt =====
-- cmd/relay-core/dispatch.go, `streamThrough`: the token counts of a stream.
use test_enclave_newapi.Common.{
  ℤ, pos, ◌≡◌, List, [], ◌∷◌, Option, none, some, if◌then◌else◌, int_ltb, add64,
}
use test_enclave_newapi.Text.{Bytes}
use test_enclave_newapi.Wire.Usage.{Usage}
use test_enclave_newapi.Relay.World.{World}
use test_enclave_newapi.Relay.Dispatch.{frame_usage}

abbrev pub add_report : Option Usage → List Usage → List Usage
add_report none us = us
add_report (some u) us = u ∷ us

-- The usage that the lines report, in their order.
abbrev pub reports : List Bytes → List Usage
reports [] = []
reports (line ∷ more) = add_report (frame_usage line) (reports more)

-- The last positive count, looked for from the end.
abbrev pub last_positive : (Usage → ℤ) → List Usage → Option ℤ
last_positive count [] = none
last_positive count (u ∷ us) = elim (last_positive count us) [
  | some n ↦ some n
  | none ↦ if int_ltb (pos 0) (count u) then some (count u) else none
]

abbrev pub or_given : ℤ → Option ℤ → ℤ
or_given given none = given
or_given given (some n) = n

-- The counts of the reports behind those of `acc`.
abbrev pub counts_from : Usage → List Usage → Usage
counts_from acc us = record acc {
  prompt_tokens = or_given acc.prompt_tokens (last_positive (λ u. u.prompt_tokens) us);
  completion_tokens = or_given acc.completion_tokens (last_positive (λ u. u.completion_tokens) us);
  total_tokens = or_given acc.total_tokens (last_positive (λ u. u.total_tokens) us);
}

-- The counts of a stream without an error: each one is the last positive one that is reported, or 0;
-- the total, where none is reported, is the 64-bit sum of the two others; there are no images.
pub record Counted (us : List Usage) (u : Usage) : Type 0 where
  pub prompt : u.prompt_tokens ≡ or_given (pos 0) (last_positive (λ v. v.prompt_tokens) us)
  pub completion :
      u.completion_tokens ≡ or_given (pos 0) (last_positive (λ v. v.completion_tokens) us)
  pub given_total : (n : ℤ) → last_positive (λ v. v.total_tokens) us ≡ some n → u.total_tokens ≡ n
  pub summed_total :
      last_positive (λ v. v.total_tokens) us ≡ none
      → u.total_tokens ≡ add64 u.prompt_tokens u.completion_tokens
  pub images : u.image_count ≡ pos 0
