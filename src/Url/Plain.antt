-- ===== src/Url/Plain.antt =====
-- `net/url` on host names of letters, digits, dots and dashes: they are read as they are.
use test_enclave_newapi.Common.{
  ℕ, ◌≡◌, refl, ap, ◌∙◌, Bool, true, false, ◌||◌, [], ◌∷◌, some, arith, ◌==◌, All,
}
use test_enclave_newapi.Text.{Bytes}
use test_enclave_newapi.Text.Laws.{Lacks}
use test_enclave_newapi.Text.Cuts.{last_cut_of_Lacks}
use test_enclave_newapi.Url.Percent.{Mode, is_alnum, refused, should_escape_host, push, unescape}
use test_enclave_newapi.Url.Address.{parse_host, parse_authority}

abbrev pub is_plain : ℕ → Bool
is_plain c = is_alnum c || c == b'-' || c == b'.'

abbrev pub Plain : Bytes → Type 0
Plain s = All (λ c. is_plain c ≡ true) s

no_percent : (c : ℕ) → is_plain c ≡ true → (c == b'%') ≡ false
no_percent c h = ground arith

not_refused : (c : ℕ) → is_plain c ≡ true → refused Mode.host c ≡ false
unfolding refused should_escape_host
not_refused c h = ground arith

plain_step :
    (c : ℕ) (s : Bytes)
    → is_plain c ≡ true
    → unescape Mode.host (c ∷ s) ≡ push c (unescape Mode.host s)
unfolding unescape
plain_step c [] h = rw (unescape, no_percent c h, not_refused c h) refl
plain_step c (d ∷ []) h = rw (unescape, no_percent c h, not_refused c h) refl
plain_step c (d ∷ e ∷ s) h = rw (unescape, no_percent c h, not_refused c h) refl

unescape-Plain : (s : Bytes) → Plain s → unescape Mode.host s ≡ some s
unfolding unescape
unescape-Plain [] h = refl
unescape-Plain (c ∷ s) (p, h) = plain_step c s p ∙ ap (push c) (unescape-Plain s h)

pub Plain-Lacks : (b : ℕ) (s : Bytes) → is_plain b ≡ false → Plain s → Lacks b s
Plain-Lacks b [] n h = tt
Plain-Lacks b (c ∷ s) n (p, h) = (λ e. absurd (cc (rw e at p, n)), Plain-Lacks b s n h)

-- A plain host name is its own authority.
pub parse_authority-Plain : (s : Bytes) → Plain s → parse_authority s ≡ some s
unfolding parse_authority parse_host
parse_authority-Plain s h =
    rw
      (
        parse_authority,
        last_cut_of_Lacks s b'@' (Plain-Lacks b'@' s refl h),
        parse_host,
        last_cut_of_Lacks s b'[' (Plain-Lacks b'[' s refl h),
        last_cut_of_Lacks s b':' (Plain-Lacks b':' s refl h),
      )
      (unescape-Plain s h)
