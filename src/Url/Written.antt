-- ===== src/Url/Written.antt =====
-- `url.Parse` of addresses that are written without a query, a fragment and user information.
use test_enclave_newapi.Common.{
  ℕ, ◌≡◌, refl, ◌∙◌, Bool, true, false, not, ◌||◌, [], ◌∷◌, ◌++◌, some, arith, ◌==◌, ltb, all,
  and-eq-true, All, All-append,
}
use test_enclave_newapi.Text.{Bytes, codes, has_prefix, str_eq, to_lower}
use test_enclave_newapi.Text.Laws.{Lacks}
use test_enclave_newapi.Text.Cuts.{before-append, before_of_Lacks, from-append, from_of_Lacks}
use test_enclave_newapi.Url.{
  absent, get_scheme, has_control_byte, with_path, parse_hierarchy, parse_rest, parse_unfragmented,
  parse,
}
use test_enclave_newapi.Url.Laws.{https, address, scheme_found}
use test_enclave_newapi.Url.Percent.{other, unescape}
use test_enclave_newapi.Url.Plain.{Plain, is_plain, Plain-Lacks, parse_authority-Plain}

-- No control byte, and none that starts a query or a fragment.
abbrev pub is_quiet : ℕ → Bool
is_quiet c = not (ltb c 0x20 || c == 0x7f || c == b'?' || c == b'#')

abbrev pub Quiet : Bytes → Type 0
Quiet s = All (λ c. is_quiet c ≡ true) s

quiet_of_plain : (c : ℕ) → is_plain c ≡ true → is_quiet c ≡ true
quiet_of_plain c h = ground arith

Quiet-of_Plain : (s : Bytes) → Plain s → Quiet s
Quiet-of_Plain [] h = tt
Quiet-of_Plain (c ∷ s) (p, h) = (quiet_of_plain c p, Quiet-of_Plain s h)

pub constant-Quiet : (s : Bytes) → all is_quiet s ≡ true → Quiet s
constant-Quiet [] h = tt
constant-Quiet (c ∷ s) h =
    let (p, q) = and-eq-true (is_quiet c) (all is_quiet s) h in (p, constant-Quiet s q)

Quiet-Lacks : (b : ℕ) (s : Bytes) → is_quiet b ≡ false → Quiet s → Lacks b s
Quiet-Lacks b [] n h = tt
Quiet-Lacks b (c ∷ s) n (p, h) = (λ e. absurd (cc (rw e at p, n)), Quiet-Lacks b s n h)

quiet_byte : (c : ℕ) → is_quiet c ≡ true → (ltb c 0x20 || c == 0x7f) ≡ false
quiet_byte c h = ground arith

Quiet-uncontrolled : (s : Bytes) → Quiet s → has_control_byte s ≡ false
unfolding has_control_byte
Quiet-uncontrolled [] h = refl
Quiet-uncontrolled (c ∷ s) (p, h) = rw (quiet_byte c p) (Quiet-uncontrolled s h)

-- A quiet text has no fragment.
parse-Quiet : (s : Bytes) → Quiet s → parse s ≡ parse_unfragmented s
unfolding parse unescape
parse-Quiet s h =
    let l = Quiet-Lacks b'#' s refl h in
    rw (parse, from_of_Lacks s b'#' l, before_of_Lacks s b'#' l) refl

-- A quiet text has no query.
parse_rest-Quiet : (scheme s : Bytes) → Quiet s → parse_rest scheme s ≡ parse_hierarchy scheme s []
unfolding parse_rest
parse_rest-Quiet scheme s h =
    let l = Quiet-Lacks b'?' s refl h in
    rw (parse_rest, from_of_Lacks s b'?' l, before_of_Lacks s b'?' l) refl

with_path-read :
    (scheme h path p : Bytes)
    → unescape other path ≡ some p
    → with_path scheme h path []
      ≡ some (record { scheme = scheme; opaque = []; host = h; path = p; raw_query = [] })
unfolding with_path
with_path-read scheme h path p e = rw (with_path, e) refl

slashed-Quiet : (a s : Bytes) → Plain a → Quiet s → Quiet (codes "//" ++ (a ++ s))
slashed-Quiet a s p q =
    (refl, (refl, All-append (λ c. is_quiet c ≡ true) a s (Quiet-of_Plain a p) q))

address-Quiet : (a r : Bytes) → Plain a → Quiet r → Quiet (address a r)
address-Quiet a r p q =
    (refl, (refl, (refl, (refl, (refl, (refl, slashed-Quiet a (b'/' ∷ r) p (refl, q)))))))

-- An address of a plain host and a quiet path is read as this host and the path, decoded.
pub parse-address :
    (a r p : Bytes)
    → Plain a
    → Quiet r
    → unescape other (b'/' ∷ r) ≡ some p
    → parse (address a r)
      ≡ some (record { scheme = https; opaque = []; host = a; path = p; raw_query = [] })
unfolding parse_unfragmented parse_hierarchy has_prefix str_eq to_lower
parse-address a r p h q e =
    let l = Plain-Lacks b'/' a refl h in
    let s = codes "//" ++ (a ++ b'/' ∷ r) in
    parse-Quiet (address a r) (address-Quiet a r h q)
    ∙ rw
        (
          parse_unfragmented,
          Quiet-uncontrolled (address a r) (address-Quiet a r h q),
          scheme_found s,
        )
        (parse_rest-Quiet https s (slashed-Quiet a (b'/' ∷ r) h (refl, q))
          ∙ rw
              (
                parse_hierarchy,
                before-append a r b'/' l,
                parse_authority-Plain a h,
                from-append a r b'/' l,
              )
              (with_path-read https a (b'/' ∷ r) p e))

no_scheme : (s : Bytes) → get_scheme (codes "//" ++ s) ≡ absent
unfolding get_scheme
no_scheme s = refl

-- A plain host name behind two slashes is read as the host.
pub parse-host :
    (c : ℕ) (a : Bytes)
    → Plain (c ∷ a)
    → parse (codes "//" ++ (c ∷ a))
      ≡ some (record { scheme = []; opaque = []; host = c ∷ a; path = []; raw_query = [] })
unfolding parse_unfragmented parse_hierarchy has_prefix str_eq unescape
parse-host c a h =
    let s = codes "//" ++ (c ∷ a) in
    let q : Quiet s = (refl, (refl, Quiet-of_Plain (c ∷ a) h)) in
    let l = Plain-Lacks b'/' (c ∷ a) refl h in
    let n : (c == b'/') ≡ false = ground (arith, h.0) in
    parse-Quiet s q
    ∙ rw (parse_unfragmented, Quiet-uncontrolled s q, no_scheme (c ∷ a))
        (parse_rest-Quiet [] s q
          ∙ rw
              (
                parse_hierarchy,
                n,
                before_of_Lacks (c ∷ a) b'/' l,
                parse_authority-Plain (c ∷ a) h,
                from_of_Lacks (c ∷ a) b'/' l,
              )
              (with_path-read [] (c ∷ a) [] [] refl))
