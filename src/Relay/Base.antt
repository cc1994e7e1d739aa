-- ===== src/Relay/Base.antt =====
-- cmd/relay-core/main.go, `suffixHostUpstreamURL`: an address that is made of a base URL and a path has
-- the authority of the base URL.
use test_enclave_newapi.Common.{
  ℕ, ◌≡◌, refl, sym, ap, ◌∙◌, ◌⊎◌, inl, inr, Bool, true, false, ◌||◌, [], ◌∷◌, ◌++◌, some, some_inj,
  arith, ◌==◌, Bool-cases, append-nil, append_assoc,
}
use test_enclave_newapi.Text.{Bytes, codes, before, from, has_prefix, contains, trim_right}
use test_enclave_newapi.Text.Laws.{Lacks}
use test_enclave_newapi.Text.Cuts.{before_split}
use test_enclave_newapi.Text.Trim.{TailOf, trim_right-EndsOtherwise, trim_right_rest}
use test_enclave_newapi.Url.{Url, parse, found, get_scheme}
use test_enclave_newapi.Url.Laws.{before-prefix, parse_fragment}
use test_enclave_newapi.Url.Percent.{is_empty}
use test_enclave_newapi.Url.Address.{parse_authority}
use test_enclave_newapi.Url.Authority.{
  authority_of, has_prefix-before, parse_unfragmented-authority,
}
use test_enclave_newapi.Url.Shape.{
  Follows, Shape, with_scheme, bare, shape_authority, Shape-authority, scheme_from-colon,
}
use test_enclave_newapi.Official.Rules.{as_authority, host_key}

-- A byte stands in a text, and what follows is cut off with it, or it does not.
cut_off : (s : Bytes) (b : ℕ) → Lacks b s ⊎ ((x : Bytes) → before (s ++ x) b ≡ before s b)
unfolding before
cut_off [] b = inl tt
cut_off (c ∷ s) b = elim (Bool-cases (c == b)) [
  | inl y ↦ inr (λ x. rw y refl)
  | inr n ↦ elim (cut_off s b) [
    | inl l ↦ inl (ground arith, l)
    | inr f ↦ inr (λ x. rw n (ap (λ t. c ∷ t) (f x)))
  ]
]

or_right : (a b : Bool) → b ≡ true → (a || b) ≡ true
or_right a b h = ground arith

contains-middle : (x s : Bytes) → contains (x ++ (codes "://" ++ s)) (codes "://") ≡ true
unfolding contains
contains-middle [] s = refl
contains-middle (c ∷ x) s =
    or_right (has_prefix (c ∷ (x ++ (codes "://" ++ s))) (codes "://")) _ (contains-middle x s)

no_authority : parse_authority [] ≡ some []
unfolding parse_authority
no_authority = refl

slashed : (s : Bytes) → authority_of (codes "//" ++ (codes "//" ++ s)) ≡ []
unfolding get_scheme has_prefix
slashed s = refl

before-slashes : (s : Bytes) → before (codes "//" ++ s) b'#' ≡ codes "//" ++ before s b'#'
unfolding before
before-slashes s = refl

pub host_key-nil : (h : Bytes) → is_empty (host_key h) ≡ false → is_empty h ≡ false
unfolding host_key
host_key-nil [] e = absurd (cc e)
host_key-nil (c ∷ h) e = refl

pub host_of :
    (a : Bytes) (u : Url) → a ≡ [] → parse_authority a ≡ some u.host → is_empty u.host ≡ true
host_of a u e h = ap is_empty (sym (some_inj (sym no_authority ∙ (ap parse_authority (sym e) ∙ h))))

-- How a base URL and an address that is made of it hang together: without their fragments, both start
-- with the same base.
pub record Built (y address : Bytes) : Type 0 where
  pub base : Bytes
  pub address_end : Bytes
  pub url_end : Bytes
  pub rest : Bytes
  pub address_whole : address ≡ base ++ address_end
  pub url_whole : before y b'#' ≡ base ++ url_end
  pub whole : y ≡ base ++ rest
  pub follows : Follows base address_end
  pub tail : TailOf b'/' url_end

shape-contains :
    (base rest sc a : Bytes)
    → get_scheme base ≡ found sc (codes "//" ++ a)
    → contains (base ++ rest) (codes "://") ≡ true
unfolding get_scheme
shape-contains base rest sc a g =
    let (x, w) = scheme_from-colon [] base sc (codes "//" ++ a) g in
    ap (λ b. contains (b ++ rest) (codes "://")) w
    ∙ (ap (λ s. contains s (codes "://")) (append_assoc x (codes "://" ++ a) rest)
        ∙ contains-middle x (a ++ rest))

-- The authority of a base URL that passes the host rule is the one of the address.
pub same_authority :
    (y address : Bytes) (u : Url) (b : Built y address) (s : Shape b.base)
    → parse (as_authority y) ≡ some u
    → is_empty u.host ≡ false
    → parse_authority (shape_authority s) ≡ some u.host
unfolding as_authority
same_authority y address u b s p e = elim (Bool-cases (contains y (codes "://"))) [
  | inl c ↦
      let q =
        parse_unfragmented-authority (before y b'#') u
          (parse_fragment y u (rw (c, as_authority) at p)) e in
      ap parse_authority
        (sym (ap authority_of b.url_whole ∙ Shape-authority b.base b.url_end s b.tail))
      ∙ q
  | inr n ↦
      let f = parse_fragment (codes "//" ++ y) u (rw (n, as_authority) at p) in
      let q =
        parse_unfragmented-authority (codes "//" ++ before y b'#') u (rw (before-slashes y) at f)
          e in
      elim s [
        | with_scheme sc a g ↦ absurd (
            cc
              (ap (λ x. contains x (codes "://")) b.whole ∙ shape-contains b.base b.rest sc a g, n))
        | bare c a m w ↦
            let gone : authority_of (codes "//" ++ before y b'#') ≡ [] =
              ap (λ x. authority_of (codes "//" ++ x)) (b.url_whole ∙ ap (λ x. x ++ b.url_end) w)
              ∙ slashed (c ∷ (a ++ b.url_end)) in
            absurd (cc (host_of (authority_of (codes "//" ++ before y b'#')) u gone q, e))
      ]
]

before-TailOf : (w : Bytes) → TailOf b'/' w → TailOf b'/' (before w b'#')
unfolding before
before-TailOf w (inl e) = inl (ap (λ x. before x b'#') e)
before-TailOf w (inr (r, e)) = inr (before r b'#', ap (λ x. before x b'#') e)

hash_free : Lacks b'#' (codes "/")
hash_free = (omega arith, tt)

pub built :
    (y p : Bytes)
    → has_prefix p (codes "/") ≡ false
    → Built y (before (trim_right y b'/' ++ (b'/' ∷ p)) b'#')
unfolding before
built y p n =
    let b = trim_right y b'/' in
    let (w, e, t) = trim_right_rest y b'/' in
    elim (cut_off b b'#') [
      | inl l ↦ record {
        base = b;
        address_end = b'/' ∷ before p b'#';
        url_end = before w b'#';
        rest = w;
        address_whole = before-prefix b (b'/' ∷ p) b'#' l;
        url_whole = ap (λ x. before x b'#') e ∙ before-prefix b w b'#' l;
        whole = e;
        follows = inr (
          before p b'#',
          refl,
          has_prefix-before p (codes "/") b'#' hash_free ∙ n,
          trim_right-EndsOtherwise y b'/',
        );
        tail = before-TailOf w t;
      }
      | inr f ↦ record {
        base = before b b'#';
        address_end = [];
        url_end = [];
        rest = from b b'#' ++ w;
        address_whole = f (b'/' ∷ p) ∙ sym (append-nil (before b b'#'));
        url_whole = ap (λ x. before x b'#') e ∙ (f w ∙ sym (append-nil (before b b'#')));
        whole =
            e
            ∙ (ap (λ x. x ++ w) (before_split b b'#')
                ∙ append_assoc (before b b'#') (from b b'#') w);
        follows = inl refl;
        tail = inl refl;
      }
    ]
