-- ===== src/Url.antt =====
-- `net/url` as the program uses it: `url.Parse`, `URL.Hostname` and the percent encodings, as in the
-- toolchain that cmd/relay-core/Dockerfile.reproducible pins.
pub mod Percent
pub mod Address
pub mod Laws
pub mod Plain
pub mod Form
pub mod Segments
pub mod Authority
pub mod Shape
pub mod Written
use mathlib.Core.List.{reverse}
use test_enclave_newapi.Common.{
  ℕ, suc, ◌+◌, ◌-◌, ◌*◌, ◌≡◌, refl, Bool, true, false, not, ◌&&◌, ◌||◌, List, [], ◌∷◌, ◌++◌, Option,
  none, some, ltb, leb, ◌==◌, if◌then◌else◌, length, drop, any, all,
}
use test_enclave_newapi.Text.{
  Bytes, codes, str_eq, has_prefix, has_suffix, contains, cut_str, last_cut, before, from, to_lower,
  split, is_upper_byte, is_lower_byte, is_digit_byte,
}
use Percent.{other, one_of, is_empty, unescape}
use Address.{parse_authority}

pub record Url : Type 0 where
  pub scheme : Bytes
  pub opaque : Bytes
  pub host : Bytes
  pub path : Bytes
  pub raw_query : Bytes

pub data Scheme : Type 0 where
  found : Bytes → Bytes → Scheme
  absent : Scheme
  missing : Scheme

-- The loop of `getScheme`; `acc` holds the bytes read so far, the last first.
unfoldable pub scheme_from : Bytes → Bytes → Scheme
scheme_from acc [] = absent
scheme_from acc (c ∷ s) =
    let more = scheme_from (c ∷ acc) s in
    if is_lower_byte c || is_upper_byte c
    then more
    else if is_digit_byte c || one_of (codes "+-.") c
    then if is_empty acc then absent else more
    else if c == b':'
    then if is_empty acc then missing else found (reverse acc) s
    else absent

unfoldable pub get_scheme : Bytes → Scheme
unfolding scheme_from
get_scheme s = scheme_from [] s

unfoldable pub has_control_byte : Bytes → Bool
has_control_byte s = any (λ c. ltb c 0x20 || c == 0x7f) s

-- `setPath`, with the authority's host.
unfoldable pub with_path : Bytes → Bytes → Bytes → Bytes → Option Url
with_path scheme h path query = elim (unescape other path) [
  | none ↦ none
  | some p ↦ some (record { scheme = scheme; opaque = []; host = h; path = p; raw_query = query })
]

-- What follows the scheme, up to the query.
unfoldable pub parse_hierarchy : Bytes → Bytes → Bytes → Option Url
parse_hierarchy scheme rest query =
    if not (has_prefix rest (codes "/")) && not (is_empty scheme)
    then some (record { scheme = scheme; opaque = rest; host = []; path = []; raw_query = query })
    else if not (has_prefix rest (codes "/")) && contains (before rest b'/') (codes ":")
    then none
    else if has_prefix rest (codes "//")
        && (not (is_empty scheme) || not (has_prefix rest (codes "///")))
    then elim (parse_authority (before (drop 2 rest) b'/')) [
      | none ↦ none
      | some h ↦ with_path scheme h (from (drop 2 rest) b'/') query
    ]
    else with_path scheme [] rest query

unfoldable pub parse_rest : Bytes → Bytes → Option Url
parse_rest scheme rest = parse_hierarchy scheme (before rest b'?') (drop 1 (from rest b'?'))

unfoldable pub parse_unfragmented : Bytes → Option Url
parse_unfragmented s =
    if has_control_byte s
    then none
    else if str_eq s (codes "*")
    then some (record { scheme = []; opaque = []; host = []; path = codes "*"; raw_query = [] })
    else elim (get_scheme s) [
      | missing ↦ none
      | absent ↦ parse_rest [] s
      | found scheme rest ↦ parse_rest (to_lower scheme) rest
    ]

-- `url.Parse`; the fragment is only checked.
unfoldable pub parse : Bytes → Option Url
parse raw = elim (unescape other (drop 1 (from raw b'#'))) [
  | none ↦ elim (parse_unfragmented (before raw b'#')) [ none ↦ none | some _ ↦ none ]
  | some _ ↦ parse_unfragmented (before raw b'#')
]

parse_test :
    parse (codes "HTTPS://u:p@Host.example:8443/a%20b?q=1#f")
    ≡ some (record {
      scheme = codes "https";
      opaque = [];
      host = codes "Host.example:8443";
      path = codes "/a b";
      raw_query = codes "q=1";
    })
unfolding parse parse_unfragmented has_control_byte get_scheme scheme_from parse_rest
    parse_hierarchy with_path parse_authority unescape before from contains has_prefix str_eq
    to_lower
parse_test = refl

refusals :
    (parse (codes "http://a b/") ≡ none)
    × (parse (codes "//h:x/") ≡ none)
    × (parse (codes ":x") ≡ none)
    × (parse (codes "https://h/%zz") ≡ none)
unfolding parse parse_unfragmented has_control_byte get_scheme scheme_from parse_rest
    parse_hierarchy with_path parse_authority unescape before from contains has_prefix str_eq
    to_lower
refusals = (refl, refl, refl, refl)

zoned :
    parse (codes "http://[2001:db8::1%25x.example]:80/")
    ≡ some (record {
      scheme = codes "http";
      opaque = [];
      host = codes "[2001:db8::1%x.example]:80";
      path = codes "/";
      raw_query = [];
    })
unfolding parse parse_unfragmented has_control_byte get_scheme scheme_from parse_rest
    parse_hierarchy with_path parse_authority unescape before from contains has_prefix str_eq
    to_lower
zoned = refl
