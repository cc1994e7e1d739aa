-- ===== src/Url/Address.antt =====
-- The authority of a URL: user information, host, port, IPv6 literals.
use mathlib.Core.List.{reverse}
use test_enclave_newapi.Common.{
  ℕ, suc, ◌+◌, ◌-◌, ◌*◌, ◌≡◌, refl, Bool, true, false, not, ◌&&◌, ◌||◌, List, [], ◌∷◌, ◌++◌, Option,
  none, some, leb, ◌==◌, if◌then◌else◌, length, drop, any, all,
}
use test_enclave_newapi.Text.{
  Bytes, codes, str_eq, has_prefix, has_suffix, cut_str, last_cut, before, from, split,
  is_digit_byte,
}
use test_enclave_newapi.Url.Percent.{
  Mode, zone, other, is_alnum, one_of, hex_value, is_empty, unescape,
}

unfoldable pub valid_optional_port : Bytes → Bool
valid_optional_port [] = true
valid_optional_port (c ∷ s) = c == b':' && not (any (λ d. not (is_digit_byte d)) s)

unfoldable pub valid_userinfo : Bytes → Bool
valid_userinfo s = not (any (λ c. not (is_alnum c || one_of (codes "-._:~!$&'()*+,;=%@") c)) s)

abbrev pub both : Option Bytes → Option Bytes → Option Bytes
both none _ = none
both (some s) none = none
both (some s) (some t) = some (s ++ t)

-- A group of an IPv6 address: one to four hexadecimal digits.
unfoldable pub is_group : Bytes → Bool
unfolding hex_value
is_group s =
    not (is_empty s)
    && leb (length s) 4
    && not (any (λ c. elim (hex_value c) [ none ↦ true | some _ ↦ false ]) s)

-- A part of an IPv4 address: a number up to 255 with no leading zero.
unfoldable pub is_octet : Bytes → Bool
is_octet [] = false
is_octet (c ∷ []) = is_digit_byte c
is_octet (c ∷ d ∷ []) = is_digit_byte c && is_digit_byte d && not (c == b'0')
is_octet (c ∷ d ∷ e ∷ []) =
    is_digit_byte c
    && is_digit_byte d
    && is_digit_byte e
    && not (c == b'0')
    && leb ((c - b'0') * 100 + ((d - b'0') * 10 + (e - b'0'))) 255
is_octet _ = false

-- The number of 16-bit fields that the groups fill; an IPv4 address may stand last.
unfoldable pub fields : List Bytes → Option ℕ
unfolding is_group is_octet split
fields [] = some 0
fields (g ∷ []) =
    if is_group g
    then some 1
    else if leb (length (split g b'.')) 4
        && leb 4 (length (split g b'.'))
        && all is_octet (split g b'.')
    then some 2
    else none
fields (g ∷ h ∷ gs) =
    if is_group g then elim (fields (h ∷ gs)) [ none ↦ none | some n ↦ some (suc n) ] else none

unfoldable pub side : Bytes → Option ℕ
unfolding fields split
side s = if is_empty s then some 0 else fields (split s b':')

-- `netip.ParseAddr` of an IPv6 address, with an optional zone behind `%`.
unfoldable pub is_ipv6 : Bytes → Bool
unfolding fields side split cut_str before from
is_ipv6 s = not (str_eq (from s b'%') (codes "%")) && elim (cut_str (before s b'%') (codes "::")) [
  | none ↦ elim (fields (split (before s b'%') b':')) [ none ↦ false | some n ↦ n == 8 ]
  | some (l, r) ↦ elim (side l) [
    | none ↦ false
    | some n ↦ elim (side r) [ none ↦ false | some m ↦ leb (n + m) 7 ]
  ]
]

-- `address%25zone]:port`, behind the opening bracket.
unfoldable pub parse_bracketed : Bytes → Option Bytes
unfolding valid_optional_port unescape cut_str last_cut is_ipv6
parse_bracketed s = elim (last_cut s b']') [
  | none ↦ none
  | some (inner, port) ↦
      let name : Option Bytes = elim (cut_str inner (codes "%25")) [
        | none ↦ unescape Mode.host inner
        | some (address, z) ↦ both (unescape Mode.host address) (unescape zone (codes "%25" ++ z))
      ] in
      if valid_optional_port port
      then elim name [
        | none ↦ none
        | some h ↦
            if is_ipv6 h
            then both (some (codes "[" ++ (h ++ codes "]"))) (unescape Mode.host port)
            else none
      ]
      else none
]

unfoldable pub parse_host : Bytes → Option Bytes
unfolding parse_bracketed valid_optional_port unescape last_cut
parse_host s = elim (last_cut s b'[') [
  | some (lead, t) ↦ if is_empty lead then parse_bracketed t else none
  | none ↦ elim (last_cut s b':') [
    | none ↦ unescape Mode.host s
    | some (_, port) ↦ if valid_optional_port (b':' ∷ port) then unescape Mode.host s else none
  ]
]

-- Whether the user information before `@` is well formed; its value is not used.
unfoldable pub userinfo_ok : Bytes → Bool
unfolding valid_userinfo unescape before from
userinfo_ok s = valid_userinfo s && elim (unescape other (before s b':')) [
  | none ↦ false
  | some _ ↦ elim (unescape other (drop 1 (from s b':'))) [ none ↦ false | some _ ↦ true ]
]

unfoldable pub parse_authority : Bytes → Option Bytes
unfolding parse_host userinfo_ok last_cut
parse_authority s = elim (last_cut s b'@') [
  | none ↦ parse_host s
  | some (user, h) ↦ if userinfo_ok user then parse_host h else none
]

abbrev pub unbracket : Bytes → Bytes
unbracket s =
    if has_prefix s (codes "[") && has_suffix s (codes "]")
    then drop 1 (reverse (drop 1 (reverse s)))
    else s

-- `URL.Hostname`
unfoldable pub hostname : Bytes → Bytes
unfolding last_cut valid_optional_port has_prefix has_suffix
hostname s = elim (last_cut s b':') [
  | none ↦ unbracket s
  | some (h, port) ↦ if valid_optional_port (b':' ∷ port) then unbracket h else unbracket s
]

hostname_test :
    (hostname (codes "h.x:443") ≡ codes "h.x") × (hostname (codes "[::1]:8") ≡ codes "::1")
unfolding hostname
hostname_test = (refl, refl)
