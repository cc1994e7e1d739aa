-- ===== src/Json/Strings.antt =====
-- String literals of `encoding/json`: `unquote` reads one, `quote` writes one, `fold` is the key
-- comparison of `json.Unmarshal`.
use test_enclave_newapi.Common.{
  ℕ, zero, suc, ◌+◌, ◌-◌, ◌*◌, ◌/◌, ◌%◌, ◌≡◌, refl, Bool, true, false, ◌&&◌, ◌||◌, [], ◌∷◌, ◌++◌,
  none, some, ltb, leb, ◌==◌, if◌then◌else◌, length, drop, take, get_elem?,
}
use test_enclave_newapi.Text.{Bytes, codes, str_eq, is_lower_byte}
use test_enclave_newapi.Url.Percent.{hex_value}

-- The byte at a place, 0 behind the end.
abbrev pub byte_at : Bytes → ℕ → ℕ
byte_at s i = elim (get_elem? s i) [ none ↦ 0 | some c ↦ c ]

abbrev within : ℕ → ℕ → ℕ → Bool
within lo hi c = leb lo c && leb c hi

abbrev tail_byte : ℕ → Bool
tail_byte c = within 0x80 0xbf c

-- The length of the UTF-8 form at the start of a text, 0 where `utf8.DecodeRune` finds none.
unfoldable pub rune_length : Bytes → ℕ
rune_length s =
    let c = byte_at s 0 in
    let d = byte_at s 1 in
    let e = byte_at s 2 in
    let f = byte_at s 3 in
    if within 0xc2 0xdf c && tail_byte d
    then 2
    else if (c == 0xe0 && within 0xa0 0xbf d
          || c == 0xed && within 0x80 0x9f d
          || (within 0xe1 0xec c || within 0xee 0xef c) && tail_byte d)
        && tail_byte e
    then 3
    else if (c == 0xf0 && within 0x90 0xbf d
          || c == 0xf4 && within 0x80 0x8f d
          || within 0xf1 0xf3 c && tail_byte d)
        && tail_byte e
        && tail_byte f
    then 4
    else 0

unfoldable pub encode_rune : ℕ → Bytes
encode_rune r =
    if ltb r 0x80
    then r ∷ []
    else if ltb r 0x800
    then (0xc0 + r / 64) ∷ (0x80 + r % 64) ∷ []
    else if ltb r 0x10000
    then (0xe0 + r / 4096) ∷ (0x80 + r / 64 % 64) ∷ (0x80 + r % 64) ∷ []
    else (0xf0 + r / 262144) ∷ (0x80 + r / 4096 % 64) ∷ (0x80 + r / 64 % 64) ∷ (0x80 + r % 64) ∷ []

abbrev digit_or_zero : ℕ → ℕ
digit_or_zero c = elim (hex_value c) [ none ↦ 0 | some v ↦ v ]

-- The number of four hexadecimal digits.
abbrev hex4 : Bytes → ℕ
hex4 s =
    digit_or_zero (byte_at s 0) * 4096
    + digit_or_zero (byte_at s 1) * 256
    + digit_or_zero (byte_at s 2) * 16
    + digit_or_zero (byte_at s 3)

abbrev pub replacement : Bytes
replacement = 0xef ∷ 0xbf ∷ 0xbd ∷ []

-- `\uXXXX`, given what stands behind the `u`: a pair of surrogates is one rune, and a lone one is
-- replaced.
unfoldable pub unicode_escape : Bytes → Bytes × Bytes
unfolding hex_value encode_rune
unicode_escape s =
    let r = hex4 s in
    let low = hex4 (drop 6 s) in
    if within 0xd800 0xdfff r
    then if within 0xd800 0xdbff r
        && byte_at s 4 == b'\\'
        && byte_at s 5 == b'u'
        && within 0xdc00 0xdfff low
      then (encode_rune (0x10000 + ((r - 0xd800) * 1024 + (low - 0xdc00))), drop 10 s)
      else (replacement, drop 4 s)
    else (encode_rune r, drop 4 s)

abbrev simple_escape : ℕ → ℕ
simple_escape c =
    if c == b'b'
    then 8
    else if c == b'f'
    then 12
    else if c == b'n'
    then 10
    else if c == b'r'
    then 13
    else if c == b't'
    then 9
    else c

-- One round of `unquote`: the bytes written, and the text left.
unfoldable pub unquote_step : ℕ → Bytes → Bytes × Bytes
unfolding unicode_escape rune_length
unquote_step c s =
    if c == b'\\'
    then if byte_at s 0 == b'u'
      then unicode_escape (drop 1 s)
      else (simple_escape (byte_at s 0) ∷ [], drop 1 s)
    else if ltb c 0x80
    then (c ∷ [], s)
    else if rune_length (c ∷ s) == 0
    then (replacement, s)
    else (take (rune_length (c ∷ s)) (c ∷ s), drop (rune_length (c ∷ s)) (c ∷ s))

unfoldable pub unquote_from : ℕ → Bytes → Bytes
unfolding unquote_step
unquote_from zero s = []
unquote_from (suc n) [] = []
unquote_from (suc n) (c ∷ s) = (unquote_step c s).0 ++ unquote_from n (unquote_step c s).1

-- Each round reads a byte, so the length is enough fuel.
unfoldable pub unquote : Bytes → Bytes
unfolding unquote_from
unquote s = unquote_from (length s) s

-- `foldName`: upper case for ASCII, and for U+017F and U+212A, which fold to S and K. No other rune
-- folds to an ASCII letter.
unfoldable pub fold : Bytes → Bytes
fold [] = []
fold (c ∷ []) = (if is_lower_byte c then c - 32 else c) ∷ []
fold (c ∷ d ∷ []) = elim (c == 0xc5 && d == 0xbf) [
  | true ↦ b'S' ∷ []
  | false ↦ (if is_lower_byte c then c - 32 else c) ∷ fold (d ∷ [])
]
fold (c ∷ d ∷ e ∷ s) = elim (c == 0xc5 && d == 0xbf) [
  | true ↦ b'S' ∷ fold (e ∷ s)
  | false ↦ elim (c == 0xe2 && d == 0x84 && e == 0xaa) [
    | true ↦ b'K' ∷ fold s
    | false ↦ (if is_lower_byte c then c - 32 else c) ∷ fold (d ∷ e ∷ s)
  ]
]

-- Whether the literal key `raw` sets the struct field of the name.
unfoldable pub key_is : Bytes → Bytes → Bool
unfolding str_eq fold unquote
key_is name raw = str_eq (fold name) (fold (unquote raw))

abbrev pub hex_digit : ℕ → ℕ
hex_digit n = if ltb n 10 then b'0' + n else b'a' + (n - 10)

-- One round of `quote`: what is written for the rune at the start of a text, and its length.
unfoldable pub quote_step : ℕ → Bytes → Bytes × ℕ
unfolding rune_length
quote_step c s =
    let n = rune_length (c ∷ s) in
    if c == b'"' || c == b'\\'
    then (b'\\' ∷ c ∷ [], 1)
    else if c == 8
    then (codes "\\b", 1)
    else if c == 12
    then (codes "\\f", 1)
    else if c == 10
    then (codes "\\n", 1)
    else if c == 13
    then (codes "\\r", 1)
    else if c == 9
    then (codes "\\t", 1)
    else if ltb c 0x20 || c == b'<' || c == b'>' || c == b'&'
    then (codes "\\u00" ++ hex_digit (c / 16) ∷ hex_digit (c % 16) ∷ [], 1)
    else if ltb c 0x80
    then (c ∷ [], 1)
    else if n == 0
    then (codes "\\ufffd", 1)
    else if c == 0xe2 && byte_at s 0 == 0x80 && byte_at s 1 == 0xa8
    then (codes "\\u2028", 3)
    else if c == 0xe2 && byte_at s 0 == 0x80 && byte_at s 1 == 0xa9
    then (codes "\\u2029", 3)
    else (take n (c ∷ s), n)

unfoldable pub quote_from : ℕ → Bytes → Bytes
unfolding quote_step
quote_from zero s = []
quote_from (suc n) [] = []
quote_from (suc n) (c ∷ s) = (quote_step c s).0 ++ quote_from n (drop (quote_step c s).1 (c ∷ s))

unfoldable pub quote : Bytes → Bytes
unfolding quote_from
quote s = quote_from (length s) s

escapes :
    unquote (codes "a\\n\\u00e9\\ud83d\\ude00\\ud800x")
    ≡ b'a' ∷ 10 ∷ 0xc3 ∷ 0xa9 ∷ 0xf0 ∷ 0x9f ∷ 0x98 ∷ 0x80 ∷ 0xef ∷ 0xbf ∷ 0xbd ∷ b'x' ∷ []
unfolding unquote
escapes = refl

written :
    quote (codes "a\"<" ++ 0xff ∷ 0xc3 ∷ 0xa9 ∷ [])
    ≡ codes "a\\\"\\u003c\\ufffd" ++ 0xc3 ∷ 0xa9 ∷ []
unfolding quote
written = refl
