-- ===== src/Json/Print.antt =====
-- `json.Marshal`: the compact form, with the characters that HTML reads escaped.
use test_enclave_newapi.Common.{ℕ, ◌≡◌, refl, true, false, [], ◌∷◌, ◌++◌, ◌==◌, ◌&&◌, if◌then◌else◌}
use test_enclave_newapi.Text.{Bytes, codes}
use test_enclave_newapi.Json.Tree.{
  Json, null, bool, num, str, arr, obj, Items, nil, cons, Fields, end, field,
}
use test_enclave_newapi.Json.Strings.{quote}

-- What is written for one byte.
unfoldable pub html_byte : ℕ → Bytes
html_byte c =
    if c == b'<'
    then codes "\\u003c"
    else if c == b'>'
    then codes "\\u003e"
    else if c == b'&'
    then codes "\\u0026"
    else c ∷ []

-- What stands between the quotes, as `json.compact` copies it.
unfoldable pub html_safe : Bytes → Bytes
unfolding html_byte
html_safe [] = []
html_safe (c ∷ []) = html_byte c
html_safe (c ∷ d ∷ []) = html_byte c ++ html_safe (d ∷ [])
html_safe (c ∷ d ∷ e ∷ s) = elim (c == 0xe2 && d == 0x80 && e == 0xa8) [
  | true ↦ codes "\\u2028" ++ html_safe s
  | false ↦ elim (c == 0xe2 && d == 0x80 && e == 0xa9) [
    | true ↦ codes "\\u2029" ++ html_safe s
    | false ↦ html_byte c ++ html_safe (d ∷ e ∷ s)
  ]
]

unfoldable mutual
  unfolding html_safe

  pub print : Json → Bytes
  print null = codes "null"
  print (bool true) = codes "true"
  print (bool false) = codes "false"
  print (num s) = s
  print (str s) = b'"' ∷ (html_safe s ++ codes "\"")
  print (arr js) = b'[' ∷ (print_items js ++ codes "]")
  print (obj m) = b'{' ∷ (print_fields m ++ codes "}")

  pub print_items : Items → Bytes
  print_items nil = []
  print_items (cons j nil) = print j
  print_items (cons j (cons i js)) = print j ++ (b',' ∷ print_items (cons i js))

  pub print_fields : Fields → Bytes
  print_fields end = []
  print_fields (field k j end) = b'"' ∷ (html_safe k ++ (codes "\":" ++ print j))
  print_fields (field k j (field l i m)) =
      b'"' ∷ (html_safe k ++ (codes "\":" ++ (print j ++ (b',' ∷ print_fields (field l i m)))))

-- A Go string as a value.
abbrev pub string_value : Bytes → Json
string_value s = str (quote s)

compact :
    print (
      obj (
        field
          (codes "a")
          (arr (cons null (cons (num (codes "1e2")) nil)))
          (field (codes "b") (str (codes "<")) end)))
    ≡ codes "{\"a\":[null,1e2],\"b\":\"\\u003c\"}"
unfolding print
compact = refl
