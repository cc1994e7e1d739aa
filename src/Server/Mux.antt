-- ===== src/Server/Mux.antt =====
-- `http.ServeMux` of Go 1.26 with the patterns that `newHandler` registers. None names a method or a
-- host, and the one that ends in a slash takes all that is below it.
use mathlib.Core.List.{reverse}
use test_enclave_newapi.Common.{
  ◌≡◌, refl, Bool, true, false, not, ◌&&◌, ◌||◌, List, [], ◌∷◌, ◌++◌, Option, none, some,
  if◌then◌else◌, ◌==◌, any,
}
use test_enclave_newapi.Text.{Bytes, codes, str_eq, has_prefix, has_suffix, split, join}
use test_enclave_newapi.Url.Percent.{is_empty, other, unescape}

-- `path.Clean` on the parts of a rooted path; `out` has the parts that stay, the last one first.
unfoldable pub clean_parts : List Bytes → List Bytes → List Bytes
clean_parts [] out = reverse out
clean_parts (p ∷ ps) out = elim (is_empty p || str_eq p (codes ".")) [
  | true ↦ clean_parts ps out
  | false ↦ elim (str_eq p (codes "..")) [
    | true ↦ elim out [ [] ↦ clean_parts ps [] | _ ∷ os ↦ clean_parts ps os ]
    | false ↦ clean_parts ps (p ∷ out)
  ]
]

-- `cleanPath`, which keeps a slash at the end.
unfoldable pub clean_path : Bytes → Bytes
unfolding clean_parts split join has_suffix str_eq has_prefix
clean_path p =
    let rooted = if has_prefix p (codes "/") then p else b'/' ∷ p in
    let np = b'/' ∷ join (clean_parts (split rooted b'/') []) (codes "/") in
    if has_suffix rooted (codes "/") && not (str_eq np (codes "/")) then np ++ codes "/" else np

-- `pathUnescape`
unfoldable pub segment_text : Bytes → Bytes
unfolding unescape
segment_text s = elim (unescape other s) [ none ↦ s | some t ↦ t ]

-- The first segment of a path behind its slash, as it is written, and what follows it.
unfoldable pub segment_of : Bytes → Bytes × Bytes
segment_of [] = ([], [])
segment_of (c ∷ s) = if c == b'/' then ([], c ∷ s) else (c ∷ (segment_of s).0, (segment_of s).1)

-- What a path has behind the segments of a pattern; none where one of them does not fit.
unfoldable pub behind : List Bytes → Bytes → Option Bytes
unfolding segment_of segment_text str_eq
behind [] path = some path
behind (l ∷ ls) [] = none
behind (l ∷ ls) (c ∷ s) =
    let rest = behind ls (segment_of s).1 in
    if str_eq (segment_text (segment_of s).0) l then rest else none

abbrev pub is_end : Option Bytes → Bool
is_end (some []) = true
is_end _ = false

abbrev pub is_below : Option Bytes → Bool
is_below (some (_ ∷ _)) = true
is_below _ = false

-- The handlers behind the patterns.
pub data Endpoint : Type 0 where
  healthz attestation relay : Endpoint

-- The exact patterns of the relay, by segments.
abbrev pub relay_patterns : List (List Bytes)
relay_patterns =
    (codes "v1" ∷ codes "chat" ∷ codes "completions" ∷ [])
    ∷ (codes "v1" ∷ codes "messages" ∷ [])
    ∷ (codes "v1" ∷ codes "responses" ∷ [])
    ∷ (codes "v1" ∷ codes "embeddings" ∷ [])
    ∷ (codes "v1" ∷ codes "rerank" ∷ [])
    ∷ (codes "v1" ∷ codes "images" ∷ codes "generations" ∷ [])
    ∷ []

abbrev pub gemini_pattern : List Bytes
gemini_pattern = codes "v1beta" ∷ codes "models" ∷ []

-- The endpoint whose pattern an escaped path matches.
unfoldable pub endpoint : Bytes → Option Endpoint
unfolding behind
endpoint path =
    if is_end (behind (codes "healthz" ∷ []) path)
    then some healthz
    else if is_end (behind (codes "attestation" ∷ []) path)
    then some attestation
    else if any (λ p. is_end (behind p path)) relay_patterns
    then some relay
    else if is_below (behind gemini_pattern path)
    then some relay
    else none

-- What the mux does with a request: `moved` is the redirect to another path, 301.
pub data Choice : Type 0 where
  found : Endpoint → Choice
  moved : Bytes → Choice
  not_found : Choice

-- A path that no pattern matches is redirected where it matches with a slash, and one that is not
-- clean to the clean one. CONNECT requests are taken as they are.
unfoldable pub choose : Bool → Bytes → Choice
unfolding endpoint clean_path
choose is_connect escaped_path =
    let path = if is_connect then escaped_path else clean_path escaped_path in
    elim (endpoint path) [
      | none ↦
          if is_end (behind gemini_pattern path)
          then moved (codes "/v1beta/models/")
          else if str_eq path escaped_path
          then not_found
          else moved path
      | some e ↦ if str_eq path escaped_path then found e else moved path
    ]

cleaned :
    (clean_path (codes "/v1//chat/./x/../completions") ≡ codes "/v1/chat/completions")
    × (clean_path (codes "/../a/") ≡ codes "/a/")
    × (clean_path [] ≡ codes "/")
unfolding clean_path
cleaned = (refl, refl, refl)

chosen :
    (choose false (codes "/v1/chat/completions") ≡ found relay)
    × (choose false (codes "/v1/%63hat/completions") ≡ found relay)
    × (choose false (codes "/v1/chat/completions/") ≡ not_found)
    × (choose false (codes "/v1beta/models/g:generateContent") ≡ found relay)
    × (choose false (codes "/v1beta/models") ≡ moved (codes "/v1beta/models/"))
    × (choose false (codes "/v1beta/models/../x") ≡ moved (codes "/v1beta/x"))
    × (choose false (codes "/healthz") ≡ found healthz)
unfolding choose
chosen = (refl, refl, refl, refl, refl, refl, refl)
