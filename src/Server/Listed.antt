-- ===== src/Server/Listed.antt =====
-- cmd/relay-core/server.go, `newHandler`: which decoded paths reach the relay.
use test_enclave_newapi.Common.{
  ℕ, ◌≡◌, refl, sym, ap, ◌∙◌, ◌⊎◌, inl, inr, Bool, true, ◌||◌, List, [], ◌∷◌, ◌++◌, Option, none,
  some, some_inj, ◌==◌, ==_iff, append-nil, append_assoc, Bool-cases, Option-cases, or-eq-true, any,
  if◌then◌else◌, arith,
}
use test_enclave_newapi.Text.{Bytes, codes, str_eq, has_prefix}
use test_enclave_newapi.Text.Laws.{eq_of_str_eq, str_eq_iff, has_prefix_sound, has_prefix-append}
use test_enclave_newapi.Url.Percent.{other, unescape}
use test_enclave_newapi.Url.Segments.{Parts, unescape-slash, push_inv}
use test_enclave_newapi.Official.SigV4.Encoding.{unescape-plain}
use test_enclave_newapi.Server.Mux.{
  segment_text, segment_of, behind, is_end, is_below, relay, relay_patterns, gemini_pattern,
  endpoint, found, choose, clean_path,
}

-- A path of these segments.
abbrev pub path_of : List Bytes → Bytes
path_of [] = []
path_of (l ∷ ls) = b'/' ∷ (l ++ path_of ls)

-- Nothing, or a text that starts with a slash.
abbrev Tail : Bytes → Type 0
Tail t = (t ≡ []) ⊎ ((r : Bytes) × (t ≡ b'/' ∷ r))

segment_of-Tail : (s : Bytes) → Tail (segment_of s).1
unfolding segment_of
segment_of-Tail [] = inl refl
segment_of-Tail (c ∷ s) = elim (Bool-cases (c == b'/')) [
  | inl y ↦ inr (s, rw (y, segment_of) (ap (λ x. x ∷ s) ((==_iff c b'/').0 y)))
  | inr n ↦ rw (n, segment_of) (segment_of-Tail s)
]

segment_of-whole : (s : Bytes) → (segment_of s).0 ++ (segment_of s).1 ≡ s
unfolding segment_of
segment_of-whole [] = refl
segment_of-whole (c ∷ s) = elim (Bool-cases (c == b'/')) [
  | inl y ↦ rw (y, segment_of) refl
  | inr n ↦ rw (n, segment_of) (ap (λ x. c ∷ x) (segment_of-whole s))
]

unescape-Tail : (s t p : Bytes) → Tail t → unescape other (s ++ t) ≡ some p → Parts s t p
unfolding unescape
unescape-Tail s t p (inl e) h = record {
  front = p;
  back = [];
  first = ap (unescape other) (sym (append-nil s) ∙ ap (λ x. s ++ x) (sym e)) ∙ h;
  second = rw e refl;
  whole = sym (append-nil p);
}
unescape-Tail s t p (inr (r, e)) h = rw e (unescape-slash s r p (rw e at h))

segment_text_of : (s u : Bytes) → unescape other s ≡ some u → segment_text s ≡ u
unfolding segment_text
segment_text_of s u h = rw (h, segment_text) refl

-- What the pattern's segments leave, decoded.
pub record Left (ls : List Bytes) (rest text : Bytes) : Type 0 where
  pub tail : Tail rest
  pub back : Bytes
  pub decoded : unescape other rest ≡ some back
  pub whole : text ≡ path_of ls ++ back

behind_sound :
    (ls : List Bytes) (path rest text : Bytes)
    → Tail path
    → behind ls path ≡ some rest
    → unescape other path ≡ some text
    → Left ls rest text
unfolding behind
behind_sound [] path rest text t h u =
    rw (← some_inj h) (record { tail = t; back = text; decoded = u; whole = refl })
behind_sound (l ∷ ls) path rest text (inl e) h u = absurd (cc (rw (e, behind) at h))
behind_sound (l ∷ ls) path rest text (inr (s, e)) h u =
    elim (Bool-cases (str_eq (segment_text (segment_of s).0) l)) [
      | inr n ↦ absurd (cc (rw (e, n, behind) at h))
      | inl y ↦
          let (q, v, w) =
            push_inv b'/' (unescape other s) text
              (sym (unescape-plain b'/' s refl) ∙ (rw e at u)) in
          let p =
            unescape-Tail (segment_of s).0 (segment_of s).1 q (segment_of-Tail s)
              (ap (unescape other) (segment_of-whole s) ∙ v) in
          let m =
            behind_sound ls (segment_of s).1 rest p.back (segment_of-Tail s)
              (rw (e, y, behind) at h) p.second in
          let name = sym (segment_text_of (segment_of s).0 p.front p.first) ∙ eq_of_str_eq _ l y in
          record {
            tail = m.tail;
            back = m.back;
            decoded = m.decoded;
            whole =
                w
                ∙ ap (λ x. b'/' ∷ x)
                    (p.whole
                      ∙ (ap (λ x. x ++ p.back) name
                          ∙ (ap (λ x. l ++ x) m.whole ∙ sym (append_assoc l (path_of ls) m.back))));
          }
    ]

is_end_inv : (o : Option Bytes) → is_end o ≡ true → o ≡ some []
is_end_inv none h = absurd (cc h)
is_end_inv (some []) h = refl
is_end_inv (some (c ∷ s)) h = absurd (cc h)

is_below_inv : (o : Option Bytes) → is_below o ≡ true → (c : ℕ) × (s : Bytes) × (o ≡ some (c ∷ s))
is_below_inv none h = absurd (cc h)
is_below_inv (some []) h = absurd (cc h)
is_below_inv (some (c ∷ s)) h = (c, s, refl)

exact :
    (ls : List Bytes) (path text : Bytes)
    → Tail path
    → is_end (behind ls path) ≡ true
    → unescape other path ≡ some text
    → text ≡ path_of ls
unfolding unescape
exact ls path text t h u =
    let m = behind_sound ls path [] text t (is_end_inv (behind ls path) h) u in
    m.whole ∙ (ap (λ x. path_of ls ++ x) (sym (some_inj m.decoded)) ∙ append-nil (path_of ls))

or_left : (a b : Bool) → a ≡ true → (a || b) ≡ true
or_left a b h = ground arith

or_right : (a b : Bool) → b ≡ true → (a || b) ≡ true
or_right a b h = ground arith

exact_any :
    (ps : List (List Bytes)) (path text : Bytes)
    → Tail path
    → any (λ p. is_end (behind p path)) ps ≡ true
    → unescape other path ≡ some text
    → any (λ p. str_eq text (path_of p)) ps ≡ true
exact_any [] path text t h u = absurd (cc h)
exact_any (p ∷ ps) path text t h u =
    elim (or-eq-true (is_end (behind p path)) (any (λ q. is_end (behind q path)) ps) h) [
      | inl y ↦ or_left _ _ ((str_eq_iff text (path_of p)).1 (exact p path text t y u))
      | inr y ↦ or_right (str_eq text (path_of p)) _ (exact_any ps path text t y u)
    ]

below :
    (path text : Bytes)
    → Tail path
    → is_below (behind gemini_pattern path) ≡ true
    → unescape other path ≡ some text
    → has_prefix text (codes "/v1beta/models/") ≡ true
below path text t h u =
    let (c, s, e) = is_below_inv (behind gemini_pattern path) h in
    let m = behind_sound gemini_pattern path (c ∷ s) text t e u in
    elim m.tail [
      | inl n ↦ absurd (cc n)
      | inr (r, n) ↦
          let (q, v, w) =
            push_inv b'/' (unescape other r) m.back
              (sym (unescape-plain b'/' r refl) ∙ (rw n at m.decoded)) in
          ap (λ x. has_prefix x (codes "/v1beta/models/"))
            (m.whole ∙ ap (λ x. path_of gemini_pattern ++ x) w)
          ∙ has_prefix-append (codes "/v1beta/models/") q
    ]

-- The paths of the API that the gateway offers.
abbrev pub api_paths : List Bytes
api_paths =
    codes "/v1/chat/completions"
    ∷ codes "/v1/messages"
    ∷ codes "/v1/responses"
    ∷ codes "/v1/embeddings"
    ∷ codes "/v1/rerank"
    ∷ codes "/v1/images/generations"
    ∷ []

abbrev pub is_listed : Bytes → Bool
is_listed path = any (λ p. str_eq path p) api_paths || has_prefix path (codes "/v1beta/models/")

endpoint-listed :
    (path text : Bytes)
    → Tail path
    → unescape other path ≡ some text
    → endpoint path ≡ some relay
    → is_listed text ≡ true
unfolding endpoint
endpoint-listed path text t u h = elim (Bool-cases (is_end (behind (codes "healthz" ∷ []) path))) [
  | inl y ↦ absurd (cc (rw (y, endpoint) at h))
  | inr n ↦ elim (Bool-cases (is_end (behind (codes "attestation" ∷ []) path))) [
    | inl y ↦ absurd (cc (rw (n, y, endpoint) at h))
    | inr m ↦ elim (Bool-cases (any (λ p. is_end (behind p path)) relay_patterns)) [
      | inl y ↦ or_left _ _ (exact_any relay_patterns path text t y u)
      | inr o ↦ elim (Bool-cases (is_below (behind gemini_pattern path))) [
        | inl y ↦ or_right (any (λ p. str_eq text p) api_paths) _ (below path text t y u)
        | inr q ↦ absurd (cc (simp (n, m, o, q, endpoint) at h))
      ]
    ]
  ]
]

-- The mux hands a request to the relay only if its decoded path is one of the API's six paths or
-- starts with /v1beta/models/; the escaped path starts with a slash.
pub choose-relay :
    (is_connect : Bool) (escaped_path path : Bytes)
    → has_prefix escaped_path (codes "/") ≡ true
    → unescape other escaped_path ≡ some path
    → choose is_connect escaped_path ≡ found relay
    → is_listed path ≡ true
unfolding choose
choose-relay c escaped path s u h =
    let p = if c then escaped else clean_path escaped in
    let (r, e) = has_prefix_sound escaped (codes "/") s in
    elim (Option-cases (endpoint p)) [
      | inl n ↦ elim (Bool-cases (is_end (behind gemini_pattern p))) [
        | inl y ↦ absurd (cc (rw (n, y, choose) at h))
        | inr m ↦ elim (Bool-cases (str_eq p escaped)) [
          | inl y ↦ absurd (cc (rw (n, m, y, choose) at h))
          | inr o ↦ absurd (cc (rw (n, m, o, choose) at h))
        ]
      ]
      | inr (x, n) ↦ elim (Bool-cases (str_eq p escaped)) [
        | inr o ↦ absurd (cc (rw (n, o, choose) at h))
        | inl y ↦
            let f : found x ≡ found relay = rw (n, y, choose) at h in
            let g : endpoint escaped ≡ some relay =
              ap endpoint (sym (eq_of_str_eq p escaped y)) ∙ (n ∙ cc) in
            endpoint-listed escaped path (inr (r, e)) u g
      ]
    ]
