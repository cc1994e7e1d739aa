-- ===== src/Official/SigV4/Ordering.antt =====
-- pkg/officialurls/sigv4.go, `canonicalQueryString`: the order of the parameters in a query does not
-- matter.
use mathlib.Core.List.{Permᴰ}
use test_enclave_newapi.Common.{
  ◌≡◌, refl, sym, ap, ◌∙◌, inl, inr, true, false, List, [], ◌∷◌, ◌++◌, map, Bool-cases,
  if◌then◌else◌,
}
use test_enclave_newapi.Text.{Bytes, codes, str_eq, str_lt, split, join}
use test_enclave_newapi.Text.Laws.{eq_of_str_eq, str_eq_refl}
use test_enclave_newapi.Text.Order.{
  str_lt_irrefl, str_lt_trans, str_lt_total, str_lt-differ, str_eq_sym,
}
use test_enclave_newapi.Url.Percent.{is_empty}
use test_enclave_newapi.Official.SigV4.{
  query_pair, pair_before, insert_pair, sort_pairs, query_pairs, canonical_query_string,
}

-- A total order on pairs, as `sort.Slice` is given it.
pair_before-same : (k v u : Bytes) → pair_before (k, v) (k, u) ≡ str_lt v u
unfolding pair_before
pair_before-same k v u = rw (pair_before, str_eq_refl k) refl

pair_before-other : (k l v u : Bytes) → str_eq k l ≡ false → pair_before (k, v) (l, u) ≡ str_lt k l
unfolding pair_before
pair_before-other k l v u n = rw (pair_before, n) refl

pair_before_irrefl : (p : Bytes × Bytes) → pair_before p p ≡ false
pair_before_irrefl (k, v) = pair_before-same k v v ∙ str_lt_irrefl v

pair_before_trans :
    (p q r : Bytes × Bytes)
    → pair_before p q ≡ true
    → pair_before q r ≡ true
    → pair_before p r ≡ true
unfolding pair_before
pair_before_trans (k, v) (l, u) (m, w) h i = elim (Bool-cases (str_eq k l)) [
  | inl a ↦ elim (Bool-cases (str_eq l m)) [
    | inl b ↦
        rw (ap (λ x. str_eq x m) (eq_of_str_eq k l a) ∙ b, pair_before)
          (str_lt_trans v u w (rw (a, pair_before) at h) (rw (b, pair_before) at i))
    | inr b ↦
        rw (ap (λ x. str_eq x m) (eq_of_str_eq k l a) ∙ b, pair_before)
          (ap (λ x. str_lt x m) (eq_of_str_eq k l a) ∙ (rw (b, pair_before) at i))
  ]
  | inr a ↦
      let s : str_lt k l ≡ true = rw (a, pair_before) at h in
      elim (Bool-cases (str_eq l m)) [
        | inl b ↦
            let t : str_lt k m ≡ true = ap (λ x. str_lt k x) (sym (eq_of_str_eq l m b)) ∙ s in
            rw (str_lt-differ k m t, pair_before) t
        | inr b ↦
            let t = str_lt_trans k l m s (rw (b, pair_before) at i) in
            rw (str_lt-differ k m t, pair_before) t
      ]
]

pair_before_total :
    (p q : Bytes × Bytes) → pair_before p q ≡ false → pair_before q p ≡ false → p ≡ q
unfolding pair_before
pair_before_total (k, v) (l, u) h i = elim (Bool-cases (str_eq k l)) [
  | inl a ↦
      let e = eq_of_str_eq k l a in
      let back : str_eq l k ≡ true = ap (λ x. str_eq l x) e ∙ str_eq_refl l in
      let f = str_lt_total v u (rw (a, pair_before) at h) (rw (back, pair_before) at i) in
      ap (λ x. (x, v)) e ∙ ap (λ x. (l, x)) f
  | inr a ↦
      let e =
        str_lt_total k l (rw (a, pair_before) at h) (rw (str_eq_sym k l a, pair_before) at i) in
      absurd (cc (rw e at a, str_eq_refl l))
]

-- Where `x` does not stand before `q`, `q` stands before all that `x` stands before.
before_of_behind :
    (x p q : Bytes × Bytes)
    → pair_before x q ≡ false
    → pair_before x p ≡ true
    → pair_before q p ≡ true
before_of_behind x p q n h = elim (Bool-cases (pair_before q x)) [
  | inl y ↦ pair_before_trans q x p y h
  | inr m ↦ ap (λ z. pair_before z p) (sym (pair_before_total x q n m)) ∙ h
]

never_both : (p q : Bytes × Bytes) → pair_before p q ≡ true → pair_before q p ≡ true → ⊥
never_both p q h i = cc (pair_before_trans p q p h i, pair_before_irrefl p)

-- Two pairs at the front of a sorted list stand in their order.
front_comm :
    (p q : Bytes × Bytes) (l : List (Bytes × Bytes))
    → (if pair_before q p then q ∷ p ∷ l else p ∷ q ∷ l)
      ≡ (if pair_before p q then p ∷ q ∷ l else q ∷ p ∷ l)
front_comm p q l = elim (Bool-cases (pair_before q p)) [
  | inl a ↦ elim (Bool-cases (pair_before p q)) [
    | inl b ↦ absurd (never_both p q b a)
    | inr b ↦ rw (a, b) refl
  ]
  | inr a ↦ elim (Bool-cases (pair_before p q)) [
    | inl b ↦ rw (a, b) refl
    | inr b ↦
        let e = pair_before_total p q b a in
        rw (a, b) (ap (λ x. x ∷ q ∷ l) e ∙ ap (λ x. q ∷ x ∷ l) (sym e))
  ]
]

insert_pair_comm :
    (p q : Bytes × Bytes) (l : List (Bytes × Bytes))
    → insert_pair p (insert_pair q l) ≡ insert_pair q (insert_pair p l)
unfolding insert_pair
insert_pair_comm p q [] = front_comm p q []
insert_pair_comm p q (x ∷ l) = elim (Bool-cases (pair_before x p)) [
  | inl a ↦ elim (Bool-cases (pair_before x q)) [
    | inl b ↦ rw (a, b, a) (ap (λ t. x ∷ t) (insert_pair_comm p q l))
    | inr b ↦ rw (a, b, before_of_behind x p q b a, a) refl
  ]
  | inr a ↦ elim (Bool-cases (pair_before x q)) [
    | inl b ↦ rw (a, b, before_of_behind x q p a b, a) refl
    | inr b ↦ rw (a, b, a) (front_comm p q (x ∷ l))
  ]
]

sort_pairs-Permᴰ :
    (ps qs : List Bytes) → Permᴰ ps qs → sort_pairs (query_pairs ps) ≡ sort_pairs (query_pairs qs)
unfolding sort_pairs query_pairs
sort_pairs-Permᴰ _ _ Permᴰ.nil = refl
sort_pairs-Permᴰ _ _ (Permᴰ.cons {a} {b} {l₁} {l₂} e d) =
    let same = sort_pairs-Permᴰ l₁ l₂ d in
    rw (← e) (elim (Bool-cases (is_empty a)) [
      | inl y ↦ rw y same
      | inr n ↦ rw n (ap (insert_pair (query_pair a)) same)
    ])
sort_pairs-Permᴰ _ _ (Permᴰ.swap {a} {b} {a'} {b'} {l} e f) =
    rw (← e, ← f)
      (elim (Bool-cases (is_empty a)) [
        | inl y ↦ elim (Bool-cases (is_empty b)) [ inl z ↦ rw (y, z) refl | inr n ↦ rw (y, n) refl ]
        | inr m ↦ elim (Bool-cases (is_empty b)) [
          | inl z ↦ rw (m, z) refl
          | inr n ↦
              rw (m, n)
                (insert_pair_comm (query_pair a) (query_pair b) (sort_pairs (query_pairs l)))
        ]
      ])
sort_pairs-Permᴰ ps qs (Permᴰ.trans {l₂ = ms} d e) =
    sort_pairs-Permᴰ ps ms d ∙ sort_pairs-Permᴰ ms qs e

-- The empty query has no pairs.
canonical_of_pairs :
    (raw : Bytes)
    → canonical_query_string raw
      ≡ join
          (map (λ p. p.0 ++ (b'=' ∷ p.1)) (sort_pairs (query_pairs (split raw b'&'))))
          (codes "&")
unfolding canonical_query_string split query_pairs sort_pairs join
canonical_of_pairs [] = refl
canonical_of_pairs (c ∷ s) = refl

-- Two queries with the same parameters, in whatever order, have the same canonical form.
pub canonical_query_string-Permᴰ :
    (raw other : Bytes)
    → Permᴰ (split raw b'&') (split other b'&')
    → canonical_query_string raw ≡ canonical_query_string other
canonical_query_string-Permᴰ raw other d =
    canonical_of_pairs raw
    ∙ (ap (λ ps. join (map (λ p. p.0 ++ (b'=' ∷ p.1)) ps) (codes "&"))
          (sort_pairs-Permᴰ (split raw b'&') (split other b'&') d)
        ∙ sym (canonical_of_pairs other))
