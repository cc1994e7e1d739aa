-- ===== src/Wire/Mapping/Chain.antt =====
-- The mapping as a relation between names, and what the loop computes of it.
use test_enclave_newapi.Common.{
  ℕ, suc, ◌≡◌, refl, sym, ◌∙◌, ◌⊎◌, inl, inr, true, false, ◌||◌, List, [], ◌∷◌, Option, none, some,
  if◌then◌else◌, Bool-cases, Option-cases, All, or-eq-true, some_inj,
}
use test_enclave_newapi.Text.{Bytes, str_eq}
use test_enclave_newapi.Text.Laws.{eq_of_str_eq}
use test_enclave_newapi.Url.Percent.{is_empty}
use test_enclave_newapi.Wire.Mapping.{Mapping, target, visited_before, model, cycle, follow}

-- The name that follows, where there is one.
unfoldable pub next_name : Mapping → Bytes → Option Bytes
next_name m a = elim (target m a) [
  | none ↦ none
  | some b ↦ if is_empty b || str_eq b a then none else some b
]

-- `a` leads to `b` in any number of steps.
pub data Leads (m : Mapping) (a : Bytes) : Bytes → Type 0 where
  here : Leads m a a
  step : {b c : Bytes} → Leads m a b → next_name m b ≡ some c → Leads m a c

-- What `next_name` says of the table.
pub next_name-eq-some :
    (m : Mapping) (a b : Bytes)
    → next_name m a ≡ some b
    → (target m a ≡ some b) × ((is_empty b || str_eq b a) ≡ false)
unfolding next_name
next_name-eq-some m a b h = elim (Option-cases (target m a)) [
  | inl e ↦ absurd (cc (rw (e, next_name) at h))
  | inr (c, e) ↦ elim (Bool-cases (is_empty c || str_eq c a)) [
    | inl t ↦ absurd (cc (rw (e, next_name, t) at h))
    | inr f ↦ let q : some c ≡ some b = rw (e, next_name, f) at h in (e ∙ q, rw (some_inj q) at f)
  ]
]

module _ (m : Mapping) (n : ℕ) (vs : List Bytes) (a b : Bytes) (h : next_name m a ≡ some b) where
  pub follow_visited : visited_before vs b ≡ true → follow m (suc n) vs a ≡ cycle
  unfolding follow
  follow_visited v = let (e, f) = next_name-eq-some m a b h in rw (e, follow) (rw (f, v))

  pub follow_fresh : visited_before vs b ≡ false → follow m (suc n) vs a ≡ follow m n (b ∷ vs) b
  unfolding follow
  follow_fresh v = let (e, f) = next_name-eq-some m a b h in rw (e, follow) (rw (f, v))

pub follow_end :
    (m : Mapping) (n : ℕ) (vs : List Bytes) (a : Bytes)
    → next_name m a ≡ none
    → follow m (suc n) vs a ≡ model a
unfolding follow next_name
follow_end m n vs a h = elim (Option-cases (target m a)) [
  | inl e ↦ rw (e, follow)
  | inr (c, e) ↦ elim (Bool-cases (is_empty c || str_eq c a)) [
    | inl t ↦ rw (e, follow) (rw t)
    | inr f ↦ absurd (cc (rw (e, next_name, f) at h))
  ]
]

pub visited_sound :
    (P : Bytes → Type 0) (vs : List Bytes) (b : Bytes) → visited_before vs b ≡ true → All P vs → P b
unfolding visited_before
visited_sound P [] b h p = absurd (cc h)
visited_sound P (v ∷ vs) b h (p, ps) = elim (or-eq-true (str_eq v b) (visited_before vs b) h) [
  | inl e ↦ rw (eq_of_str_eq v b e) at p
  | inr r ↦ visited_sound P vs b r ps
]

module _ (m : Mapping) where
  pub next_unique :
      (a : Bytes) {b c : Bytes} → next_name m a ≡ some b → next_name m a ≡ some c → b ≡ c
  next_unique a h k = some_inj (sym h ∙ k)

  -- The first step of a path.
  pub Leads-cases :
      {a b : Bytes} → Leads m a b → (a ≡ b) ⊎ ((x : Bytes) × (next_name m a ≡ some x) × Leads m x b)
  Leads-cases here = inl refl
  Leads-cases {a} (step {b = y} {c = z} r h) = elim (Leads-cases r) [
    | inl e ↦ inr (z, rw e h, here)
    | inr (x, k, t) ↦ inr (x, k, step t h)
  ]

  -- From one name all paths run along each other.
  Leads-linear : {a b c : Bytes} → Leads m a b → Leads m a c → Leads m b c ⊎ Leads m c b
  Leads-linear p here = inr p
  Leads-linear {b} p (step {b = y} {c = z} r h) = elim (Leads-linear p r) [
    | inl t ↦ inl (step t h)
    | inr t ↦ elim (Leads-cases t) [
      | inl e ↦ inl (step (rw e here) h)
      | inr (x, k, u) ↦ inr (rw (next_unique y h k) u)
    ]
  ]

  pub final_of_Leads : {b c : Bytes} → next_name m b ≡ none → Leads m b c → b ≡ c
  final_of_Leads h p = elim (Leads-cases p) [ inl e ↦ e | inr (x, k, t) ↦ absurd (cc (sym h ∙ k)) ]

  pub final_unique :
      {a b c : Bytes}
      → Leads m a b
      → next_name m b ≡ none
      → Leads m a c
      → next_name m c ≡ none
      → b ≡ c
  final_unique p h q k = elim (Leads-linear p q) [
    | inl t ↦ final_of_Leads h t
    | inr t ↦ sym (final_of_Leads k t)
  ]

  -- On a cycle every name that is reached leads back.
  pub Leads-back :
      {d e x : Bytes} → next_name m d ≡ some e → Leads m e d → Leads m d x → Leads m x d
  Leads-back h back here = here
  Leads-back {d} h back (step {b = y} {c = z} r k) = elim (Leads-cases (Leads-back h back r)) [
    | inl e ↦ rw (next_unique d (rw e at k) h) back
    | inr (w, l, t) ↦ rw (next_unique y k l) t
  ]
