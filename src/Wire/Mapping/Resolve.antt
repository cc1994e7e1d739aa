-- ===== src/Wire/Mapping/Resolve.antt =====
-- `ResolveModelMapping`: the loop ends, and finds the end of the chain exactly when there is one.
use test_enclave_newapi.Common.{
  ℕ, zero, suc, ◌+◌, ◌≤◌, ◌<◌, ◌≡◌, sym, ap, ◌∙◌, ◌≢◌, ◌↔◌, ◌⊎◌, inl, inr, false, List, [], ◌∷◌,
  none, some, arith, if◌then◌else◌, Bool-cases, Option-cases, length, All,
}
use test_enclave_newapi.Text.{Bytes, str_eq}
use test_enclave_newapi.Text.Laws.{str_eq_refl, eq_of_str_eq}
use test_enclave_newapi.Wire.Mapping.{
  Mapping, target, visited_before, model, cycle, follow, resolve_in,
}
use test_enclave_newapi.Wire.Mapping.Chain.{
  next_name, Leads, here, step, follow_visited, follow_fresh, follow_end, visited_sound,
  next_unique, Leads-cases, final_of_Leads, final_unique, Leads-back,
}

-- The entries whose key the loop has not seen.
unvisited : Mapping → List Bytes → ℕ
unvisited [] vs = 0
unvisited ((k, v) ∷ m) vs = if visited_before vs k then unvisited m vs else suc (unvisited m vs)

unvisited-le : (m : Mapping) (vs : List Bytes) → unvisited m vs ≤ length m
unfolding unvisited
unvisited-le [] vs = omega arith
unvisited-le ((k, v) ∷ m) vs = ground (arith, unvisited-le m vs)

unvisited-cons-le :
    (m : Mapping) (vs : List Bytes) (b : Bytes) → unvisited m (b ∷ vs) ≤ unvisited m vs
unfolding unvisited visited_before
unvisited-cons-le [] vs b = omega arith
unvisited-cons-le ((k, v) ∷ m) vs b = ground (arith, unvisited-cons-le m vs b)

unvisited-cons-lt :
    (m : Mapping) (vs : List Bytes) (b c : Bytes)
    → target m b ≡ some c
    → visited_before vs b ≡ false
    → unvisited m (b ∷ vs) < unvisited m vs
unfolding unvisited target visited_before
unvisited-cons-lt [] vs b c h f = cc
unvisited-cons-lt ((k, v) ∷ m) vs b c h f = elim (Bool-cases (str_eq k b)) [
  | inl t ↦
      let e : k ≡ b = eq_of_str_eq k b t in
      rw (e, str_eq_refl b, f) (ground (arith, unvisited-cons-le m vs b))
  | inr t ↦ ground (arith, unvisited-cons-lt m vs b c (rw t at h) f)
]

Leads-cons : (m : Mapping) {a x b : Bytes} → next_name m a ≡ some x → Leads m x b → Leads m a b
Leads-cons m h here = step here h
Leads-cons m h (step r k) = step (Leads-cons m h r) k

follow_sound :
    (m : Mapping) (n : ℕ) (vs : List Bytes) (a b : Bytes)
    → follow m n vs a ≡ model b
    → Leads m a b × (next_name m b ≡ none)
follow_sound m zero vs a b h = absurd (unfold follow in cc h)
follow_sound m (suc n) vs a b h = elim (Option-cases (next_name m a)) [
  | inl e ↦ let q : a ≡ b = cc (sym (follow_end m n vs a e) ∙ h) in (rw q here, rw q at e)
  | inr (x, e) ↦ elim (Bool-cases (visited_before vs x)) [
    | inl v ↦ absurd (cc (sym (follow_visited m n vs a x e v) ∙ h))
    | inr f ↦
        let (p, k) = follow_sound m n (x ∷ vs) x b (sym (follow_fresh m n vs a x e f) ∙ h) in
        (Leads-cons m e p, k)
  ]
]

-- With fuel above the unseen keys the loop returns a name or finds a cycle.
follow_ends :
    (m : Mapping) (n : ℕ) (vs : List Bytes) (a : Bytes)
    → unvisited m vs + 1 < n
    → (follow m n vs a ≡ cycle) ⊎ ((b : Bytes) × (follow m n vs a ≡ model b))
follow_ends m zero vs a h = absurd (omega arith)
follow_ends m (suc zero) vs a h = absurd (omega arith)
follow_ends m (suc (suc n)) vs a h = elim (Option-cases (next_name m a)) [
  | inl e ↦ inr (a, follow_end m (suc n) vs a e)
  | inr (x, e) ↦ elim (Bool-cases (visited_before vs x)) [
    | inl v ↦ inl (follow_visited m (suc n) vs a x e v)
    | inr f ↦ rw (follow_fresh m (suc n) vs a x e f) (elim (Option-cases (target m x)) [
      | inl t ↦ inr (x, follow_end m n (x ∷ vs) x (unfold next_name in rw (t, next_name)))
      | inr (y, t) ↦
          follow_ends m (suc n) (x ∷ vs) x (omega (arith, unvisited-cons-lt m vs x y t f))
    ])
  ]
]

-- Where the loop finds a cycle, no name that is reached ends the chain.
follow_cycle :
    (m : Mapping) (n : ℕ) (vs : List Bytes) (a : Bytes)
    → follow m n vs a ≡ cycle
    → All (λ v. Leads m v a) vs
    → (b : Bytes) → Leads m a b
    → next_name m b ≢ none
follow_cycle m zero vs a h back b p k = absurd (unfold follow in cc h)
follow_cycle m (suc n) vs a h back b p k = elim (Option-cases (next_name m a)) [
  | inl e ↦ absurd (cc (sym (follow_end m n vs a e) ∙ h))
  | inr (x, e) ↦ elim (Bool-cases (visited_before vs x)) [
    | inl v ↦
        let q : b ≡ a =
          final_of_Leads m k (Leads-back m e (visited_sound (λ v. Leads m v a) vs x v back) p) in
        cc (sym e ∙ ap (next_name m) (sym q) ∙ k)
    | inr f ↦ elim (Leads-cases m p) [
      | inl q ↦ cc (sym e ∙ ap (next_name m) q ∙ k)
      | inr (w, l, t) ↦
          follow_cycle m n (x ∷ vs) x (sym (follow_fresh m n vs a x e f) ∙ h)
            (here, all_step vs back e) b (rw (next_unique m a l e) at t) k
    ]
  ]
]
  where
    all_step :
        (us : List Bytes)
        → All (λ v. Leads m v a) us
        → {x : Bytes} → next_name m a ≡ some x
        → All (λ v. Leads m v x) us
    all_step [] _ e = tt
    all_step (u ∷ us) (q, qs) e = (step q e, all_step us qs e)

resolve_ends :
    (m : Mapping) (a : Bytes)
    → (resolve_in m a ≡ cycle) ⊎ ((b : Bytes) × (resolve_in m a ≡ model b))
resolve_ends m a = follow_ends m (length m + 2) (a ∷ []) a (omega (arith, unvisited-le m (a ∷ [])))

-- The loop resolves a name to `b` exactly when the mapping's chain leads from the name to `b` and
-- ends there: `b` has no entry, an empty one, or one that is `b` itself.
pub resolve-eq-model_iff :
    (m : Mapping) (a b : Bytes)
    → (resolve_in m a ≡ model b) ↔ (Leads m a b × (next_name m b ≡ none))
resolve-eq-model_iff m a b = (
  follow_sound m (length m + 2) (a ∷ []) a b,
  λ (p, k). elim (resolve_ends m a) [
    | inl c ↦ absurd (follow_cycle m (length m + 2) (a ∷ []) a c (here, tt) b p k)
    | inr (d, e) ↦
        let (q, l) = follow_sound m (length m + 2) (a ∷ []) a d e in
        e ∙ ap model (final_unique m q l p k)
  ],
)

-- The loop reports a cycle exactly when the chain from the name never ends: every name that it leads
-- to has a next one.
pub resolve-eq-cycle_iff :
    (m : Mapping) (a : Bytes)
    → (resolve_in m a ≡ cycle) ↔ ((b : Bytes) → Leads m a b → next_name m b ≢ none)
resolve-eq-cycle_iff m a = (
  λ c. follow_cycle m (length m + 2) (a ∷ []) a c (here, tt),
  λ endless. elim (resolve_ends m a) [
    | inl c ↦ c
    | inr (b, e) ↦
        let (p, k) = follow_sound m (length m + 2) (a ∷ []) a b e in absurd (endless b p k)
  ],
)
