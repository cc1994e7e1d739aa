-- ===== src/Control/Laws.antt =====
-- cmd/relay-core/control_client.go, `Settle`: the retry loop.
use test_enclave_newapi.Common.{
  ℕ, zero, suc, ◌+◌, ◌≤◌, ◌<◌, ◌≡◌, refl, inl, inr, true, false, Option, none, some, arith,
  Bool-cases, Option-cases, ◌==◌, ==_iff,
}
use test_enclave_newapi.Url.Percent.{is_empty}
use test_enclave_newapi.Control.{
  SettleReply, Settled, accepted, rejected, exhausted, settle_attempts, http_settle,
}

-- A reply that lets the loop go on: no answer, or neither an acceptance nor a reason.
abbrev pub Inconclusive : Option SettleReply → Type 0
Inconclusive none = Unit
Inconclusive (some r) = (r.is_ok ≡ false) × (is_empty r.error ≡ true)

-- A reply that ends the loop, with how it ends.
abbrev pub Concludes : Option SettleReply → Settled → Type 0
Concludes none s = ⊥
Concludes (some r) accepted = r.is_ok ≡ true
Concludes (some r) rejected = (r.is_ok ≡ false) × (is_empty r.error ≡ false)
Concludes (some r) exhausted = ⊥

-- The replies from the call `first` on were inconclusive, up to the call `last`, which concluded, or
-- up to the limit `stop` on the calls.
pub data Run (replies : ℕ → Option SettleReply) (first stop : ℕ) : Settled × ℕ → Type 0 where
  ended :
      (last : ℕ) (s : Settled)
      → first ≤ last
      → last < stop
      → ((i : ℕ) → first ≤ i → i < last → Inconclusive (replies i))
      → Concludes (replies last) s
      → Run replies first stop (s, suc last)
  gave_up :
      ((i : ℕ) → first ≤ i → i < stop → Inconclusive (replies i))
      → Run replies first stop (exhausted, stop)

module _ (replies : ℕ → Option SettleReply) where
  earlier :
      (first stop : ℕ)
      → Inconclusive (replies first)
      → ((i : ℕ) → suc first ≤ i → i < stop → Inconclusive (replies i))
      → (i : ℕ) → first ≤ i
      → i < stop
      → Inconclusive (replies i)
  earlier first stop h k i a b = elim (Bool-cases (first == i)) [
    | inl y ↦ rw⁻¹ ((==_iff first i).0 y) h
    | inr n ↦ k i (ground arith) b
  ]

  later :
      {first stop : ℕ} {x : Settled × ℕ}
      → Inconclusive (replies first)
      → Run replies (suc first) stop x
      → Run replies first stop x
  later {first} h (ended last s a b k c) =
      ended last s (omega (arith, a)) b (earlier first last h k) c
  later {first} {stop} h (gave_up k) = gave_up (earlier first stop h k)

  settle_attempts-Run :
      (n first stop : ℕ)
      → first + n ≡ stop
      → Run replies first stop (settle_attempts n replies first)
  unfolding settle_attempts
  settle_attempts-Run zero first stop e =
      let q : first ≡ stop = omega (arith, e) in
      rw q (gave_up (λ i a b. absurd (omega (arith, a, b))))
  settle_attempts-Run (suc n) first stop e =
      let again = settle_attempts-Run n (suc first) stop (omega (arith, e)) in
      elim (Option-cases (replies first)) [
        | inl m ↦ rw (m, settle_attempts) (later (rw m tt) again)
        | inr (r, m) ↦ elim (Bool-cases r.is_ok) [
          | inl y ↦
              rw (m, y, settle_attempts)
                (ended first accepted (omega arith) (omega (arith, e))
                  (λ i a b. absurd (omega (arith, a, b))) (rw m y))
          | inr f ↦ elim (Bool-cases (is_empty r.error)) [
            | inl z ↦ rw (m, f, z, settle_attempts) (later (rw m (f, z)) again)
            | inr z ↦
                rw (m, f, z, settle_attempts)
                  (ended first rejected (omega arith) (omega (arith, e))
                    (λ i a b. absurd (omega (arith, a, b))) (rw m (f, z)))
          ]
        ]
      ]

  -- A settlement is sent at most three times; it is sent again only after calls that gave neither an
  -- acceptance nor a reason, and it ends as the first reply with one of them says.
  pub http_settle-Run : Run replies 0 3 (http_settle replies)
  unfolding http_settle
  http_settle-Run = settle_attempts-Run 3 0 3 refl
