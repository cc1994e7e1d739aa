-- ===== src/Regex.antt =====
-- `regexp` for anchored patterns without captures: a pattern as data, matched by derivatives.
use test_enclave_newapi.Common.{
  ℕ, ◌≤◌, ◌≡◌, refl, Bool, true, false, ◌&&◌, ◌||◌, [], ◌∷◌, arith, leb, leb→le, if◌then◌else◌, All,
  Bool-cases, inl, inr, and-eq-true, or-eq-true,
}
use test_enclave_newapi.Text.{Bytes}

pub data Regex : Type 0 where
  nothing : Regex
  empty : Regex
  range : ℕ → ℕ → Regex
  cat : Regex → Regex → Regex
  alt : Regex → Regex → Regex
  star : Regex → Regex

abbrev pub literal : Bytes → Regex
literal [] = empty
literal (c ∷ s) = cat (range c c) (literal s)

abbrev pub plus : Regex → Regex
plus r = cat r (star r)

abbrev pub optional : Regex → Regex
optional r = alt r empty

unfoldable pub nullable : Regex → Bool
nullable nothing = false
nullable empty = true
nullable (range lo hi) = false
nullable (cat r s) = nullable r && nullable s
nullable (alt r s) = nullable r || nullable s
nullable (star r) = true

-- What may follow the byte `c`.
unfoldable pub derive : ℕ → Regex → Regex
unfolding nullable
derive c nothing = nothing
derive c empty = nothing
derive c (range lo hi) = if leb lo c && leb c hi then empty else nothing
derive c (cat r s) =
    if nullable r then alt (cat (derive c r) s) (derive c s) else cat (derive c r) s
derive c (alt r s) = alt (derive c r) (derive c s)
derive c (star r) = cat (derive c r) (star r)

unfoldable pub matches : Regex → Bytes → Bool
unfolding derive nullable
matches r [] = nullable r
matches r (c ∷ s) = matches (derive c r) s

-- Whether a pattern can read the byte `c` first.
unfoldable pub reads : ℕ → Regex → Bool
unfolding nullable
reads c nothing = false
reads c empty = false
reads c (range lo hi) = leb lo c && leb c hi
reads c (cat r s) = reads c r || (nullable r && reads c s)
reads c (alt r s) = reads c r || reads c s
reads c (star r) = reads c r

-- Patterns that match no text.
void : Regex → Bool
void nothing = true
void empty = false
void (range lo hi) = false
void (cat r s) = void r || void s
void (alt r s) = void r && void s
void (star r) = false

void-nullable : (r : Regex) → void r ≡ true → nullable r ≡ false
unfolding void nullable
void-nullable nothing h = refl
void-nullable empty h = cc
void-nullable (range lo hi) h = refl
void-nullable (cat r s) h = ground (arith, void-nullable r, void-nullable s)
void-nullable (alt r s) h = ground (arith, void-nullable r, void-nullable s)
void-nullable (star r) h = cc

void-derive : (c : ℕ) (r : Regex) → void r ≡ true → void (derive c r) ≡ true
unfolding void derive
void-derive c nothing h = refl
void-derive c empty h = cc
void-derive c (range lo hi) h = cc
void-derive c (cat r s) h = ground (arith, void-derive c r, void-derive c s, void-nullable r)
void-derive c (alt r s) h = ground (arith, void-derive c r, void-derive c s)
void-derive c (star r) h = cc

void-matches : (r : Regex) (s : Bytes) → void r ≡ true → matches r s ≡ false
unfolding matches
void-matches r [] h = void-nullable r h
void-matches r (c ∷ s) h = void-matches (derive c r) s (void-derive c r h)

void-derive_unread : (c : ℕ) (r : Regex) → reads c r ≡ false → void (derive c r) ≡ true
unfolding void derive reads
void-derive_unread c nothing h = refl
void-derive_unread c empty h = refl
void-derive_unread c (range lo hi) h = rw h
void-derive_unread c (cat r s) h = ground (arith, void-derive_unread c r, void-derive_unread c s)
void-derive_unread c (alt r s) h = ground (arith, void-derive_unread c r, void-derive_unread c s)
void-derive_unread c (star r) h = ground (arith, void-derive_unread c r)

-- Every byte that the pattern reads satisfies `P`.
module _ (P : ℕ → Type 0) where
  abbrev pub Over : Regex → Type 0
  Over nothing = Unit
  Over empty = Unit
  Over (range lo hi) = (c : ℕ) → lo ≤ c → c ≤ hi → P c
  Over (cat r s) = Over r × Over s
  Over (alt r s) = Over r × Over s
  Over (star r) = Over r

  Over-derive : (c : ℕ) (r : Regex) → Over r → Over (derive c r)
  unfolding derive
  Over-derive c nothing h = tt
  Over-derive c empty h = tt
  Over-derive c (range lo hi) h = elim (Bool-cases (leb lo c && leb c hi)) [
    | inl e ↦ rw e tt
    | inr e ↦ rw e tt
  ]
  Over-derive c (cat r s) (h, k) = elim (Bool-cases (nullable r)) [
    | inl e ↦ rw e ((Over-derive c r h, k), Over-derive c s k)
    | inr e ↦ rw e (Over-derive c r h, k)
  ]
  Over-derive c (alt r s) (h, k) = (Over-derive c r h, Over-derive c s k)
  Over-derive c (star r) h = (Over-derive c r h, h)

  reads_sound : (c : ℕ) (r : Regex) → Over r → reads c r ≡ true → P c
  unfolding reads
  reads_sound c nothing h e = cc
  reads_sound c empty h e = cc
  reads_sound c (range lo hi) h e =
      let (a, b) = and-eq-true (leb lo c) (leb c hi) e in h c (leb→le lo c a) (leb→le c hi b)
  reads_sound c (cat r s) (h, k) e = elim (or-eq-true (reads c r) (nullable r && reads c s) e) [
    | inl a ↦ reads_sound c r h a
    | inr b ↦ reads_sound c s k (and-eq-true (nullable r) (reads c s) b).1
  ]
  reads_sound c (alt r s) (h, k) e = elim (or-eq-true (reads c r) (reads c s) e) [
    | inl a ↦ reads_sound c r h a
    | inr b ↦ reads_sound c s k b
  ]
  reads_sound c (star r) h e = reads_sound c r h e

  pub matches-All : (r : Regex) (s : Bytes) → Over r → matches r s ≡ true → All P s
  unfolding matches
  matches-All r [] h e = tt
  matches-All r (c ∷ s) h e = elim (Bool-cases (reads c r)) [
    | inl a ↦ (reads_sound c r h a, matches-All (derive c r) s (Over-derive c r h) e)
    | inr b ↦ absurd (cc (void-matches (derive c r) s (void-derive_unread c r b)))
  ]
