-- ===== src/Text/Cuts.antt =====
-- Cutting a text at the first or the last occurrence of a byte.
use test_enclave_newapi.Common.{
  false, ℕ, ◌≡◌, refl, ap, inl, inr, [], ◌∷◌, ◌++◌, Option, none, some, arith, ◌==◌, ==_iff,
  ==_self, Bool-cases, Option-cases, if◌then◌else◌,
}
use test_enclave_newapi.Text.{Bytes, cut, last_cut, before, from}
use test_enclave_newapi.Text.Laws.{Lacks}

pub cut-none : (s : Bytes) (b : ℕ) → cut s b ≡ none → Lacks b s
unfolding cut
cut-none [] b h = tt
cut-none (c ∷ s) b h = elim (Option-cases (cut s b)) [
  | inl e ↦ (ground arith, cut-none s b e)
  | inr (xy, e) ↦ absurd (ground arith)
]

pub last_cut-none : (s : Bytes) (b : ℕ) → last_cut s b ≡ none → Lacks b s
unfolding last_cut
last_cut-none [] b h = tt
last_cut-none (c ∷ s) b h = elim (Option-cases (last_cut s b)) [
  | inl e ↦ (ground arith, last_cut-none s b e)
  | inr (xy, e) ↦ absurd (ground arith)
]

abbrev pub Halves : Type 0
Halves = Option (Bytes × Bytes)

pub some_pair : {a x b y : Bytes} → ◌≡◌ {A = Halves} (some (a, b)) (some (x, y)) → (a ≡ x) × (b ≡ y)
some_pair h = (cc, cc)

last_cut_here :
    (c : ℕ) (s : Bytes) (b : ℕ) (x y : Bytes)
    → Lacks b s
    → if◌then◌else◌ {A = Halves} (c == b) (some ([], s)) none ≡ some (x, y)
    → (c ∷ s ≡ x ++ b ∷ y) × Lacks b y
last_cut_here c s b x y h e = elim (Bool-cases (c == b)) [
  | inl t ↦
      let (p, q) = some_pair (rw t at e) in (rw (← p, ← q) (cc ((==_iff c b).0 t)), rw (← q) h)
  | inr f ↦ absurd (ground arith)
]

pub last_cut_sound :
    (s : Bytes) (b : ℕ) (x y : Bytes) → last_cut s b ≡ some (x, y) → (s ≡ x ++ b ∷ y) × Lacks b y
unfolding last_cut
last_cut_sound [] b x y h = cc
last_cut_sound (c ∷ s) b x y h = elim (Option-cases (last_cut s b)) [
  | inl e ↦ last_cut_here c s b x y (last_cut-none s b e) (rw (e, last_cut) at h)
  | inr ((u, v), e) ↦
      let (p, q) = some_pair (rw (e, last_cut) at h) in
      let (r, l) = last_cut_sound s b u v e in (rw (← p, ← q) (ap (λ t. c ∷ t) r), rw (← q) l)
]

pub last_cut_of_Lacks : (s : Bytes) (b : ℕ) → Lacks b s → last_cut s b ≡ none
unfolding last_cut
last_cut_of_Lacks [] b h = refl
last_cut_of_Lacks (c ∷ s) b (p, h) = rw (last_cut_of_Lacks s b h) (ground arith)

pub last_cut-append : (x y : Bytes) (b : ℕ) → Lacks b y → last_cut (x ++ b ∷ y) b ≡ some (x, y)
unfolding last_cut
last_cut-append [] y b h = rw (last_cut_of_Lacks y b h, ==_self b)
last_cut-append (c ∷ x) y b h = rw (last_cut-append x y b h)

-- Cutting at the first occurrence, where there is none before the point.
pub before-append : (x y : Bytes) (b : ℕ) → Lacks b x → before (x ++ b ∷ y) b ≡ x
unfolding before
before-append [] y b h = rw (==_self b)
before-append (c ∷ x) y b (p, h) = ground (arith, before-append x y b h)

pub before_of_Lacks : (x : Bytes) (b : ℕ) → Lacks b x → before x b ≡ x
unfolding before
before_of_Lacks [] b h = refl
before_of_Lacks (c ∷ x) b (p, h) = ground (arith, before_of_Lacks x b h)

pub from-append : (x y : Bytes) (b : ℕ) → Lacks b x → from (x ++ b ∷ y) b ≡ b ∷ y
unfolding from
from-append [] y b h = rw (==_self b) refl
from-append (c ∷ x) y b (p, h) =
    let n : (c == b) ≡ false = ground arith in rw n (from-append x y b h)

pub from_of_Lacks : (x : Bytes) (b : ℕ) → Lacks b x → from x b ≡ []
unfolding from
from_of_Lacks [] b h = refl
from_of_Lacks (c ∷ x) b (p, h) =
    let n : (c == b) ≡ false = ground arith in rw n (from_of_Lacks x b h)

pub before-Lacks : (s : Bytes) (b : ℕ) → Lacks b (before s b)
unfolding before
before-Lacks [] b = tt
before-Lacks (c ∷ s) b = elim (Bool-cases (c == b)) [
  | inl t ↦ rw t tt
  | inr f ↦ rw f (ground arith, before-Lacks s b)
]

pub before_split : (s : Bytes) (b : ℕ) → s ≡ before s b ++ from s b
unfolding before from
before_split [] b = refl
before_split (c ∷ s) b = elim (Bool-cases (c == b)) [
  | inl t ↦ rw t
  | inr f ↦ rw f (ap (λ t. c ∷ t) (before_split s b))
]

pub cut-append : (x y : Bytes) (b : ℕ) → Lacks b x → cut (x ++ b ∷ y) b ≡ some (x, y)
unfolding cut
cut-append [] y b h = rw (==_self b) refl
cut-append (c ∷ x) y b (p, h) =
    let n : (c == b) ≡ false = ground arith in rw (n, cut-append x y b h) refl
