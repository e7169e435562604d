-- ===== src/Text/Find.antt =====
-- What the searches in a C string find.
use cliveserver.Base.{
  ℕ, ◌≡◌, refl, inl, inr, true, false, none, some, List, [], ◌∷◌, ◌++◌, arith, ◌==◌, Bool-cases,
  ==_self, ==_iff,
}
use cliveserver.Text.{strncmp_eq, starts_with, strchr}

-- no byte of the text is `c`
abbrev pub Without : ℕ → List ℕ → Type 0
Without c [] = Unit {0}
Without c (x ∷ s) = ((x == c) ≡ false) × Without c s

-- The first `c` behind a text without it is found.
pub strchr-append :
    (c : ℕ) (s rest : List ℕ) → Without c s → strchr (s ++ c ∷ rest) c ≡ some (s, c ∷ rest)
unfolding strchr
strchr-append c [] rest h = rw (==_self c) refl
strchr-append c (x ∷ s) rest h = rw (h.0, strchr-append c s rest h.1) refl

pub strchr-none : (c : ℕ) (s : List ℕ) → Without c s → strchr s c ≡ none
unfolding strchr
strchr-none c [] h = refl
strchr-none c (x ∷ s) h = rw (h.0, strchr-none c s h.1) refl

pub starts_with-append : (p s : List ℕ) → starts_with (p ++ s) p ≡ true
unfolding starts_with strncmp_eq
starts_with-append [] s = refl
starts_with-append (x ∷ p) s = rw (==_self x) (starts_with-append p s)

-- `starts_with` decides being a prefix.
pub starts_with-split : (p s : List ℕ) → starts_with s p ≡ true → (rest : List ℕ) × (s ≡ p ++ rest)
unfolding starts_with strncmp_eq
starts_with-split [] s h = (s, refl)
starts_with-split (x ∷ p) [] h = cc
starts_with-split (x ∷ p) (y ∷ s) h = elim (Bool-cases (x == y)) [
  | inr e ↦ cc (rw e at h)
  | inl e ↦
      let (rest, split) = starts_with-split p s (rw e at h) in
      (rest, ground (arith, ==_iff x y, split))
]
