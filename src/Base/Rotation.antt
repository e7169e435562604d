-- ===== src/Base/Rotation.antt =====
-- Threads that go round a list, one entry at a time, and begin again behind its end.
use Prim.Native.Nat.{ℕ, zero, suc, ◌+◌, ◌-◌, ◌≤◌, ◌<◌}
use mathlib.Core.Path.{◌≡◌, refl, ap, ◌∙◌}
use mathlib.Core.Bool.{false}
use mathlib.Core.Option.{Option, none, some}
use native.Mathlib.Decide.{dec_lt}
use native.Mathlib.Omega.{arith}
use cliveserver.Base.Tests.{ltb, lt→ltb, ◌==◌, if◌then◌else◌}

abbrev pub successor : ℕ → ℕ → Option ℕ
successor size i = if ltb (i + 1) size then some (i + 1) else none

unfoldable pub steps :
    {S : Type 0} → (S × Option ℕ → S × Option ℕ) → ℕ → S × Option ℕ → S × Option ℕ
steps step zero s = s
steps step (suc n) s = steps step n (step s)

pub steps-add :
    {S : Type 0} (step : S × Option ℕ → S × Option ℕ) (m n : ℕ) (s : S × Option ℕ)
    → steps step (m + n) s ≡ steps step n (steps step m s)
unfolding steps
steps-add step zero n s = ap (λ i. steps step i s) {x = 0 + n} {y = n} (omega arith)
steps-add step (suc m) n s =
    ap (λ i. steps step i s) {x = suc m + n} {y = suc (m + n)} (omega arith)
    ∙ steps-add step m n (step s)

-- A rotation over `size` entries: where no other entry than the one at `j` breaks `P`.
pub record IsRotation {S : Type 0} (step : S × Option ℕ → S × Option ℕ) (size j : ℕ)
    (P : S → Type 0) : Type 0 where
  pub listed : j < size
  pub begins : (s : S) → P s → step (s, none) ≡ (s, some 0)
  pub ends : (i : ℕ) → size ≤ i → (s : S) → P s → step (s, some i) ≡ (s, none)
  pub others :
      (i : ℕ)
      → i < size
      → (i == j) ≡ false
      → (s : S) → P s
      → (s' : S) × (step (s, some i) ≡ (s', successor size i)) × P s'

module _ {S : Type 0} (step : S × Option ℕ → S × Option ℕ) (size j : ℕ) (P : S → Type 0)
    (r : IsRotation step size j P) where
  abbrev Arrives : ℕ → S → Option ℕ → Option ℕ → Type 0
  Arrives n s from to = (s' : S) × (steps step n (s, from) ≡ (s', to)) × P s'

  passes-next :
      (n : ℕ) (s : S) (a b c : Option ℕ)
      → (s' : S) × (step (s, a) ≡ (s', b)) × P s'
      → ((s' : S) → P s' → Arrives n s' b c)
      → Arrives (suc n) s a c
  unfolding steps
  passes-next n s a b c (s', run, p) rest =
      let (s'', run', p') = rest s' p in (s'', ap (steps step n) run ∙ run', p')

  passes-add :
      (m n : ℕ) (s : S) (a b c : Option ℕ)
      → Arrives m s a b
      → ((s' : S) → P s' → Arrives n s' b c)
      → Arrives (m + n) s a c
  passes-add m n s a b c (s', run, p) rest =
      let (s'', run', p') = rest s' p in
      (s'', steps-add step m n (s, a) ∙ ap (steps step n) run ∙ run', p')

  past :
      (i : ℕ) (c : Option ℕ) (s : S)
      → i < size
      → (i == j) ≡ false
      → successor size i ≡ c
      → P s
      → (s' : S) × (step (s, some i) ≡ (s', c)) × P s'
  past i c s h ne to p =
      let (s', run, p') = r.others i h ne s p in (s', run ∙ ap (λ d. (s', d)) to, p')

  up_to : (d i : ℕ) → i + d ≡ j → (s : S) → P s → Arrives d s (some i) (some j)
  unfolding steps
  up_to zero i e s p = (s, ap (λ k. (s, some k)) {x = i} {y = j} (omega arith), p)
  up_to (suc d) i e s p =
      passes-next d s (some i) (some (i + 1)) (some j)
        (past i (some (i + 1)) s (omega (arith, r.listed)) (ground arith)
          (rw (lt→ltb (i + 1) size (omega (arith, r.listed))) refl) p)
        (up_to d (i + 1) (omega arith))

  to_end : (d i : ℕ) → j < i → i + suc d ≡ size → (s : S) → P s → Arrives (suc d) s (some i) none
  unfolding steps
  to_end zero i h e s p =
      passes-next 0 s (some i) none none
        (past i none s (omega arith) (ground arith) (ground arith) p) (λ s' p'. (s', refl, p'))
  to_end (suc d) i h e s p =
      passes-next (suc d) s (some i) (some (i + 1)) none
        (past i (some (i + 1)) s (omega arith) (ground arith)
          (rw (lt→ltb (i + 1) size (omega arith)) refl) p)
        (to_end d (i + 1) (omega arith) (omega arith))

  from_none : (s : S) → P s → Arrives (suc j) s none (some j)
  from_none s p =
      passes-next j s none (some 0) (some j) (s, r.begins s p, p) (up_to j 0 (omega arith))

  -- The thread comes to the entry within a round over the list, from wherever it is.
  pub comes : (c : Option ℕ) (s : S) → P s → (n : ℕ) × (n ≤ size + 1) × Arrives n s c (some j)
  comes none s p = (suc j, omega (arith, r.listed), from_none s p)
  comes (some i) s p = elim (dec_lt j i) [
    | no h ↦ (j - i, omega (arith, r.listed), up_to (j - i) i (omega arith) s p)
    | yes h ↦ elim (dec_lt i size) [
      | no o ↦ (
        suc (suc j),
        omega (arith, r.listed),
        passes-next (suc j) s (some i) none (some j) (s, r.ends i (omega arith) s p, p) from_none,
      )
      | yes o ↦ (
        suc (size - i - 1) + suc j,
        omega (arith, r.listed),
        passes-add (suc (size - i - 1)) (suc j) s (some i) none (some j)
            (to_end (size - i - 1) i h (omega arith) s p) from_none,
      )
    ]
  ]
