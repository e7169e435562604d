-- ===== src/Base/Draining.antt =====
-- A rotation in which each visit to one entry takes up to 1024 of the bytes that wait there.
use Prim.Native.Nat.{ℕ, zero, suc, ◌+◌, ◌*◌, ◌≤◌}
use mathlib.Core.Path.{◌≡◌, refl, ap, ◌∙◌, subst}
use mathlib.Core.Option.{Option, some}
use mathlib.Core.List.{List, []}
use native.Mathlib.Omega.{arith}
use cliveserver.Base.Lists.{length, drop, length-drop, nil_of_length}
use cliveserver.Base.Rotation.{steps, steps-add, IsRotation, comes}

bound_add : (turns n m l : ℕ) → n ≤ l + 1 → m ≤ turns * (l + 2) → n + suc m ≤ suc turns * (l + 2)
bound_add turns n m l h h' = omega arith

module _ {S : Type 0} (step : S × Option ℕ → S × Option ℕ) (size j : ℕ)
    (P : List ℕ → S → Type 0) where
  -- a visit to the entry at `j`
  abbrev pub Draws : Type 0
  Draws =
      (waiting : List ℕ) (s : S)
      → P waiting s
      → (s' : S) × (c : Option ℕ) × (step (s, some j) ≡ (s', c)) × P (drop 1024 waiting) s'

  pub drains :
      (turns : ℕ) (waiting : List ℕ) (c : Option ℕ) (s : S)
      → ((w : List ℕ) → IsRotation step size j (P w))
      → Draws
      → P waiting s
      → length waiting ≤ turns * 1024
      → (n : ℕ) × (s' : S) × (c' : Option ℕ) × (n ≤ turns * (size + 2))
        × (steps step n (s, c) ≡ (s', c'))
        × P [] s'
  unfolding steps
  drains zero waiting c s r takes p le =
      (0, s, c, omega arith, refl, subst (λ l. P l s) (nil_of_length waiting (omega (arith, le))) p)
  drains (suc turns) waiting c s r takes p le =
      let (n, small, (s1, run, p1)) = comes step size j (P waiting) (r waiting) c s p in
      let (s2, c2, run2, p2) = takes waiting s1 p1 in
      let (m, s3, c3, small3, run3, empty) =
        drains turns (drop 1024 waiting) c2 s2 r takes p2
          (omega (arith, le, length-drop 1024 waiting)) in
      (
        n + suc m,
        s3,
        c3,
        bound_add turns n m size small small3,
        steps-add step n (suc m) (s, c)
            ∙ ap (steps step (suc m)) run
            ∙ ap (steps step m) run2
            ∙ run3,
        empty,
      )
