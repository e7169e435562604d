-- ===== src/Base/Sublists.antt =====
-- Lists that are left of another when some of its elements are taken out.
use Prim.Native.Nat.{ℕ, zero, suc, ◌≤◌}
use mathlib.Core.Path.{◌≡◌, refl}
use mathlib.Core.Logic.{◌⊎◌, inl, inr}
use mathlib.Core.List.{List, [], ◌∷◌, ◌++◌}
use native.Mathlib.Omega.{arith}
use cliveserver.Base.Lists.{length, take}

module _ {A : Type 0} where
  abbrev pub Sublist : List A → List A → Type 0
  Sublist [] ys = Unit {0}
  Sublist (x ∷ xs) [] = ⊥
  Sublist (x ∷ xs) (y ∷ ys) = ((x ≡ y) × Sublist xs ys) ⊎ Sublist (x ∷ xs) ys

  pub Sublist-refl : (xs : List A) → Sublist xs xs
  Sublist-refl [] = tt
  Sublist-refl (x ∷ xs) = inl (refl, Sublist-refl xs)

  pub Sublist_skip : (xs : List A) (y : A) (ys : List A) → Sublist xs ys → Sublist xs (y ∷ ys)
  Sublist_skip [] y ys s = tt
  Sublist_skip (x ∷ xs) y ys s = inr s

  Sublist_rest : (x : A) (xs ys : List A) → Sublist (x ∷ xs) ys → Sublist xs ys
  Sublist_rest x xs [] s = elim s [ ]
  Sublist_rest x xs (y ∷ ys) (inl (e, s)) = Sublist_skip xs y ys s
  Sublist_rest x xs (y ∷ ys) (inr s) = Sublist_skip xs y ys (Sublist_rest x xs ys s)

  pub Sublist-trans : (xs ys zs : List A) → Sublist xs ys → Sublist ys zs → Sublist xs zs
  Sublist-trans [] ys zs s t = tt
  Sublist-trans (x ∷ xs) [] zs s t = elim s [ ]
  Sublist-trans (x ∷ xs) (y ∷ ys) [] s t = elim t [ ]
  Sublist-trans (x ∷ xs) (y ∷ ys) (z ∷ zs) (inl (e, s)) (inl (e', t)) =
      inl (cc, Sublist-trans xs ys zs s t)
  Sublist-trans (x ∷ xs) (y ∷ ys) (z ∷ zs) (inr s) (inl (e', t)) =
      inr (Sublist-trans (x ∷ xs) ys zs s t)
  Sublist-trans (x ∷ xs) (y ∷ ys) (z ∷ zs) s (inr t) = inr (Sublist-trans (x ∷ xs) (y ∷ ys) zs s t)

  pub Sublist_after : (xs ys zs : List A) → Sublist ys zs → Sublist (xs ++ ys) (xs ++ zs)
  Sublist_after [] ys zs s = s
  Sublist_after (x ∷ xs) ys zs s = inl (refl, Sublist_after xs ys zs s)

  pub Sublist_shift : (xs ys zs : List A) → Sublist xs zs → Sublist xs (ys ++ zs)
  Sublist_shift xs [] zs s = s
  Sublist_shift xs (y ∷ ys) zs s = Sublist_skip xs y (ys ++ zs) (Sublist_shift xs ys zs s)

  pub Sublist_before : (xs ys zs : List A) → Sublist xs ys → Sublist (xs ++ zs) (ys ++ zs)
  Sublist_before [] ys zs s = Sublist_shift zs ys zs (Sublist-refl zs)
  Sublist_before (x ∷ xs) [] zs s = elim s [ ]
  Sublist_before (x ∷ xs) (y ∷ ys) zs (inl (e, s)) = inl (e, Sublist_before xs ys zs s)
  Sublist_before (x ∷ xs) (y ∷ ys) zs (inr s) = inr (Sublist_before (x ∷ xs) ys zs s)

  pub Sublist-take : (n : ℕ) (xs : List A) → Sublist (take n xs) xs
  Sublist-take zero xs = tt
  Sublist-take (suc n) [] = tt
  Sublist-take (suc n) (x ∷ xs) = inl (refl, Sublist-take n xs)

  Sublist-length : (xs ys : List A) → Sublist xs ys → length xs ≤ length ys
  Sublist-length [] ys s = omega arith
  Sublist-length (x ∷ xs) [] s = elim s [ ]
  Sublist-length (x ∷ xs) (y ∷ ys) (inl (e, s)) = omega (arith, Sublist-length xs ys s)
  Sublist-length (x ∷ xs) (y ∷ ys) (inr s) = omega (arith, Sublist-length (x ∷ xs) ys s)

  -- Nothing is taken out of a list of the same length.
  pub Sublist_same : (xs ys : List A) → Sublist xs ys → length xs ≡ length ys → xs ≡ ys
  Sublist_same [] [] s e = refl
  Sublist_same [] (y ∷ ys) s e = absurd (omega (arith, e))
  Sublist_same (x ∷ xs) [] s e = elim s [ ]
  Sublist_same (x ∷ xs) (y ∷ ys) (inl (e', s)) e = cc (e', Sublist_same xs ys s (omega (arith, e)))
  Sublist_same (x ∷ xs) (y ∷ ys) (inr s) e = absurd (omega (arith, e, Sublist-length (x ∷ xs) ys s))
