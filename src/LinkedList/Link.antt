-- ===== src/LinkedList/Link.antt =====
-- An entry between two stretches of linked cells: put there by ListInsertAfterCurrent and
-- ListInsertBeforeCurrent, and taken out by ListRemoveCurrent.
use cliveserver.Base.{
  ℕ, ◌≡◌, refl, sym, ◌∙◌, true, false, none, some, [], ◌∷◌, ◌++◌, ◌==◌, ==_self, arith,
}
use cliveserver.LinkedList.{Ptr, null, entry, Heap, write, next_if, prev_if, free}
use cliveserver.LinkedList.Linked.{
  Chain, holds_at, first, last, Linked, Apart, frame, split, join, free_of_none,
}
use cliveserver.LinkedList.Relink.{next_if-last, prev_if-first, free-some}

pub differs :
    (a p : Ptr) (xs : Chain) → holds_at a xs ≡ true → holds_at p xs ≡ false → (a == p) ≡ false
differs a p [] i o = ground arith
differs a p ((q, v) ∷ xs) i o = ground (arith, differs a p xs)

pub flip : (xs ys : Chain) → Apart xs ys → (a : Ptr) → holds_at a ys ≡ true → holds_at a xs ≡ false
flip xs ys apart a i = ground (arith, apart a)

-- An entry that is new to the store, between two stretches.
module _ (h : Heap) (xs ys : Chain) (p : Ptr) (v : ℕ) (left : Linked h null xs (first ys null))
    (right : Linked h (last null xs) ys null) (apart : Apart xs ys) (new : h p ≡ none)
    (ne : (p == null) ≡ false) where
  abbrev pub written : Heap
  written = write h p (some (entry v (first ys null) (last null xs)))

  out_left : holds_at p xs ≡ false
  out_left = free_of_none h p null xs (first ys null) left new

  out_right : holds_at p ys ≡ false
  out_right = free_of_none h p (last null xs) ys null right new

  kept : (zs : Chain) → holds_at p zs ≡ false → (a : Ptr) → holds_at a zs ≡ true → written a ≡ h a
  kept zs out a i = rw (differs a p zs i out) refl

  join_new :
      (g : Heap)
      → Linked g null xs p
      → Linked g p ys null
      → g p ≡ some (entry v (first ys null) (last null xs))
      → Linked g null (xs ++ (p, v) ∷ ys) null
  join_new g to_p from_p cell =
      join g null xs ((p, v) ∷ ys) null to_p (cell, ne, out_right, from_p)
        (λ a i. ground (arith, apart a i, differs a p xs i out_left))

  pub link_next_prev :
      (g g' : Heap) × (next_if (last null xs) p written ≡ some (tt, g))
      × (prev_if (first ys null) p g ≡ some (tt, g'))
      × Linked g' null (xs ++ (p, v) ∷ ys) null
  link_next_prev =
      let (g, run, linked, same) =
        next_if-last written xs (first ys null) p
          (frame null xs (first ys null) left (kept xs out_left)) in
      let right' =
        frame (last null xs) ys null right
          (λ a i. same a (flip xs ys apart a i) ∙ kept ys out_right a i) in
      let (g', run', linked', same') = prev_if-first g (last null xs) p ys right' in
      (
        g,
        g',
        run,
        run',
        join_new g' (frame null xs p linked (λ a i. same' a (apart a i))) linked'
            (same' p out_right ∙ same p out_left ∙ rw (==_self p) refl),
      )

  -- the same, where the address in front is known as `b`
  pub link_after :
      (b : Ptr)
      → last null xs ≡ b
      → (g g' : Heap) × (next_if b p (write h p (some (entry v (first ys null) b))) ≡ some (tt, g))
        × (prev_if (first ys null) p g ≡ some (tt, g'))
        × Linked g' null (xs ++ (p, v) ∷ ys) null
  link_after b e = rw (sym e) link_next_prev

  pub link_prev_next :
      (g g' : Heap) × (prev_if (first ys null) p written ≡ some (tt, g))
      × (next_if (last null xs) p g ≡ some (tt, g'))
      × Linked g' null (xs ++ (p, v) ∷ ys) null
  link_prev_next =
      let (g, run, linked, same) =
        prev_if-first written (last null xs) p ys
          (frame (last null xs) ys null right (kept ys out_right)) in
      let left' =
        frame null xs (first ys null) left (λ a i. same a (apart a i) ∙ kept xs out_left a i) in
      let (g', run', linked', same') = next_if-last g xs (first ys null) p left' in
      (
        g,
        g',
        run,
        run',
        join_new g' linked' (frame p ys null linked (λ a i. same' a (flip xs ys apart a i)))
            (same' p out_left ∙ same p out_right ∙ rw (==_self p) refl),
      )

-- An entry that is new to the store, behind all the cells.
pub link_end :
    (h : Heap) (xs : Chain) (p : Ptr) (v : ℕ)
    → Linked h null xs null
    → h p ≡ none
    → (p == null) ≡ false
    → (g : Heap) × (next_if (last null xs) p (write h p (some (entry v null (last null xs))))
        ≡ some (tt, g))
      × Linked g null (xs ++ (p, v) ∷ []) null
link_end h xs p v l new ne =
    let out = free_of_none h p null xs null l new in
    let (g, run, linked, same) =
      next_if-last (write h p (some (entry v null (last null xs)))) xs null p
        (frame null xs null l (λ a i. rw (differs a p xs i out) refl)) in
    (
      g,
      run,
      join g null xs ((p, v) ∷ []) null linked (same p out ∙ rw (==_self p) refl, ne, refl, tt)
          (λ a i. rw (differs a p xs i out) refl),
    )

-- The cell between two stretches, taken out.
pub unlink :
    (h : Heap) (xs ys : Chain) (p : Ptr) (v : ℕ)
    → Linked h null (xs ++ (p, v) ∷ ys) null
    → (g g' g'' : Heap) × (h p ≡ some (entry v (first ys null) (last null xs)))
      × ((p == null) ≡ false)
      × (next_if (last null xs) (first ys null) h ≡ some (tt, g))
      × (prev_if (first ys null) (last null xs) g ≡ some (tt, g'))
      × (free p g' ≡ some (tt, g''))
      × Linked g'' null (xs ++ ys) null
unlink h xs ys p v l =
    let (left, (cell, ne, out, right), apart) = split h null xs ((p, v) ∷ ys) null l in
    let apart' : Apart xs ys = λ a i. ground (arith, apart a i) in
    let out' = flip xs ((p, v) ∷ ys) apart p (rw (==_self p) refl) in
    let (g, run, linked, same) = next_if-last h xs p (first ys null) left in
    let right' = frame p ys null right (λ a i. same a (flip xs ys apart' a i)) in
    let (g', run', linked', same') = prev_if-first g p (last null xs) ys right' in
    let cell' = same' p out ∙ same p out' ∙ cell in
    let kept : (zs : Chain)
        → holds_at p zs ≡ false
        → (a : Ptr) → holds_at a zs ≡ true
        → write g' p none a ≡ g' a =
      λ zs o a i. rw (differs a p zs i o) refl in
    (
      g,
      g',
      write g' p none,
      cell,
      ne,
      run,
      run',
      free-some g' p (entry v (first ys null) (last null xs)) ne cell',
      join (write g' p none) null xs ys null
          (frame null xs (first ys null) linked (λ a i. kept xs out' a i ∙ same' a (apart' a i)))
          (frame (last null xs) ys null linked' (kept ys out)) apart',
    )
