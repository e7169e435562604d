-- ===== src/LinkedList/Linked.antt =====
-- Linked entries as a chain of cells: each with its address and its data.
use cliveserver.Base.{
  ℕ, ◌≡◌, refl, sym, ap, ◌∙◌, Bool, true, false, ◌||◌, none, some, List, [], ◌∷◌, ◌++◌, ◌==◌, arith,
  append_assoc,
}
use cliveserver.LinkedList.{Ptr, null, entry, Heap}

abbrev pub Chain : Type 0
Chain = List (Ptr × ℕ)

-- the address of the first cell, and of the last
abbrev pub first : Chain → Ptr → Ptr
first [] stop = stop
first ((p, _) ∷ xs) stop = p

abbrev pub last : Ptr → Chain → Ptr
last before [] = before
last before ((p, _) ∷ xs) = last p xs

-- whether there is a cell at an address
abbrev pub holds_at : Ptr → Chain → Bool
holds_at p [] = false
holds_at p ((q, v) ∷ rest) = (p == q) || holds_at p rest

-- From `before` on, the cells are entries at distinct addresses, linked to one another in both
-- directions, and the last leads to `stop`.
abbrev pub Linked : Heap → Ptr → Chain → Ptr → Type 0
Linked h before [] stop = Unit {0}
Linked h before ((p, v) ∷ xs) stop =
    (h p ≡ some (entry v (first xs stop) before))
    × ((p == null) ≡ false)
    × (holds_at p xs ≡ false)
    × Linked h p xs stop

abbrev pub Apart : Chain → Chain → Type 0
Apart xs ys = (a : Ptr) → holds_at a xs ≡ true → holds_at a ys ≡ false

-- the store `g` is `h` but for the cells of `xs`
abbrev pub OnlyAt : Chain → Heap → Heap → Type 0
OnlyAt xs h g = (a : Ptr) → holds_at a xs ≡ false → g a ≡ h a

pub frame :
    {h g : Heap} (before : Ptr) (xs : Chain) (stop : Ptr)
    → Linked h before xs stop
    → ((a : Ptr) → holds_at a xs ≡ true → g a ≡ h a)
    → Linked g before xs stop
frame before [] stop l same = tt
frame before ((p, v) ∷ xs) stop (e, ne, out, l) same =
    (ground (arith, same p), ne, out, frame p xs stop l (λ a i. same a (ground arith)))

pub first-append : (xs ys : Chain) (stop : Ptr) → first (xs ++ ys) stop ≡ first xs (first ys stop)
first-append [] ys stop = refl
first-append (x ∷ xs) ys stop = refl

pub last-append : (before : Ptr) (xs ys : Chain) → last before (xs ++ ys) ≡ last (last before xs) ys
last-append before [] ys = refl
last-append before ((p, v) ∷ xs) ys = last-append p xs ys

pub holds_at-append :
    (a : Ptr) (xs ys : Chain) → holds_at a (xs ++ ys) ≡ (holds_at a xs || holds_at a ys)
holds_at-append a [] ys = refl
holds_at-append a ((p, v) ∷ xs) ys = ground (arith, holds_at-append a xs ys)

-- Linked cells, split in two.
pub split :
    (h : Heap) (before : Ptr) (xs ys : Chain) (stop : Ptr)
    → Linked h before (xs ++ ys) stop
    → Linked h before xs (first ys stop) × Linked h (last before xs) ys stop × Apart xs ys
split h before [] ys stop l = (tt, l, λ a. cc)
split h before ((p, v) ∷ xs) ys stop (e, ne, out, l) =
    let (left, right, apart) = split h p xs ys stop l in
    let both = holds_at-append p xs ys in
    (
      (e ∙ ap (λ q. some (entry v q before)) (first-append xs ys stop), ne, ground arith, left),
      right,
      λ a i. ground (arith, apart a),
    )

pub join :
    (h : Heap) (before : Ptr) (xs ys : Chain) (stop : Ptr)
    → Linked h before xs (first ys stop)
    → Linked h (last before xs) ys stop
    → Apart xs ys
    → Linked h before (xs ++ ys) stop
join h before [] ys stop left right apart = right
join h before ((p, v) ∷ xs) ys stop (e, ne, out, left) right apart = (
  e ∙ ap (λ q. some (entry v q before)) (sym (first-append xs ys stop)),
  ne,
  ground (arith, holds_at-append p xs ys, apart p),
  join h p xs ys stop left right (λ a i. apart a (ground arith)),
)

-- An address that holds no entry is none of the cells'.
pub free_of_none :
    (h : Heap) (a before : Ptr) (xs : Chain) (stop : Ptr)
    → Linked h before xs stop
    → h a ≡ none
    → holds_at a xs ≡ false
free_of_none h a before [] stop l e = refl
free_of_none h a before ((p, v) ∷ xs) stop (e', ne, out, l) e =
    ground (arith, free_of_none h a p xs stop l e)

-- The last cell of the stretch in front, as the first of the one behind, and back.
pub shift_right :
    (h : Heap) (before : Ptr) (xs ys : Chain) (x : Ptr × ℕ) (stop : Ptr)
    → Linked h before ((xs ++ x ∷ []) ++ ys) stop
    → Linked h before (xs ++ x ∷ ys) stop
shift_right h before xs ys x stop l = rw (sym (append_assoc xs (x ∷ []) ys)) l

pub shift_left :
    (h : Heap) (before : Ptr) (xs ys : Chain) (x : Ptr × ℕ) (stop : Ptr)
    → Linked h before (xs ++ x ∷ ys) stop
    → Linked h before ((xs ++ x ∷ []) ++ ys) stop
shift_left h before xs ys x stop l = rw (append_assoc xs (x ∷ []) ys) l
