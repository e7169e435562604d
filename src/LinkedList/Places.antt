-- ===== src/LinkedList/Places.antt =====
-- The places of an iterator, the end of the list included, and what each function of common/list.c
-- does there, with the data that it leaves.
use cliveserver.Base.{
  ℕ, zero, suc, ◌≡◌, refl, sym, ap, ◌∙◌, inl, inr, Bool-cases, Bool, true, false, some, none, [],
  ◌∷◌, ◌++◌, ◌==◌, if◌then◌else◌, arith, append-nil, append_assoc, length, take, drop, drop-nil,
  take-append-drop, ltb,
}
use cliveserver.LinkedList.{
  Ptr, null, Header, Heap, Command, ◌>>=◌, pure, insert_after_current, insert_before_current,
  remove_current,
}
use cliveserver.LinkedList.Linked.{Chain, first, last, last-append}
use cliveserver.LinkedList.IsList.{IsList, remove_current-cell}
use cliveserver.LinkedList.Insert.{after-null, after-cell, before-null, before-cell}
use cliveserver.LinkedList.Walk.{move, seek}
use cliveserver.LinkedList.Loops.{items, cell_at, move-cell, IsList-shift, drop_first}
use cliveserver.LinkedList.Spec.{without}

pub items-append : (xs ys : Chain) → items (xs ++ ys) ≡ items xs ++ items ys
unfolding items
items-append [] ys = refl
items-append ((p, v) ∷ xs) ys = ap (λ vs. v ∷ vs) (items-append xs ys)

pub items-take : (n : ℕ) (xs : Chain) → items (take n xs) ≡ take n (items xs)
unfolding items
items-take zero xs = refl
items-take (suc n) [] = refl
items-take (suc n) ((p, v) ∷ xs) = ap (λ vs. v ∷ vs) (items-take n xs)

pub items-drop : (n : ℕ) (xs : Chain) → items (drop n xs) ≡ drop n (items xs)
unfolding items
items-drop zero xs = refl
items-drop (suc n) [] = refl
items-drop (suc n) ((p, v) ∷ xs) = items-drop n xs

pub items-without : (x : ℕ) (xs : Chain) → items (drop_first x xs) ≡ without x (items xs)
unfolding items without
items-without x [] = refl
items-without x ((p, v) ∷ xs) = elim (Bool-cases (x == v)) [
  | inl e ↦ rw e refl
  | inr e ↦ rw e (ap (λ vs. v ∷ vs) (items-without x xs))
]

-- An iterator after `n` moves is at the entry `n`, or at NULL.
pub seek-drop :
    (n : ℕ) (h : Heap) (l : Header) (xs ys : Chain)
    → IsList h l (xs ++ ys)
    → seek n (first ys null) h ≡ some (first (drop n ys) null, h)
unfolding seek move
seek-drop zero h l xs ys i = refl
seek-drop (suc n) h l xs [] i =
    seek-drop n h l xs [] i ∙ ap (λ zs. some (first zs null, h)) (drop-nil n)
seek-drop (suc n) h l xs ((p, v) ∷ ys) i =
    rw (◌>>=◌, move-cell h xs ys p v (cell_at h l xs ys p v i))
      (seek-drop n h l (xs ++ (p, v) ∷ []) ys (IsList-shift h l xs ys (p, v) i))

-- An insertion at any place of an iterator, the end of the list included.
module _ (h : Heap) (l : Header) (fresh : Ptr) (item : ℕ) (ne : (fresh == null) ≡ false)
    (new : h fresh ≡ none) (xs : Chain) where
  abbrev pub Inserted : Command (Bool × Header) → Chain → Type 0
  Inserted m ys = (h' : Heap) × (l' : Header) × (m h ≡ some ((true, l'), h')) × IsList h' l' ys

  pub before-place :
      (ys : Chain)
      → IsList h l (xs ++ ys)
      → Inserted (insert_before_current fresh l (first ys null) item) (xs ++ (fresh, item) ∷ ys)
  before-place [] i = before-null h l fresh item ne new xs (rw (sym (append-nil xs)) i)
  before-place ((c, w) ∷ ys) i = before-cell h l fresh item ne new xs ys c w i

  pub after-place :
      (ys : Chain)
      → IsList h l (xs ++ ys)
      → Inserted
          (insert_after_current fresh l (first ys null) item)
          ((xs ++ take 1 ys) ++ (fresh, item) ∷ drop 1 ys)
  after-place [] i =
      rw (append-nil xs) (after-null h l fresh item ne new xs (rw (sym (append-nil xs)) i))
  after-place ((c, w) ∷ ys) i =
      rw (append_assoc xs ((c, w) ∷ []) ((fresh, item) ∷ ys))
        (after-cell h l fresh item ne new xs ys c w i)

pub IsList-split :
    (h : Heap) (l : Header) (n : ℕ) (xs : Chain)
    → IsList h l xs
    → IsList h l (take n xs ++ drop n xs)
IsList-split h l n xs i = rw (take-append-drop n xs) i

pub after-full :
    (h : Heap) (fresh : Ptr) (l : Header) (c : Ptr) (x : ℕ)
    → (fresh == null) ≡ true
    → insert_after_current fresh l c x h ≡ some ((false, l), h)
unfolding insert_after_current
after-full h fresh l c x e = rw e refl

pub before-full :
    (h : Heap) (fresh : Ptr) (l : Header) (c : Ptr) (x : ℕ)
    → (fresh == null) ≡ true
    → insert_before_current fresh l c x h ≡ some ((false, l), h)
unfolding insert_before_current
before-full h fresh l c x e = rw e refl

-- A command after the moves of an iterator.
pub seek_then :
    {A : Type 0} (n : ℕ) (h : Heap) (l : Header) (xs : Chain) (m : Ptr → Command A)
    → IsList h l xs
    → (seek n l.head >>= m) h ≡ m (first (drop n xs) null) h
seek_then n h l xs m i =
    let run : seek n l.head h ≡ some (first (drop n xs) null, h) =
      ap (λ p. seek n p h) i.head_first ∙ seek-drop n h l [] xs i in
    rw (◌>>=◌, run) refl

pub items-inserted :
    (n : ℕ) (xs : Chain) (p x : ℕ)
    → items (take n xs ++ (p, x) ∷ drop n xs) ≡ take n (items xs) ++ x ∷ drop n (items xs)
unfolding items
items-inserted n xs p x =
    rw (items-append (take n xs) ((p, x) ∷ drop n xs), items-take n xs, items-drop n xs) refl

pub drop-one : (n : ℕ) (xs : Chain) → drop 1 (drop n xs) ≡ drop (suc n) xs
drop-one zero xs = refl
drop-one (suc n) [] = refl
drop-one (suc n) (x ∷ xs) = drop-one n xs

pub items_deleted :
    (n : ℕ) (xs : Chain)
    → items (take n xs ++ drop 1 (drop n xs)) ≡ take n (items xs) ++ drop (suc n) (items xs)
items_deleted n xs =
    rw
      (
        drop-one n xs,
        items-append (take n xs) (drop (suc n) xs),
        items-take n xs,
        items-drop (suc n) xs,
      )
      refl

pub take-one : (n : ℕ) (xs : Chain) → take n xs ++ take 1 (drop n xs) ≡ take (suc n) xs
take-one zero xs = refl
take-one (suc n) [] = refl
take-one (suc n) (x ∷ xs) = ap (λ zs. x ∷ zs) (take-one n xs)

pub data EndView : Chain → Type 0 where
  none_left : EndView []
  one_left : (us : Chain) (c : Ptr) (w : ℕ) → EndView (us ++ (c, w) ∷ [])

pub ends_cons : (p : Ptr) (v : ℕ) (xs : Chain) → EndView xs → EndView ((p, v) ∷ xs)
ends_cons p v [] none_left = one_left [] p v
ends_cons p v xs (one_left us c w) = one_left ((p, v) ∷ us) c w

pub ends : (xs : Chain) → EndView xs
ends [] = none_left
ends ((p, v) ∷ xs) = ends_cons p v xs (ends xs)

pub append_place :
    (h : Heap) (l : Header) (fresh : Ptr) (x : ℕ) (xs : Chain)
    → (fresh == null) ≡ false
    → h fresh ≡ none
    → EndView xs
    → IsList h l xs
    → (h' : Heap) × (l' : Header) × (insert_after_current fresh l (last null xs) x h
        ≡ some ((true, l'), h'))
      × IsList h' l' (xs ++ (fresh, x) ∷ [])
append_place h l fresh x xs ne new none_left i = after-null h l fresh x ne new [] i
append_place h l fresh x xs ne new (one_left us c w) i =
    let (h', l', run, rest) = after-cell h l fresh x ne new us [] c w i in
    (
      h',
      l',
      ap (λ p. insert_after_current fresh l p x h) (last-append null us ((c, w) ∷ [])) ∙ run,
      rw (append_assoc us ((c, w) ∷ []) ((fresh, x) ∷ [])) rest,
    )

pub behind_cells :
    (h : Heap) (l : Header) (n : ℕ) (xs : Chain) (p : Ptr) (x : ℕ)
    → IsList h l ((take n xs ++ take 1 (drop n xs)) ++ (p, x) ∷ drop 1 (drop n xs))
    → IsList h l (take (suc n) xs ++ (p, x) ∷ drop (suc n) xs)
behind_cells h l n xs p x i = rw (sym (take-one n xs), sym (drop-one n xs)) i

unfoldable pub some_left : Chain → Bool
some_left [] = false
some_left (x ∷ xs) = true

pub some_left-drop : (n : ℕ) (xs : Chain) → some_left (drop n xs) ≡ ltb n (length (items xs))
unfolding some_left items
some_left-drop zero [] = refl
some_left-drop zero (x ∷ xs) = ground arith
some_left-drop (suc n) [] = ground arith
some_left-drop (suc n) (x ∷ xs) = some_left-drop n xs ∙ ground arith

-- `ListRemoveCurrent` behind the test of `ListIterator_MoreEntries`
abbrev pub delete_here : Header → Ptr → Command (Bool × Header)
delete_here l current =
    if current == null
    then pure (false, l)
    else (remove_current l current >>= λ (l', next). pure (true, l'))

pub delete_place :
    (h : Heap) (l : Header) (xs ys : Chain)
    → IsList h l (xs ++ ys)
    → (h' : Heap) × (l' : Header) × (delete_here l (first ys null) h
        ≡ some ((some_left ys, l'), h'))
      × IsList h' l' (xs ++ drop 1 ys)
unfolding some_left
delete_place h l xs [] i = (h, l, refl, i)
delete_place h l xs ((p, v) ∷ ys) i =
    let (h', l', run, rest) = remove_current-cell h l xs ys p v i in
    (h', l', rw ((cell_at h l xs ys p v i).1, ◌>>=◌, run) refl, rest)
