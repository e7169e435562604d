-- ===== src/LinkedList/Loops.antt =====
-- The loops over a list on the store: ListRemove, ListFree and the loop of http/http.c over the
-- clients of a task, with enough fuel for the entries in front of them.
use cliveserver.Base.{
  ℕ, zero, suc, ◌<◌, ◌≡◌, refl, sym, inl, inr, Bool-cases, ap, ◌∙◌, Bool, true, false, some, none,
  List, [], ◌∷◌, ◌++◌, ◌==◌, if◌then◌else◌, arith, append_assoc, length,
}
use cliveserver.LinkedList.{Ptr, null, entry, Header, Heap, write, ◌>>=◌, ◌>>◌, pure, load}
use cliveserver.LinkedList.Linked.{Chain, holds_at, first, last, Linked, OnlyAt, split, frame}
use cliveserver.LinkedList.Relink.{load-some, free-some}
use cliveserver.LinkedList.Link.{differs}
use cliveserver.LinkedList.IsList.{IsList, remove_current-cell}
use cliveserver.LinkedList.Walk.{move, remove_loop, remove, free_loop, free_all}
use cliveserver.LinkedList.Spec.{holds}

unfoldable pub items : Chain → List ℕ
items [] = []
items ((_, v) ∷ xs) = v ∷ items xs

abbrev pub InPlace : Heap → Chain → Ptr → ℕ → Chain → Type 0
InPlace h xs p v ys = (h p ≡ some (entry v (first ys null) (last null xs))) × ((p == null) ≡ false)

pub cell_at :
    (h : Heap) (l : Header) (xs ys : Chain) (p : Ptr) (v : ℕ)
    → IsList h l (xs ++ (p, v) ∷ ys)
    → InPlace h xs p v ys
cell_at h l xs ys p v i =
    let (left, (cell, ne, out, right), apart) = split h null xs ((p, v) ∷ ys) null i.linked in
    (cell, ne)

pub load-cell :
    (h : Heap) (xs ys : Chain) (p : Ptr) (v : ℕ)
    → InPlace h xs p v ys
    → load p h ≡ some (entry v (first ys null) (last null xs), h)
load-cell h xs ys p v (held, ne) = load-some h p (entry v (first ys null) (last null xs)) ne held

pub move-cell :
    (h : Heap) (xs ys : Chain) (p : Ptr) (v : ℕ)
    → InPlace h xs p v ys
    → move p h ≡ some (first ys null, h)
unfolding move
move-cell h xs ys p v (held, ne) = rw (ne, load-cell h xs ys p v (held, ne), ◌>>=◌) refl

pub IsList-shift :
    (h : Heap) (l : Header) (xs ys : Chain) (x : Ptr × ℕ)
    → IsList h l (xs ++ x ∷ ys)
    → IsList h l ((xs ++ x ∷ []) ++ ys)
IsList-shift h l xs ys x i = rw (append_assoc xs (x ∷ []) ys) i

abbrev pub drop_first : ℕ → Chain → Chain
drop_first item [] = []
drop_first item ((p, v) ∷ xs) = if item == v then xs else (p, v) ∷ drop_first item xs

remove_loop-found :
    (n : ℕ) (h : Heap) (l : Header) (xs ys : Chain) (p : Ptr) (v item : ℕ)
    → IsList h l (xs ++ (p, v) ∷ ys)
    → (item == v) ≡ true
    → (h' : Heap) × (l' : Header) × (remove_loop (suc n) l p item h ≡ some ((true, l'), h'))
      × IsList h' l' (xs ++ ys)
unfolding remove_loop
remove_loop-found n h l xs ys p v item i e =
    let (h', l', run, rest) = remove_current-cell h l xs ys p v i in
    (
      h',
      l',
      rw
          (
            (cell_at h l xs ys p v i).1,
            load-cell h xs ys p v (cell_at h l xs ys p v i),
            ◌>>=◌,
            e,
            run,
          )
          refl,
      rest,
    )

remove_loop-passed :
    (n : ℕ) (h : Heap) (l : Header) (xs ys : Chain) (p : Ptr) (v item : ℕ)
    → InPlace h xs p v ys
    → (item == v) ≡ false
    → remove_loop (suc n) l p item h ≡ remove_loop n l (first ys null) item h
unfolding remove_loop
remove_loop-passed n h l xs ys p v item c e =
    rw (c.1, load-cell h xs ys p v c, ◌>>=◌, e, move-cell h xs ys p v c) refl

pub remove_loop-drop_first :
    (n : ℕ) (h : Heap) (l : Header) (xs ys : Chain) (item : ℕ)
    → IsList h l (xs ++ ys)
    → length ys < n
    → (h' : Heap) × (l' : Header) × (remove_loop n l (first ys null) item h
        ≡ some ((holds item (items ys), l'), h'))
      × IsList h' l' (xs ++ drop_first item ys)
unfolding remove_loop items holds
remove_loop-drop_first zero h l xs ys item i lt = elim lt [ ]
remove_loop-drop_first (suc n) h l xs [] item i lt = (h, l, refl, i)
remove_loop-drop_first (suc n) h l xs ((p, v) ∷ ys) item i lt = elim (Bool-cases (item == v)) [
  | inl e ↦
      let (h', l', run, rest) = remove_loop-found n h l xs ys p v item i e in
      rw e (h', l', run, rest)
  | inr e ↦
      let (h', l', run, rest) =
        remove_loop-drop_first n h l (xs ++ (p, v) ∷ []) ys item (IsList-shift h l xs ys (p, v) i)
          (omega (arith, lt)) in
      rw e (
        h',
        l',
        remove_loop-passed n h l xs ys p v item (cell_at h l xs ys p v i) e ∙ run,
        rw (sym (append_assoc xs ((p, v) ∷ []) (drop_first item ys))) rest,
      )
]

-- The search for an entry to remove, with the fuel that `remove` gives it.
pub remove-drop_first :
    (h : Heap) (l : Header) (xs : Chain) (item : ℕ)
    → IsList h l xs
    → (h' : Heap) × (l' : Header) × (remove l item h ≡ some ((holds item (items xs), l'), h'))
      × IsList h' l' (drop_first item xs)
unfolding remove
remove-drop_first h l xs item i =
    let (h', l', run, rest) =
      remove_loop-drop_first (suc l.count) h l [] xs item i (omega (arith, i.counted)) in
    (h', l', ap (λ c. remove_loop (suc l.count) l c item h) i.head_first ∙ run, rest)

free_nothing :
    (destructor : Bool) (h : Heap)
    → pure {A = List ℕ} [] h ≡ some (if destructor then [] else [], h)
free_nothing true h = refl
free_nothing false h = refl

handed_cons :
    (destructor : Bool) (v : ℕ) (vs : List ℕ) (h : Heap)
    → pure
        (if destructor
          then v ∷ (if destructor then vs else [])
          else (if destructor then vs else []))
        h
      ≡ some (if destructor then v ∷ vs else [], h)
handed_cons true v vs h = refl
handed_cons false v vs h = refl

is_first :
    (a p : Ptr) (v : ℕ) (xs : Chain)
    → holds_at a ((p, v) ∷ xs) ≡ true
    → holds_at a xs ≡ false
    → (a == p) ≡ true
is_first a p v xs i o = ground (arith, i, o)

not_first :
    (a p : Ptr) (v : ℕ) (xs : Chain)
    → holds_at a ((p, v) ∷ xs) ≡ false
    → ((a == p) ≡ false) × (holds_at a xs ≡ false)
not_first a p v xs o = (ground (arith, o), ground (arith, o))

free_loop-items :
    (n : ℕ) (destructor : Bool) (h : Heap) (before : Ptr) (xs : Chain)
    → Linked h before xs null
    → length xs < n
    → (h' : Heap) × (free_loop n destructor (first xs null) h
        ≡ some ((if destructor then items xs else []), h'))
      × ((a : Ptr) → holds_at a xs ≡ true → h' a ≡ none)
      × OnlyAt xs h h'
unfolding free_loop items
free_loop-items zero destructor h before xs l lt = elim lt [ ]
free_loop-items (suc n) destructor h before [] l lt =
    (h, free_nothing destructor h, λ a i. ground (arith, i), λ a o. refl)
free_loop-items (suc n) destructor h before ((p, v) ∷ xs) (cell, ne, out, l) lt =
    let (h', run, gone, same) =
      free_loop-items n destructor (write h p none) p xs
        (frame p xs null l (λ a i. rw (differs a p xs i out) refl)) (omega (arith, lt)) in
    (
      h',
      rw
          (
            ne,
            load-some h p (entry v (first xs null) before) ne cell,
            ◌>>=◌,
            ◌>>◌,
            free-some h p (entry v (first xs null) before) ne cell,
            run,
          )
          (handed_cons destructor v (items xs) h'),
      λ a i. elim (Bool-cases (holds_at a xs)) [
        | inl e ↦ gone a e
        | inr e ↦ same a e ∙ rw (is_first a p v xs i e) refl
      ],
      λ a o. same a (not_first a p v xs o).1 ∙ rw (not_first a p v xs o).0 refl,
    )

-- On a list that the store holds, `ListFree` hands the data of all entries to the destructor, where
-- there is one, in their order, leaves an empty list, releases every entry, and changes nothing else in
-- the store.
pub free_all-items :
    (h : Heap) (l : Header) (xs : Chain) (destructor : Bool)
    → IsList h l xs
    → (h' : Heap) × (l' : Header) × (free_all l destructor h
        ≡ some ((l', if destructor then items xs else []), h'))
      × IsList h' l' []
      × ((a : Ptr) → holds_at a xs ≡ true → h' a ≡ none)
      × OnlyAt xs h h'
unfolding free_all
free_all-items h l xs destructor i =
    let (h', run, gone, same) =
      free_loop-items (suc l.count) destructor h null xs i.linked (omega (arith, i.counted)) in
    let run' : free_loop (suc l.count) destructor l.head h
        ≡ some (if destructor then items xs else [], h') =
      ap (λ c. free_loop (suc l.count) destructor c h) i.head_first ∙ run in
    (
      h',
      record { count = 0; head = null; tail = null },
      rw (run', ◌>>=◌) refl,
      record { linked = tt; head_first = refl; tail_last = refl; counted = refl },
      gone,
      same,
    )
