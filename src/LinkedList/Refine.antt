-- ===== src/LinkedList/Refine.antt =====
-- The functions of common/list.c do to the data of a list what `expected` says.
use cliveserver.Base.{
  ℕ, suc, ◌≡◌, refl, ap, ◌∙◌, inl, inr, Bool-cases, Bool, false, not, some, none, List, [], ◌∷◌,
  ◌++◌, ◌==◌, length, take, drop,
}
use cliveserver.LinkedList.{
  Ptr, null, Header, Heap, Command, ◌>>=◌, add, insert_after_current, insert_before_current,
}
use cliveserver.LinkedList.Linked.{Chain, first}
use cliveserver.LinkedList.IsList.{IsList}
use cliveserver.LinkedList.Loops.{items, drop_first, remove-drop_first}
use cliveserver.LinkedList.Spec.{
  Op, append, before, behind, delete, delete_at, perform, perform_all, expected, expected_all,
}
use cliveserver.LinkedList.Places.{
  items-append, items-inserted, items-without, items_deleted, before-place, after-place, after-full,
  before-full, seek_then, append_place, ends, behind_cells, some_left-drop, delete_here,
  delete_place, IsList-split,
}

-- an address that is given is new to the store
abbrev pub GivesNew : (Heap → Ptr) → Type 0
GivesNew calloc = (h : Heap) → (calloc h == null) ≡ false → h (calloc h) ≡ none

-- What a call gives and leaves, where the store held the list `xs`.
abbrev pub Leaves : Heap → Command (Bool × Header) → Bool × List ℕ → Type 0
Leaves h m (done, after) =
    (h' : Heap) × (l' : Header) × (ys : Chain) × (m h ≡ some ((done, l'), h'))
    × IsList h' l' ys
    × (items ys ≡ after)

module _ (calloc : Heap → Ptr) (new : GivesNew calloc) (h : Heap) (l : Header) (xs : Chain)
    (i : IsList h l xs) where
  append_performs :
      (x : ℕ)
      → Leaves h
          (perform calloc l (append x))
          (expected (append x) (not (calloc h == null)) (items xs))
  unfolding expected perform add items
  append_performs x = elim (Bool-cases (calloc h == null)) [
    | inl e ↦ rw e (h, l, xs, after-full h (calloc h) l l.tail x e, i, refl)
    | inr e ↦
        let (h', l', run, rest) = append_place h l (calloc h) x xs e (new h e) (ends xs) i in
        rw e (
          h',
          l',
          xs ++ (calloc h, x) ∷ [],
          ap (λ c. insert_after_current (calloc h) l c x h) i.tail_last ∙ run,
          rest,
          items-append xs ((calloc h, x) ∷ []),
        )
  ]

  before_performs :
      (n x : ℕ)
      → Leaves h
          (perform calloc l (before n x))
          (expected (before n x) (not (calloc h == null)) (items xs))
  unfolding expected perform
  before_performs n x = elim (Bool-cases (calloc h == null)) [
    | inl e ↦ rw e (
      h,
      l,
      xs,
      seek_then n h l xs (λ c. insert_before_current (calloc h) l c x) i
          ∙ before-full h (calloc h) l (first (drop n xs) null) x e,
      i,
      refl,
    )
    | inr e ↦
        let (h', l', run, rest) =
          before-place h l (calloc h) x e (new h e) (take n xs) (drop n xs)
            (IsList-split h l n xs i) in
        rw e (
          h',
          l',
          take n xs ++ (calloc h, x) ∷ drop n xs,
          seek_then n h l xs (λ c. insert_before_current (calloc h) l c x) i ∙ run,
          rest,
          items-inserted n xs (calloc h) x,
        )
  ]

  behind_performs :
      (n x : ℕ)
      → Leaves h
          (perform calloc l (behind n x))
          (expected (behind n x) (not (calloc h == null)) (items xs))
  unfolding expected perform
  behind_performs n x = elim (Bool-cases (calloc h == null)) [
    | inl e ↦ rw e (
      h,
      l,
      xs,
      seek_then n h l xs (λ c. insert_after_current (calloc h) l c x) i
          ∙ after-full h (calloc h) l (first (drop n xs) null) x e,
      i,
      refl,
    )
    | inr e ↦
        let (h', l', run, rest) =
          after-place h l (calloc h) x e (new h e) (take n xs) (drop n xs)
            (IsList-split h l n xs i) in
        rw e (
          h',
          l',
          take (suc n) xs ++ (calloc h, x) ∷ drop (suc n) xs,
          seek_then n h l xs (λ c. insert_after_current (calloc h) l c x) i ∙ run,
          behind_cells h' l' n xs (calloc h) x rest,
          items-inserted (suc n) xs (calloc h) x,
        )
  ]

  delete_performs :
      (x : ℕ) (memory : Bool)
      → Leaves h (perform calloc l (delete x)) (expected (delete x) memory (items xs))
  unfolding expected perform
  delete_performs x memory =
      let (h', l', run, rest) = remove-drop_first h l xs x i in
      (h', l', drop_first x xs, run, rest, items-without x xs)

  delete_at_performs :
      (n : ℕ) (memory : Bool)
      → Leaves h (perform calloc l (delete_at n)) (expected (delete_at n) memory (items xs))
  unfolding expected perform
  delete_at_performs n memory =
      let (h', l', run, rest) =
        delete_place h l (take n xs) (drop n xs) (IsList-split h l n xs i) in
      (
        h',
        l',
        take n xs ++ drop 1 (drop n xs),
        seek_then n h l xs (delete_here l) i
            ∙ run
            ∙ ap (λ done. some ((done, l'), h')) (some_left-drop n xs),
        rest,
        items_deleted n xs,
      )

  -- A call on a list that the store holds faults nowhere, and gives and leaves what `expected` says.
  pub perform-expected :
      (op : Op) → Leaves h (perform calloc l op) (expected op (not (calloc h == null)) (items xs))
  perform-expected (append x) = append_performs x
  perform-expected (before n x) = before_performs n x
  perform-expected (behind n x) = behind_performs n x
  perform-expected (delete x) = delete_performs x (not (calloc h == null))
  perform-expected (delete_at n) = delete_at_performs n (not (calloc h == null))

performs_then :
    (calloc : Heap → Ptr) (op : Op) (ops : List Op) (h h' h'' : Heap) (l l' l'' : Header)
    (done : Bool) (dones : List Bool)
    → perform calloc l op h ≡ some ((done, l'), h')
    → perform_all calloc l' ops h' ≡ some ((dones, l''), h'')
    → perform_all calloc l (op ∷ ops) h ≡ some ((done ∷ dones, l''), h'')
unfolding perform_all
performs_then calloc op ops h h' h'' l l' l'' done dones run run' = rw (◌>>=◌, run, run') refl

-- Where `calloc` gives NULL or an address that is new to the store, any calls on a list that the store
-- holds fault nowhere: what they give, and the data in the list that the store holds behind them, are
-- `expected_all`'s for some course of the memory, which tells for each call whether there is any.
pub perform_all-expected_all :
    (calloc : Heap → Ptr)
    → GivesNew calloc
    → (h : Heap) (l : Header) (xs : Chain) (ops : List Op) → IsList h l xs
    → (memory : List Bool) × (h' : Heap) × (l' : Header) × (ys : Chain) × (length memory
        ≡ length ops)
      × (perform_all calloc l ops h ≡ some (((expected_all ops memory (items xs)).0, l'), h'))
      × IsList h' l' ys
      × (items ys ≡ (expected_all ops memory (items xs)).1)
unfolding perform_all expected_all
perform_all-expected_all calloc new h l xs [] i = ([], h, l, xs, refl, refl, i, refl)
perform_all-expected_all calloc new h l xs (op ∷ ops) i =
    let m = not (calloc h == null) in
    let (h', l', ys, run, i', left) = perform-expected calloc new h l xs i op in
    let (memory, h'', l'', zs, enough, run', i'', left') =
      perform_all-expected_all calloc new h' l' ys ops i' in
    (
      m ∷ memory,
      h'',
      l'',
      zs,
      ap (λ n. suc n) enough,
      performs_then calloc op ops h h' h'' l l' l'' (expected op m (items xs)).0
            (expected_all ops memory (items ys)).0 run run'
          ∙ ap
              (λ vs.
                some (((expected op m (items xs)).0 ∷ (expected_all ops memory vs).0, l''), h''))
              left,
      i'',
      left' ∙ ap (λ vs. (expected_all ops memory vs).1) left,
    )
