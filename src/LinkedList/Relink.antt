-- ===== src/LinkedList/Relink.antt =====
-- The two writes by which the functions relink the neighbours of an entry.
use cliveserver.Base.{ℕ, ◌≡◌, refl, ◌∙◌, false, none, some, [], ◌∷◌, ◌==◌, ==_self, arith}
use cliveserver.LinkedList.{
  Ptr, null, Entry, entry, Heap, write, ◌>>=◌, ◌>>◌, free, load, set_next, set_prev, next_if,
  prev_if,
}
use cliveserver.LinkedList.Linked.{Chain, first, last, Linked, OnlyAt, frame}

pub load-some :
    (h : Heap) (p : Ptr) (e : Entry) → (p == null) ≡ false → h p ≡ some e → load p h ≡ some (e, h)
unfolding load
load-some h p e ne held = rw (ne, held) refl

pub set_next-some :
    (h : Heap) (p q : Ptr) (e : Entry)
    → (p == null) ≡ false
    → h p ≡ some e
    → set_next p q h ≡ some (tt, write h p (some (record e { next = q })))
unfolding set_next
set_next-some h p q e ne held = rw (load-some h p e ne held, ◌>>=◌) refl

pub set_prev-some :
    (h : Heap) (p q : Ptr) (e : Entry)
    → (p == null) ≡ false
    → h p ≡ some e
    → set_prev p q h ≡ some (tt, write h p (some (record e { prev = q })))
unfolding set_prev
set_prev-some h p q e ne held = rw (load-some h p e ne held, ◌>>=◌) refl

pub free-some :
    (h : Heap) (p : Ptr) (e : Entry)
    → (p == null) ≡ false
    → h p ≡ some e
    → free p h ≡ some (tt, write h p none)
unfolding free
free-some h p e ne held = rw (load-some h p e ne held, ◌>>=◌, ◌>>◌) refl

pub last-ne-null :
    (h : Heap) (before p : Ptr) (v : ℕ) (xs : Chain) (stop : Ptr)
    → Linked h before ((p, v) ∷ xs) stop
    → (last p xs == null) ≡ false
last-ne-null h before p v [] stop l = l.1
last-ne-null h before p v ((q, w) ∷ xs) stop l = last-ne-null h p q w xs stop l.3

-- The cells lead to `stop'` once that is the `next` of the last.
pub set_next-last :
    (h : Heap) (before p : Ptr) (v : ℕ) (xs : Chain) (stop stop' : Ptr)
    → Linked h before ((p, v) ∷ xs) stop
    → (h' : Heap) × (set_next (last p xs) stop' h ≡ some (tt, h'))
      × Linked h' before ((p, v) ∷ xs) stop'
      × OnlyAt ((p, v) ∷ xs) h h'
set_next-last h before p v [] stop stop' (e, ne, out, l) = (
  write h p (some (entry v stop' before)),
  set_next-some h p stop' (entry v stop before) ne e,
  (rw (==_self p) refl, ne, refl, tt),
  λ a o. ground arith,
)
set_next-last h before p v ((q, w) ∷ xs) stop stop' (e, ne, out, l) =
    let (h', run, linked, same) = set_next-last h p q w xs stop stop' l in
    (h', run, (same p out ∙ e, ne, out, linked), λ a o. same a (ground arith))

-- So does the conditional write, also where there are no cells.
pub next_if-last :
    (h : Heap) (xs : Chain) (stop stop' : Ptr)
    → Linked h null xs stop
    → (h' : Heap) × (next_if (last null xs) stop' h ≡ some (tt, h'))
      × Linked h' null xs stop'
      × OnlyAt xs h h'
unfolding next_if
next_if-last h [] stop stop' l = (h, refl, tt, λ a o. refl)
next_if-last h ((p, v) ∷ xs) stop stop' l =
    rw (last-ne-null h null p v xs stop l) (set_next-last h null p v xs stop stop' l)

-- The cells come from `before'` once that is the `prev` of the first.
pub set_prev-first :
    (h : Heap) (before before' p : Ptr) (v : ℕ) (xs : Chain) (stop : Ptr)
    → Linked h before ((p, v) ∷ xs) stop
    → (h' : Heap) × (set_prev p before' h ≡ some (tt, h'))
      × Linked h' before' ((p, v) ∷ xs) stop
      × OnlyAt ((p, v) ∷ xs) h h'
set_prev-first h before before' p v xs stop (e, ne, out, l) = (
  write h p (some (entry v (first xs stop) before')),
  set_prev-some h p before' (entry v (first xs stop) before) ne e,
  (rw (==_self p) refl, ne, out, frame p xs stop l (λ a i. ground arith)),
  λ a o. ground arith,
)

pub prev_if-first :
    (h : Heap) (before before' : Ptr) (xs : Chain)
    → Linked h before xs null
    → (h' : Heap) × (prev_if (first xs null) before' h ≡ some (tt, h'))
      × Linked h' before' xs null
      × OnlyAt xs h h'
unfolding prev_if
prev_if-first h before before' [] l = (h, refl, tt, λ a o. refl)
prev_if-first h before before' ((p, v) ∷ xs) l =
    let (h', run, linked, same) = set_prev-first h before before' p v xs null l in
    (h', (rw l.1 run), linked, same)
