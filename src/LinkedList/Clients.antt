-- ===== src/LinkedList/Clients.antt =====
-- The loop of http/http.c that writes to the clients of a task, over the list on the store: it does
-- what `write_clients` says of the clients' descriptors.
use cliveserver.Base.{
  ℕ, zero, suc, ◌<◌, ◌≡◌, refl, sym, ap, ◌∙◌, inl, inr, Bool-cases, Bool, true, false, some, List,
  [], ◌∷◌, ◌++◌, arith, append_assoc, length,
}
use cliveserver.LinkedList.{Ptr, null, Header, Heap, Command, ◌>>=◌, pure}
use cliveserver.LinkedList.Linked.{Chain, first}
use cliveserver.LinkedList.IsList.{IsList, remove_current-cell}
use cliveserver.LinkedList.Walk.{move, write_loop, write_all}
use cliveserver.LinkedList.Loops.{items, cell_at, load-cell, move-cell, IsList-shift}
use cliveserver.Http.{write_clients}

abbrev add_written : ℕ → Header × List ℕ → Command (Header × List ℕ)
add_written v (l, written) = pure (l, v ∷ written)

write_loop-gone :
    (n : ℕ) (gone : ℕ → Bool) (h : Heap) (l : Header) (xs ys : Chain) (p : Ptr) (v : ℕ)
    → IsList h l (xs ++ (p, v) ∷ ys)
    → gone v ≡ true
    → (h' : Heap) × (l' : Header) × IsList h' l' (xs ++ ys)
      × (write_loop (suc n) gone l p h
          ≡ (move (first ys null) >>= λ next. write_loop n gone l' next >>= add_written v) h')
unfolding write_loop
write_loop-gone n gone h l xs ys p v i e =
    let c = cell_at h l xs ys p v i in
    let (h', l', run, rest) = remove_current-cell h l xs ys p v i in
    (h', l', rest, rw (c.1, load-cell h xs ys p v c, ◌>>=◌, e, run) refl)

write_loop-alive :
    (n : ℕ) (gone : ℕ → Bool) (h : Heap) (l : Header) (xs ys : Chain) (p : Ptr) (v : ℕ)
    → IsList h l (xs ++ (p, v) ∷ ys)
    → gone v ≡ false
    → write_loop (suc n) gone l p h ≡ (write_loop n gone l (first ys null) >>= add_written v) h
unfolding write_loop
write_loop-alive n gone h l xs ys p v i e =
    let c = cell_at h l xs ys p v i in
    rw (c.1, load-cell h xs ys p v c, ◌>>=◌, e, move-cell h xs ys p v c) refl

-- nothing is left to write to
write_loop-null :
    (n : ℕ) (gone : ℕ → Bool) (h : Heap) (l : Header)
    → 0 < n
    → write_loop n gone l null h ≡ some ((l, []), h)
unfolding write_loop
write_loop-null zero gone h l lt = elim lt [ ]
write_loop-null (suc n) gone h l lt = refl

move-null : (h : Heap) → move null h ≡ some (null, h)
unfolding move
move-null h = refl

-- the client in front, put before those that the rest of the loop writes to
before_rest :
    (m : Command (Header × List ℕ)) (v : ℕ) (h h' : Heap) (l : Header) (written : List ℕ)
    → m h ≡ some ((l, written), h')
    → (m >>= add_written v) h ≡ some ((l, v ∷ written), h')
before_rest m v h h' l written run = rw (◌>>=◌, run) refl

after_move :
    (m : Ptr → Command (Header × List ℕ)) (p next : Ptr) (h : Heap)
    → move p h ≡ some (next, h)
    → (move p >>= m) h ≡ m next h
after_move m p next h run = rw (◌>>=◌, run) refl

-- The rest of a round, from the entry behind `xs` on.
pub write_loop-write_clients :
    (n : ℕ) (gone : ℕ → Bool) (h : Heap) (l : Header) (xs ys : Chain)
    → IsList h l (xs ++ ys)
    → length ys < n
    → (h' : Heap) × (l' : Header) × (zs : Chain) × (write_loop n gone l (first ys null) h
        ≡ some ((l', (write_clients gone (items ys)).1), h'))
      × IsList h' l' (xs ++ zs)
      × (items zs ≡ (write_clients gone (items ys)).0)
unfolding write_clients items write_loop
write_loop-write_clients zero gone h l xs ys i lt = elim lt [ ]
write_loop-write_clients (suc n) gone h l xs [] i lt = (h, l, [], refl, i, refl)
write_loop-write_clients (suc n) gone h l xs ((p, v) ∷ []) i lt = elim (Bool-cases (gone v)) [
  | inl e ↦
      let (h', l', rest, run) = write_loop-gone n gone h l xs [] p v i e in
      rw e (
        h',
        l',
        [],
        run
            ∙ after_move (λ next. write_loop n gone l' next >>= add_written v) null null h'
                (move-null h')
            ∙ before_rest (write_loop n gone l' null) v h' h' l' []
                (write_loop-null n gone h' l' (omega (arith, lt))),
        rest,
        refl,
      )
  | inr e ↦ rw e (
    h,
    l,
    (p, v) ∷ [],
    write_loop-alive n gone h l xs [] p v i e
        ∙ before_rest (write_loop n gone l null) v h h l []
            (write_loop-null n gone h l (omega (arith, lt))),
    i,
    refl,
  )
]
write_loop-write_clients (suc n) gone h l xs ((p, v) ∷ (q, w) ∷ ys) i lt =
    elim (Bool-cases (gone v)) [
      | inl e ↦
          let (h', l', rest, run) = write_loop-gone n gone h l xs ((q, w) ∷ ys) p v i e in
          let (h'', l'', zs, run', rest', written) =
            write_loop-write_clients n gone h' l' (xs ++ (q, w) ∷ []) ys
              (IsList-shift h' l' xs ys (q, w) rest) (omega (arith, lt)) in
          rw e (
            h'',
            l'',
            (q, w) ∷ zs,
            run
                ∙ after_move (λ next. write_loop n gone l' next >>= add_written v) q (first ys null)
                    h' (move-cell h' xs ys q w (cell_at h' l' xs ys q w rest))
                ∙ before_rest (write_loop n gone l' (first ys null)) v h' h'' l''
                    (write_clients gone (items ys)).1 run',
            rw (sym (append_assoc xs ((q, w) ∷ []) zs)) rest',
            ap (λ vs. w ∷ vs) written,
          )
      | inr e ↦
          let (h', l', zs, run, rest, written) =
            write_loop-write_clients n gone h l (xs ++ (p, v) ∷ []) ((q, w) ∷ ys)
              (IsList-shift h l xs ((q, w) ∷ ys) (p, v) i) (omega (arith, lt)) in
          rw e (
            h',
            l',
            (p, v) ∷ zs,
            write_loop-alive n gone h l xs ((q, w) ∷ ys) p v i e
                ∙ before_rest (write_loop n gone l q) v h h' l'
                    (write_clients gone (items ((q, w) ∷ ys))).1 run,
            rw (sym (append_assoc xs ((p, v) ∷ []) zs)) rest,
            ap (λ vs. v ∷ vs) written,
          )
    ]

-- The loop over the list of a task's clients that the store holds faults nowhere and ends within one
-- round more than the list's count; it calls `clive_write` for the clients that `write_clients` says, in their order, and the
-- list that it leaves holds the clients that `write_clients` keeps.
pub write_all-write_clients :
    (gone : ℕ → Bool) (h : Heap) (l : Header) (xs : Chain)
    → IsList h l xs
    → (h' : Heap) × (l' : Header) × (ys : Chain) × (write_all gone l h
        ≡ some ((l', (write_clients gone (items xs)).1), h'))
      × IsList h' l' ys
      × (items ys ≡ (write_clients gone (items xs)).0)
unfolding write_all
write_all-write_clients gone h l xs i =
    let (h', l', ys, run, rest, kept) =
      write_loop-write_clients (suc l.count) gone h l [] xs i (omega (arith, i.counted)) in
    (h', l', ys, ap (λ p. write_loop (suc l.count) gone l p h) i.head_first ∙ run, rest, kept)
