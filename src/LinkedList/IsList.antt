-- ===== src/LinkedList/IsList.antt =====
-- When a `List_t` holds given cells, and what the functions of common/list.c that take an iterator
-- do at the entry between two stretches of them.
use cliveserver.Base.{
  ℕ, ◌-◌, ◌≡◌, refl, sym, ap, true, false, some, [], ◌∷◌, ◌++◌, ◌==◌, ==_self, if◌then◌else◌, arith,
  append-nil, length, length-append,
}
use cliveserver.LinkedList.{Ptr, null, entry, Header, Heap, ◌>>=◌, ◌>>◌, remove_current}
use cliveserver.LinkedList.Linked.{Chain, holds_at, first, last, Linked, split, last-append}
use cliveserver.LinkedList.Relink.{load-some}
use cliveserver.LinkedList.Link.{differs, unlink}

pub record IsList (h : Heap) (l : Header) (xs : Chain) : Type 0 where
  pub linked : Linked h null xs null
  pub head_first : l.head ≡ first xs null
  pub tail_last : l.tail ≡ last null xs
  pub counted : l.count ≡ length xs

holds_at-last : (p : Ptr) (v : ℕ) (xs : Chain) → holds_at (last p xs) ((p, v) ∷ xs) ≡ true
holds_at-last p v [] = rw (==_self p) refl
holds_at-last p v ((q, w) ∷ xs) = ground (arith, holds_at-last q w xs)

absent : (p a : Ptr) (xs : Chain) → holds_at a xs ≡ true → holds_at p xs ≡ false → (p == a) ≡ false
absent p a xs i o = ground (arith, differs a p xs i o)

behind_first :
    (h : Heap) (q : Ptr) (w : ℕ) (xs ys : Chain) (p : Ptr) (v : ℕ)
    → Linked h null ((q, w) ∷ xs ++ (p, v) ∷ ys) null
    → (p == q) ≡ false
behind_first h q w xs ys p v l =
    let (left, right, apart) = split h null ((q, w) ∷ xs) ((p, v) ∷ ys) null l in
    differs p q ((p, v) ∷ ys) (rw (==_self p) refl) (apart q (rw (==_self q) refl))

-- what the removal leaves in `head` and `tail`
head_without :
    (h : Heap) (xs ys : Chain) (p : Ptr) (v : ℕ)
    → Linked h null (xs ++ (p, v) ∷ ys) null
    → (if p == first (xs ++ (p, v) ∷ ys) null
        then first ys null
        else first (xs ++ (p, v) ∷ ys) null)
      ≡ first (xs ++ ys) null
head_without h [] ys p v l = rw (==_self p) refl
head_without h ((q, w) ∷ xs) ys p v l = rw (behind_first h q w xs ys p v l) refl

tail_without :
    (h : Heap) (xs ys : Chain) (p : Ptr) (v : ℕ)
    → Linked h null (xs ++ (p, v) ∷ ys) null
    → (if p == last null (xs ++ (p, v) ∷ ys) then last null xs else last null (xs ++ (p, v) ∷ ys))
      ≡ last null (xs ++ ys)
tail_without h xs [] p v l =
    rw (last-append null xs ((p, v) ∷ []), ==_self p) (ap (last null) (sym (append-nil xs)))
tail_without h xs ((q, w) ∷ ys) p v l =
    let (left, (cell, ne, out, right), apart) = split h null xs ((p, v) ∷ (q, w) ∷ ys) null l in
    rw
      (
        last-append null xs ((p, v) ∷ (q, w) ∷ ys),
        last-append null xs ((q, w) ∷ ys),
        absent p (last q ys) ((q, w) ∷ ys) (holds_at-last q w ys) out,
      )
      refl

-- what the insertions leave there
pub head_end :
    (h : Heap) (xs : Chain) (p : Ptr) (v : ℕ)
    → Linked h null xs null
    → (if first xs null == null then p else first xs null) ≡ first (xs ++ (p, v) ∷ []) null
head_end h [] p v l = refl
head_end h ((q, w) ∷ xs) p v l = rw (l.1) refl

pub head_after :
    (h : Heap) (xs ys zs : Chain) (c p : Ptr) (w : ℕ)
    → Linked h null (xs ++ (c, w) ∷ ys) null
    → (if first (xs ++ (c, w) ∷ ys) null == null then p else first (xs ++ (c, w) ∷ ys) null)
      ≡ first (xs ++ (c, w) ∷ zs) null
head_after h [] ys zs c p w l = rw (l.1) refl
head_after h ((q, u) ∷ xs) ys zs c p w l = rw (l.1) refl

pub tail_after :
    (h : Heap) (xs ys : Chain) (c p : Ptr) (w v : ℕ)
    → Linked h null (xs ++ (c, w) ∷ ys) null
    → (if first ys null == null then p else last null (xs ++ (c, w) ∷ ys))
      ≡ last null (xs ++ (c, w) ∷ (p, v) ∷ ys)
tail_after h xs [] c p w v l = sym (last-append null xs ((c, w) ∷ (p, v) ∷ []))
tail_after h xs ((q, u) ∷ ys) c p w v l =
    rw
      (
        (split h null xs ((c, w) ∷ (q, u) ∷ ys) null l).1.3.1,
        last-append null xs ((c, w) ∷ (q, u) ∷ ys),
        last-append null xs ((c, w) ∷ (p, v) ∷ (q, u) ∷ ys),
      )
      refl

pub head_before :
    (h : Heap) (xs ys : Chain) (c p : Ptr) (w v : ℕ)
    → Linked h null (xs ++ (c, w) ∷ ys) null
    → (if c == first (xs ++ (c, w) ∷ ys) null then p else first (xs ++ (c, w) ∷ ys) null)
      ≡ first (xs ++ (p, v) ∷ (c, w) ∷ ys) null
head_before h [] ys c p w v l = rw (==_self c) refl
head_before h ((q, u) ∷ xs) ys c p w v l = rw (behind_first h q u xs ys c w l) refl

-- The iterator's entry goes, and the iterator is at the one behind it.
pub remove_current-cell :
    (h : Heap) (l : Header) (xs ys : Chain) (p : Ptr) (v : ℕ)
    → IsList h l (xs ++ (p, v) ∷ ys)
    → (h' : Heap) × (l' : Header) × (remove_current l p h ≡ some ((l', first ys null), h'))
      × IsList h' l' (xs ++ ys)
unfolding remove_current
remove_current-cell h l xs ys p v i =
    let (g, g', h', cell, ne, run, run', freed, linked) = unlink h xs ys p v i.linked in
    (
      h',
      record {
        count = l.count - 1;
        head = if p == l.head then first ys null else l.head;
        tail = if p == l.tail then last null xs else l.tail;
      },
      rw
          (
            load-some h p (entry v (first ys null) (last null xs)) ne cell,
            ◌>>=◌,
            ◌>>◌,
            run,
            ◌>>=◌,
            run',
            ◌>>=◌,
            freed,
            ◌>>=◌,
          )
          refl,
      record {
        linked = linked;
        head_first = rw i.head_first (head_without h xs ys p v i.linked);
        tail_last = rw i.tail_last (tail_without h xs ys p v i.linked);
        counted = omega (arith, i.counted, length-append xs ((p, v) ∷ ys), length-append xs ys);
      },
    )
