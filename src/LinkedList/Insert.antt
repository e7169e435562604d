-- ===== src/LinkedList/Insert.antt =====
-- ListAdd, ListInsertAfterCurrent and ListInsertBeforeCurrent on a list of given cells.
use cliveserver.Base.{
  ℕ, ◌≡◌, refl, sym, ◌∙◌, true, false, some, none, [], ◌∷◌, ◌++◌, ◌==◌, if◌then◌else◌, arith,
  length-append,
}
use cliveserver.LinkedList.{
  Ptr, null, entry, Header, Heap, grown, set_next, set_prev, next_if, prev_if, ◌>>=◌, ◌>>◌,
  insert_after_current, insert_before_current,
}
use cliveserver.LinkedList.Linked.{Chain, first, last, split, last-append, shift_left, shift_right}
use cliveserver.LinkedList.Relink.{load-some}
use cliveserver.LinkedList.Link.{link_end, link_after, link_prev_next}
use cliveserver.LinkedList.IsList.{IsList, head_end, head_after, tail_after, head_before}

set_next_of_next_if : (p q : Ptr) → (p == null) ≡ false → next_if p q ≡ set_next p q
unfolding next_if
set_next_of_next_if p q ne = rw ne refl

set_prev_of_prev_if : (p q : Ptr) → (p == null) ≡ false → prev_if p q ≡ set_prev p q
unfolding prev_if
set_prev_of_prev_if p q ne = rw ne refl

module _ (h : Heap) (l : Header) (fresh : Ptr) (item : ℕ) (ne : (fresh == null) ≡ false)
    (new : h fresh ≡ none) where
  pub after-null :
      (xs : Chain)
      → IsList h l xs
      → (h' : Heap) × (l' : Header) × (insert_after_current fresh l null item h
          ≡ some ((true, l'), h'))
        × IsList h' l' (xs ++ (fresh, item) ∷ [])
  unfolding insert_after_current
  after-null xs i =
      let (g, run, linked) = link_end h xs fresh item i.linked new ne in
      (
        g,
        grown l (if l.head == null then fresh else l.head) fresh,
        rw (ne, ◌>>=◌, ◌>>◌, i.tail_last, run) refl,
        record {
          linked = linked;
          head_first = rw i.head_first (head_end h xs fresh item i.linked);
          tail_last = sym (last-append null xs ((fresh, item) ∷ []));
          counted = omega (arith, i.counted, length-append xs ((fresh, item) ∷ []));
        },
      )

  pub after-cell :
      (xs ys : Chain) (c : Ptr) (w : ℕ)
      → IsList h l (xs ++ (c, w) ∷ ys)
      → (h' : Heap) × (l' : Header) × (insert_after_current fresh l c item h
          ≡ some ((true, l'), h'))
        × IsList h' l' (xs ++ (c, w) ∷ (fresh, item) ∷ ys)
  unfolding insert_after_current
  after-cell xs ys c w i =
      let (left, (cell, nec, out, right), apart) = split h null xs ((c, w) ∷ ys) null i.linked in
      let (left', right', apart') =
        split h null (xs ++ (c, w) ∷ []) ys null (shift_left h null xs ys (c, w) null i.linked) in
      let (g, g', run, run', linked) =
        link_after h (xs ++ (c, w) ∷ []) ys fresh item left' right' apart' new ne c
          (last-append null xs ((c, w) ∷ [])) in
      (
        g',
        grown l (if l.head == null then fresh else l.head)
            (if first ys null == null then fresh else l.tail),
        rw
            (
              ne,
              nec,
              load-some h c (entry w (first ys null) (last null xs)) nec cell,
              ◌>>=◌,
              ◌>>◌,
              sym (set_next_of_next_if c fresh nec),
              run,
              run',
            )
            refl,
        record {
          linked = shift_right g' null xs ((fresh, item) ∷ ys) (c, w) null linked;
          head_first = rw i.head_first (head_after h xs ys ((fresh, item) ∷ ys) c fresh w i.linked);
          tail_last = rw i.tail_last (tail_after h xs ys c fresh w item i.linked);
          counted = omega (
            arith,
            i.counted,
            length-append xs ((c, w) ∷ (fresh, item) ∷ ys),
            length-append xs ((c, w) ∷ ys),
          );
        },
      )

  pub before-null :
      (xs : Chain)
      → IsList h l xs
      → (h' : Heap) × (l' : Header) × (insert_before_current fresh l null item h
          ≡ some ((true, l'), h'))
        × IsList h' l' (xs ++ (fresh, item) ∷ [])
  unfolding insert_before_current
  before-null xs i =
      let (g, run, linked) = link_end h xs fresh item i.linked new ne in
      (
        g,
        grown l (if l.head == null then fresh else l.head) fresh,
        rw (ne, ◌>>=◌, ◌>>◌, i.tail_last, run) refl,
        record {
          linked = linked;
          head_first = rw i.head_first (head_end h xs fresh item i.linked);
          tail_last = sym (last-append null xs ((fresh, item) ∷ []));
          counted = omega (arith, i.counted, length-append xs ((fresh, item) ∷ []));
        },
      )

  pub before-cell :
      (xs ys : Chain) (c : Ptr) (w : ℕ)
      → IsList h l (xs ++ (c, w) ∷ ys)
      → (h' : Heap) × (l' : Header) × (insert_before_current fresh l c item h
          ≡ some ((true, l'), h'))
        × IsList h' l' (xs ++ (fresh, item) ∷ (c, w) ∷ ys)
  unfolding insert_before_current
  before-cell xs ys c w i =
      let (left, right, apart) = split h null xs ((c, w) ∷ ys) null i.linked in
      let (cell, nec, out, behind) = right in
      let (g, g', run, run', linked) =
        link_prev_next h xs ((c, w) ∷ ys) fresh item left right apart new ne in
      (
        g',
        grown l (if c == l.head then fresh else l.head) l.tail,
        rw
            (
              ne,
              nec,
              load-some h c (entry w (first ys null) (last null xs)) nec cell,
              ◌>>=◌,
              ◌>>◌,
              sym (set_prev_of_prev_if c fresh nec),
              run,
              run',
            )
            refl,
        record {
          linked = linked;
          head_first = rw i.head_first (head_before h xs ys c fresh w item i.linked);
          tail_last =
              i.tail_last
              ∙ last-append null xs ((c, w) ∷ ys)
              ∙ sym (last-append null xs ((fresh, item) ∷ (c, w) ∷ ys));
          counted = omega (
            arith,
            i.counted,
            length-append xs ((fresh, item) ∷ (c, w) ∷ ys),
            length-append xs ((c, w) ∷ ys),
          );
        },
      )
