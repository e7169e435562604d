-- ===== src/Pipeline/Parts.antt =====
-- Bytes that are handed on from list to list: their order, and how many there are.
use cliveserver.Base.{
  ℕ, ◌+◌, ◌-◌, ◌≡◌, List, [], ◌++◌, length, take, arith, append_assoc, append-nil, length-append,
  length-take,
}
use cliveserver.Base.Sublists.{Sublist, Sublist_after, Sublist_before, Sublist-take}

-- Of the batch `b` that leaves the ring `ring` of the first task, the part `take n b` goes behind `p`.
module _ (w p b p' ring ring' : List ℕ) (n : ℕ) (gained : p' ≡ p ++ take n b)
    (left : b ++ ring' ≡ ring) where
  pub hand_over : Sublist (w ++ (p' ++ ring')) ((w ++ (p ++ ring)) ++ [])
  hand_over =
      rw (append-nil (w ++ (p ++ ring)), gained, ← left, append_assoc p (take n b) ring')
        (Sublist_after w (p ++ (take n b ++ ring')) (p ++ (b ++ ring')) (
          Sublist_after p (take n b ++ ring') (b ++ ring')
            (Sublist_before (take n b) b ring' (Sublist-take n b))))

  pub length_hand_over :
      (d u : ℕ)
      → length (w ++ (p' ++ ring')) + ((d + (length b - length (take n b))) + u)
        ≡ (length (w ++ (p ++ ring)) + (d + u)) + 0
  length_hand_over d u =
      rw
        (
          gained,
          ← left,
          length-append w ((p ++ take n b) ++ ring'),
          length-append (p ++ take n b) ring',
          length-append p (take n b),
          length-append w (p ++ (b ++ ring')),
          length-append p (b ++ ring'),
          length-append b ring',
        )
        (omega (arith, length-take n b))

-- Of the batch `b` that is fetched, the part `take n b` goes behind `w`, and the rest is lost.
module _ (w b taken now behind before : List ℕ) (n : ℕ) (taken_lem : taken ≡ take n b)
    (same : now ≡ behind) (split : b ++ behind ≡ before) where
  pub taken_in_order : Sublist ((w ++ taken) ++ now) ((w ++ before) ++ [])
  taken_in_order =
      rw (append-nil (w ++ before), taken_lem, same, ← split, append_assoc w (take n b) behind)
        (Sublist_after w (take n b ++ behind) (b ++ behind)
          (Sublist_before (take n b) b behind (Sublist-take n b)))

  pub length_taken :
      (d u : ℕ)
      → length ((w ++ taken) ++ now) + (d + (u + (length b - length taken)))
        ≡ (length (w ++ before) + (d + u)) + 0
  length_taken d u =
      rw
        (
          taken_lem,
          same,
          ← split,
          length-append (w ++ take n b) behind,
          length-append w (take n b),
          length-append w (b ++ behind),
          length-append b behind,
        )
        (omega (arith, length-take n b))
