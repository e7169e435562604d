-- ===== src/Memory/Blocks.antt =====
-- What the allocation wrappers do to the blocks of the heap.
use cliveserver.Base.{
  ℕ, ◌*◌, ◌%◌, ◌^◌, ◌<◌, ◌≡◌, refl, sym, ap, ◌∙◌, inl, inr, true, not, Option, none, some, List, [],
  ◌==◌, drop, arith, Bool-cases, ==_self, ==_iff, append-nil, drop_all,
}
use cliveserver.Run.{returned}
use cliveserver.Memory.{
  SameBlocks, NewBlock, Allotted, Zeroed, Allocator, zeroed, clive_alloc, clive_zalloc,
  clive_calloc,
}

module _ (allocator : Allocator) where
  open allocator use {Heap, block, malloc, free, memset, malloc_done, memset_done, free_done}

  pub clive_alloc_lem :
      (h : Heap) (size : ℕ)
      → 0 < size
      → (r : Option ℕ × Heap) × (clive_alloc allocator h size ≡ returned r)
        × Allotted block h size r
  unfolding clive_alloc
  clive_alloc_lem h size positive =
      let nonzero : not (size == 0) ≡ true = ground arith in
      (malloc h size, rw nonzero refl, malloc_done h size)

  zeroed-Zeroed :
      (h : Heap) (n : ℕ) (r : Option ℕ × Heap)
      → Allotted block h n r
      → Zeroed block h n (zeroed allocator n r)
  unfolding zeroed
  zeroed-Zeroed h n (none, h') same = same
  zeroed-Zeroed h n (some p, h') (bytes, (size, (fresh, new))) =
      let held : block h' p ≡ some bytes = new p ∙ rw (==_self p) refl in
      let none_left : drop n bytes ≡ [] = drop_all n bytes size in
      (
        fresh,
        λ q. memset_done h' p 0 n q bytes held (omega (arith, size)) ∙ elim (Bool-cases (q == p)) [
          | inl e ↦ rw (e, none_left) (rw append-nil refl)
          | inr e ↦ rw e (new q ∙ rw e refl)
        ],
      )

  pub freed :
      (h : Heap) (p : ℕ) (bytes : List ℕ) (h' : Heap)
      → NewBlock block h p bytes h'
      → SameBlocks block h (free h' p)
  freed h p bytes h' (fresh, new) q = free_done h' p q ∙ elim (Bool-cases (q == p)) [
    | inl e ↦ let same : q ≡ p = (==_iff q p).0 e in rw e (sym (ap (block h) same ∙ fresh))
    | inr e ↦ rw e (new q ∙ rw e refl)
  ]

  -- `clive_calloc` of a product that is not zero and fits into `size_t` returns: NULL, with the heap's
  -- blocks unchanged, or a new block of that many zeros, with no other change.
  pub clive_calloc_lem :
      (h : Heap) (nmemb size : ℕ)
      → 0 < nmemb * size
      → nmemb * size < 2 ^ 64
      → (r : Option ℕ × Heap) × (clive_calloc allocator h nmemb size ≡ returned r)
        × Zeroed block h (nmemb * size) r
  unfolding clive_calloc clive_zalloc
  clive_calloc_lem h nmemb size positive small =
      let n : (nmemb * size) % 2 ^ 64 ≡ nmemb * size = omega (arith, small) in
      let (r, done, allotted) = clive_alloc_lem h (nmemb * size) positive in
      (
        zeroed allocator (nmemb * size) r,
        rw (n, done) refl,
        zeroed-Zeroed h (nmemb * size) r allotted,
      )
