-- ===== src/Memory/Small.antt =====
-- An allocator that gives away addresses in turn, for the tests.
use cliveserver.Base.{
  ℕ, suc, ◌≡◌, refl, Option, none, some, List, ◌++◌, ◌==◌, if◌then◌else◌, drop, replicate,
  length-replicate,
}
use cliveserver.Memory.{Allotted, Allocator}

pub record SmallHeap : Type 0 where
  pub next : ℕ
  pub blocks : ℕ → Option (List ℕ)

abbrev pub write : SmallHeap → ℕ → Option (List ℕ) → SmallHeap
write h p v = record h { blocks = λ q. if q == p then v else h.blocks q }

abbrev pub allot : SmallHeap → ℕ → Option (List ℕ) → Option ℕ × SmallHeap
allot h size (some held) = (none, h)
allot h size none =
    (some h.next, record (write h h.next (some (replicate size 7))) { next = suc h.next })

pub allot-Allotted :
    (h : SmallHeap) (size : ℕ) (b : Option (List ℕ))
    → h.blocks h.next ≡ b
    → Allotted (λ (g : SmallHeap). g.blocks) h size (allot h size b)
allot-Allotted h size none e = (replicate size 7, (length-replicate size 7, (e, λ q. refl)))
allot-Allotted h size (some held) e = λ q. refl

abbrev pub overwrite : SmallHeap → ℕ → ℕ → ℕ → Option (List ℕ) → SmallHeap
overwrite h p v n none = h
overwrite h p v n (some bytes) = write h p (some (replicate n v ++ drop n bytes))

abbrev pub small_allocator : Allocator
small_allocator = record {
  Heap = SmallHeap;
  block = λ h. h.blocks;
  malloc = λ h size. allot h size (h.blocks h.next);
  realloc = λ h p size. (none, h);
  free = λ h p. write h p none;
  memset = λ h p v n. overwrite h p v n (h.blocks p);
  malloc_done = λ h size. allot-Allotted h size (h.blocks h.next) refl;
  free_done = λ h p q. refl;
  memset_done = λ h p v n q bytes held small. rw held refl;
}

abbrev pub no_blocks : SmallHeap
no_blocks = record { next = 1; blocks = λ q. none }
