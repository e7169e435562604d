-- ===== src/Memory.antt =====
-- The allocation wrappers of common/util.c. The C library's allocator is not part of the repository: it
-- is the parameter `Allocator`, with the documented effect of each call. The log lines are left out.
pub mod Blocks
pub mod Small
use cliveserver.Base.{
  ℕ, ◌*◌, ◌%◌, ◌^◌, ◌≤◌, ◌≡◌, Bool, not, Option, none, some, List, ◌++◌, ◌==◌, if◌then◌else◌,
  length, drop, replicate,
}
use cliveserver.Run.{Run, aborted, returned, ◌>>=◌, assert}

-- over the bytes of the block that starts at an address
module _ {Heap : Type 0} (block : Heap → ℕ → Option (List ℕ)) where
  abbrev pub SameBlocks : Heap → Heap → Type 0
  SameBlocks h h' = (q : ℕ) → block h' q ≡ block h q

  -- a new block with these bytes, and no other change
  abbrev pub NewBlock : Heap → ℕ → List ℕ → Heap → Type 0
  NewBlock h p bytes h' =
      (block h p ≡ none) × ((q : ℕ) → block h' q ≡ (if q == p then some bytes else block h q))

  -- a call that returned NULL and changed nothing, or a new block of `n` bytes
  abbrev pub Allotted : Heap → ℕ → Option ℕ × Heap → Type 0
  Allotted h n (none, h') = SameBlocks h h'
  Allotted h n (some p, h') = (bytes : List ℕ) × ((length bytes ≡ n) × NewBlock h p bytes h')

  -- and the same of a block of zeros
  abbrev pub Zeroed : Heap → ℕ → Option ℕ × Heap → Type 0
  Zeroed h n (none, h') = SameBlocks h h'
  Zeroed h n (some p, h') = NewBlock h p (replicate n 0) h'

-- `malloc`, `realloc`, `free` and `memset`
pub record Allocator : Type 1 where
  pub Heap : Type 0
  pub block : Heap → ℕ → Option (List ℕ)
  pub malloc : Heap → ℕ → Option ℕ × Heap
  pub realloc : Heap → Option ℕ → ℕ → Option ℕ × Heap
  pub free : Heap → ℕ → Heap
  pub memset : Heap → ℕ → ℕ → ℕ → Heap
  pub malloc_done : (h : Heap) (size : ℕ) → Allotted block h size (malloc h size)
  pub free_done : (h : Heap) (p q : ℕ) → block (free h p) q ≡ (if q == p then none else block h q)
  pub memset_done :
      (h : Heap) (p v n q : ℕ) (bytes : List ℕ)
      → block h p ≡ some bytes
      → n ≤ length bytes
      → block (memset h p v n) q
        ≡ (if q == p then some (replicate n v ++ drop n bytes) else block h q)

-- the number of values of `size_t`
abbrev pub sizes : ℕ
sizes = 2 ^ 64

module _ (allocator : Allocator) where
  open allocator use {Heap, malloc, realloc, free, memset}

  unfoldable pub clive_alloc : Heap → ℕ → Run (Option ℕ × Heap)
  clive_alloc h size = assert (not (size == 0)) (returned (malloc h size))

  unfoldable pub zeroed : ℕ → Option ℕ × Heap → Option ℕ × Heap
  zeroed size (none, h) = (none, h)
  zeroed size (some p, h) = (some p, memset h p 0 size)

  unfoldable pub clive_zalloc : Heap → ℕ → Run (Option ℕ × Heap)
  unfolding clive_alloc zeroed
  clive_zalloc h size = clive_alloc h size >>= λ r. returned (zeroed size r)

  -- The product is one of `size_t`, which wraps.
  unfoldable pub clive_calloc : Heap → ℕ → ℕ → Run (Option ℕ × Heap)
  unfolding clive_zalloc
  clive_calloc h nmemb size = clive_zalloc h ((nmemb * size) % sizes)

  unfoldable pub clive_realloc : Heap → Option ℕ → ℕ → Run (Option ℕ × Heap)
  clive_realloc h p size = assert (not (size == 0)) (returned (realloc h p size))

  unfoldable pub clive_free : Heap → Option ℕ → Run Heap
  clive_free h none = aborted
  clive_free h (some p) = returned (free h p)
