-- ===== src/Kfifo/Size.antt =====
-- `kfifo_alloc`: which sizes it accepts, and what the masks need.
use native.Mathlib.Nat.{pow-suc}
use cliveserver.Base.{
  ℕ, zero, suc, ◌*◌, ◌%◌, ◌^◌, ◌≤◌, ◌≡◌, refl, true, [], arith, length-replicate, ◌==◌,
}
use cliveserver.Kfifo.{alloc, len}
use cliveserver.Kfifo.Word.{sub32}
use cliveserver.Kfifo.Window.{window}
use cliveserver.Kfifo.Inv.{IsValid, contents}

==_true : (a b : ℕ) → a ≡ b → (a == b) ≡ true
==_true a b e = ground arith

pow-even : (k : ℕ) → 1 ≤ k → 2 ^ k % 2 ≡ 0
pow-even zero h = absurd (omega arith)
pow-even (suc k) h = omega (arith, pow-suc 2 k)

-- Given a power of two from 2 to 2 ^ 31, `kfifo_alloc` makes a valid empty ring of that size.
pub alloc-IsValid :
    (k : ℕ) → 1 ≤ k → k ≤ 31 → IsValid k (alloc (2 ^ k)) × (contents (alloc (2 ^ k)) ≡ [])
unfolding alloc len sub32 window
alloc-IsValid k low high = rw (==_true (2 ^ k % 2) 0 (pow-even k low)) (
  record {
    width = high;
    sized = refl;
    held = length-replicate (2 ^ k) 0;
    in_word = omega arith;
    out_word = omega arith;
    fits = omega arith;
  },
  refl,
)

-- The rings that the server allocates: 4 MB for a channel and 128 KB for an HTTP task.
pub alloc_sizes : IsValid 22 (alloc (4 * 1024 * 1024)) × IsValid 17 (alloc (128 * 1024))
alloc_sizes = (
  (alloc-IsValid 22 (omega arith) (omega arith)).0,
  (alloc-IsValid 17 (omega arith) (omega arith)).0,
)
