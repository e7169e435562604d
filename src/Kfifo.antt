-- ===== src/Kfifo.antt =====
-- common/kfifo.c and kfifo.h: the byte ring between a channel, the repacking task and the HTTP
-- task. The two offsets count modulo 2 ^ 32 and are masked by `size - 1` to index the buffer.
pub mod Word
pub mod Copy
pub mod Window
pub mod Inv
mod Scatter
pub mod Put
pub mod Get
pub mod Refine
pub mod Size
pub mod Threads
pub mod Halves
pub mod Interleave
mod Tests
use cliveserver.Base.{
  ℕ, ◌+◌, ◌-◌, ◌%◌, ◌≡◌, List, [], ◌++◌, min, bit_and, ◌==◌, if◌then◌else◌, length, take, drop,
  replicate,
}
use cliveserver.Kfifo.Word.{add32, sub32}
use cliveserver.Kfifo.Copy.{copy_to, copy_from}

-- `struct kfifo`; `in` and `out` are named for the comments beside them
pub record Kfifo : Type 0 where
  pub buffer : List ℕ
  pub size : ℕ
  pub in_offset : ℕ
  pub out_offset : ℕ

-- An odd size is made even. The fresh memory is taken as zero bytes: none is read before it is
-- written.
unfoldable pub alloc : ℕ → Kfifo
alloc size =
    let size' : ℕ = if size % 2 == 0 then size else add32 size 1 in
    record { buffer = replicate size' 0; size = size'; in_offset = 0; out_offset = 0 }

unfoldable pub len : Kfifo → ℕ
len fifo = sub32 fifo.in_offset fifo.out_offset

-- `__kfifo_put`, and `kfifo_put`, which only calls it
unfoldable pub put : Kfifo → List ℕ → ℕ → ℕ × Kfifo
put fifo buffer wanted =
    let n = min wanted (add32 (sub32 fifo.size fifo.in_offset) fifo.out_offset) in
    let at = bit_and fifo.in_offset (sub32 fifo.size 1) in
    let l = min n (sub32 fifo.size at) in
    let first = copy_to fifo.buffer at (take l buffer) in
    let rest = copy_to first 0 (take (n - l) (drop l buffer)) in
    (n, record fifo { buffer = rest; in_offset = add32 fifo.in_offset n })

-- `__kfifo_get`: the bytes copied out stand beside the new state, their number is their length
unfoldable pub raw_get : Kfifo → ℕ → List ℕ × Kfifo
raw_get fifo wanted =
    let n = min wanted (sub32 fifo.in_offset fifo.out_offset) in
    let at = bit_and fifo.out_offset (sub32 fifo.size 1) in
    let l = min n (sub32 fifo.size at) in
    (
      copy_from fifo.buffer at l ++ copy_from fifo.buffer 0 (n - l),
      record fifo { out_offset = add32 fifo.out_offset n },
    )

-- the end of `kfifo_get`: both offsets go back to 0 when the ring is empty
unfoldable pub reset_if_empty : Kfifo → Kfifo
reset_if_empty fifo =
    if fifo.in_offset == fifo.out_offset
    then record fifo { in_offset = 0; out_offset = 0 }
    else fifo

unfoldable pub get : Kfifo → ℕ → List ℕ × Kfifo
get fifo wanted = let (bytes, fifo') = raw_get fifo wanted in (bytes, reset_if_empty fifo')
