-- ===== src/Kfifo/Refine.antt =====
-- A ring whose size is a power of two behaves as the bounded queue of its bytes.
use cliveserver.Base.{ℕ, ◌-◌, ◌^◌, ◌≡◌, refl, List, [], ◌∷◌, ◌++◌, min, length, take, drop, arith}
use cliveserver.Kfifo.{Kfifo, len, put, get}
use cliveserver.Kfifo.Window.{length-window}
use cliveserver.Kfifo.Inv.{IsValid, contents}
use cliveserver.Kfifo.Put.{put-count, contents-put, put-IsValid}
use cliveserver.Kfifo.Get.{get_lem}

-- a client's calls: the bytes to put, or the number of bytes asked for
pub data Op : Type 0 where
  putting : List ℕ → Op
  getting : ℕ → Op

-- what a call returns: a count, or bytes
pub data Reply : Type 0 where
  taken : ℕ → Reply
  given : List ℕ → Reply

unfoldable pub run : Kfifo → List Op → List Reply
run fifo [] = []
run fifo (putting bytes ∷ ops) =
    let (n, fifo') = put fifo bytes (length bytes) in taken n ∷ run fifo' ops
run fifo (getting n ∷ ops) = let (bytes, fifo') = get fifo n in given bytes ∷ run fifo' ops

-- the specification: a queue of at most `cap` bytes, oldest first
unfoldable pub queue_run : ℕ → List ℕ → List Op → List Reply
queue_run cap q [] = []
queue_run cap q (putting bytes ∷ ops) =
    let n = min (length bytes) (cap - length q) in taken n ∷ queue_run cap (q ++ take n bytes) ops
queue_run cap q (getting n ∷ ops) = given (take n q) ∷ queue_run cap (drop n q) ops

pub length-contents : (fifo : Kfifo) → length (contents fifo) ≡ len fifo
length-contents fifo = length-window fifo.size fifo.buffer fifo.out_offset (len fifo)

-- From a valid ring of 2 ^ k bytes any sequence of puts and gets returns exactly what a FIFO queue
-- of at most 2 ^ k bytes, holding the ring's bytes, returns: a put takes the prefix that fits, a
-- get hands out the oldest bytes, also across the end of the buffer and the wrap of the offsets.
pub run-queue_run :
    (k : ℕ) (ops : List Op) (fifo : Kfifo)
    → IsValid k fifo
    → run fifo ops ≡ queue_run (2 ^ k) (contents fifo) ops
unfolding run queue_run
run-queue_run k [] fifo v = refl
run-queue_run k (putting bytes ∷ ops) fifo v =
    let ih =
      run-queue_run k ops (put fifo bytes (length bytes)).1
        (put-IsValid v bytes (length bytes) (omega arith)) in
    rw
      (
        ih,
        put-count v bytes (length bytes) (omega arith),
        length-contents,
        contents-put v bytes (length bytes) (omega arith),
        v.sized,
      )
      refl
run-queue_run k (getting n ∷ ops) fifo v =
    let (bytes, rest, valid) = get_lem n v in
    rw (run-queue_run k ops (get fifo n).1 valid, bytes, rest) refl
