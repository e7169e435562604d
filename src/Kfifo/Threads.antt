-- ===== src/Kfifo/Threads.antt =====
-- One thread in `kfifo_put` and another in `__kfifo_get` on one ring, without a lock, as channel.c,
-- media.c and http.c have them. A thread reads the offsets, copies and moves its own offset in three
-- steps; a word is read and written in one piece.
use cliveserver.Base.{ℕ, ◌-◌, ◌≡◌, ◌≤◌, refl, List, [], ◌++◌, min, bit_and, length, take, drop}
use cliveserver.Kfifo.{Kfifo, put, raw_get, reset_if_empty}
use cliveserver.Kfifo.Word.{add32, sub32}
use cliveserver.Kfifo.Copy.{copy_to, copy_from}

unfoldable pub put_room : Kfifo → ℕ → ℕ
put_room fifo wanted = min wanted (add32 (sub32 fifo.size fifo.in_offset) fifo.out_offset)

unfoldable pub copy_in : Kfifo → List ℕ → ℕ → Kfifo
copy_in fifo source n =
    let at = bit_and fifo.in_offset (sub32 fifo.size 1) in
    let l = min n (sub32 fifo.size at) in
    let first = copy_to fifo.buffer at (take l source) in
    record fifo { buffer = copy_to first 0 (take (n - l) (drop l source)) }

unfoldable pub publish_in : Kfifo → ℕ → Kfifo
publish_in fifo n = record fifo { in_offset = add32 fifo.in_offset n }

unfoldable pub get_room : Kfifo → ℕ → ℕ
get_room fifo wanted = min wanted (sub32 fifo.in_offset fifo.out_offset)

unfoldable pub copy_out : Kfifo → ℕ → List ℕ
copy_out fifo n =
    let at = bit_and fifo.out_offset (sub32 fifo.size 1) in
    let l = min n (sub32 fifo.size at) in
    copy_from fifo.buffer at l ++ copy_from fifo.buffer 0 (n - l)

unfoldable pub publish_out : Kfifo → ℕ → Kfifo
publish_out fifo n = record fifo { out_offset = add32 fifo.out_offset n }

-- Undisturbed, the steps make the calls.
put-steps :
    (fifo : Kfifo) (source : List ℕ) (wanted : ℕ)
    → put fifo source wanted
      ≡ (let n = put_room fifo wanted in (n, publish_in (copy_in fifo source n) n))
unfolding put put_room copy_in publish_in
put-steps fifo source wanted = refl

raw_get-steps :
    (fifo : Kfifo) (wanted : ℕ)
    → raw_get fifo wanted ≡ (let n = get_room fifo wanted in (copy_out fifo n, publish_out fifo n))
unfolding raw_get get_room copy_out publish_out
raw_get-steps fifo wanted = refl

-- where each thread is; `source` holds the bytes of the call
pub data Producer : Type 0 where
  producer_idle : Producer
  measured : (source : List ℕ) (n : ℕ) → Producer
  filled : (source : List ℕ) (n : ℕ) → Producer

pub data Consumer : Type 0 where
  consumer_idle : Consumer
  counted : (n : ℕ) → Consumer
  fetched : (n : ℕ) (bytes : List ℕ) → Consumer

-- `sent` and `received` are the bytes of the calls that have ended, in their order.
pub record Threads : Type 0 where
  pub fifo : Kfifo
  pub producer : Producer
  pub consumer : Consumer
  pub sent : List ℕ
  pub received : List ℕ

abbrev pub idle : Kfifo → Threads
idle fifo = record {
  fifo = fifo;
  producer = producer_idle;
  consumer = consumer_idle;
  sent = [];
  received = [];
}

-- Any step of either thread, and the end of `kfifo_get` while neither is in a call.
pub data Step (s : Threads) : Threads → Type 0 where
  measure :
      (source : List ℕ) (wanted : ℕ)
      → s.producer ≡ producer_idle
      → wanted ≤ length source
      → Step s (record s { producer = measured source (put_room s.fifo wanted) })
  fill :
      (source : List ℕ) (n : ℕ)
      → s.producer ≡ measured source n
      → Step s (record s { fifo = copy_in s.fifo source n; producer = filled source n })
  publish :
      (source : List ℕ) (n : ℕ)
      → s.producer ≡ filled source n
      → Step s (record s {
        fifo = publish_in s.fifo n;
        producer = producer_idle;
        sent = s.sent ++ take n source;
      })
  count :
      (wanted : ℕ)
      → s.consumer ≡ consumer_idle
      → Step s (record s { consumer = counted (get_room s.fifo wanted) })
  fetch :
      (n : ℕ)
      → s.consumer ≡ counted n
      → Step s (record s { consumer = fetched n (copy_out s.fifo n) })
  release :
      (n : ℕ) (bytes : List ℕ)
      → s.consumer ≡ fetched n bytes
      → Step s (record s {
        fifo = publish_out s.fifo n;
        consumer = consumer_idle;
        received = s.received ++ bytes;
      })
  reset :
      s.producer ≡ producer_idle
      → s.consumer ≡ consumer_idle
      → Step s (record s { fifo = reset_if_empty s.fifo })

pub data Reachable (start : Kfifo) : Threads → Type 0 where
  begin : Reachable start (idle start)
  next : {s t : Threads} → Reachable start s → Step s t → Reachable start t
