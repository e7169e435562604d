-- ===== src/Kfifo/Tests.antt =====
-- Runs of the ring, and its theorems at concrete rings.
use cliveserver.Base.{◌-◌, ◌^◌, ◌≡◌, refl, List, [], ◌∷◌, ◌++◌, arith}
use cliveserver.Kfifo.{Kfifo, alloc, put, raw_get, reset_if_empty, get, len}
use cliveserver.Kfifo.Word.{add32, sub32}
use cliveserver.Kfifo.Copy.{copy_to, copy_from}
use cliveserver.Kfifo.Inv.{IsValid, contents}
use cliveserver.Kfifo.Threads.{
  Threads, Reachable, begin, next, measure, fill, publish, count, fetch, release, put_room,
  get_room, copy_in, copy_out, publish_in, publish_out,
}
use cliveserver.Kfifo.Interleave.{threads-history}
use cliveserver.Kfifo.Refine.{Op, putting, getting, taken, given, run, queue_run, run-queue_run}

-- 8, 9 and 7 round the end of four bytes, at offsets just below 2 ^ 32
abbrev wrapped : Kfifo
wrapped = record { buffer = 7 ∷ 5 ∷ 8 ∷ 9 ∷ []; size = 4; in_offset = 1; out_offset = 2 ^ 32 - 2 }

abbrev script : List Op
script = putting (1 ∷ 2 ∷ []) ∷ getting 2 ∷ putting (3 ∷ 4 ∷ []) ∷ getting 9 ∷ []

wrapped-IsValid : IsValid 2 wrapped
unfolding len sub32
wrapped-IsValid = omega arith

run-wrapped :
    run wrapped script ≡ taken 1 ∷ given (8 ∷ 9 ∷ []) ∷ taken 2 ∷ given (7 ∷ 1 ∷ 3 ∷ 4 ∷ []) ∷ []
unfolding run put get raw_get reset_if_empty copy_to copy_from add32 sub32
run-wrapped = refl

run-queue_run_example : run wrapped script ≡ queue_run (2 ^ 2) (contents wrapped) script
run-queue_run_example = run-queue_run 2 script wrapped wrapped-IsValid

-- A ring of six bytes, which `kfifo_alloc` accepts, loses the first two of four bytes.
six_bytes :
    run (alloc 6) (putting (1 ∷ 2 ∷ []) ∷ putting (3 ∷ 4 ∷ []) ∷ getting 4 ∷ [])
    ≡ taken 2 ∷ taken 2 ∷ given (3 ∷ 4 ∷ 0 ∷ 0 ∷ []) ∷ []
unfolding run alloc put get raw_get reset_if_empty copy_to copy_from add32 sub32
six_bytes = refl

-- A get that starts while a put is under way and ends when it has ended.
crossed_run : (s : Threads) × Reachable wrapped s × (s.sent ≡ 5 ∷ []) × (s.received ≡ 8 ∷ 9 ∷ [])
unfolding put_room get_room copy_in copy_out publish_in publish_out copy_to copy_from add32 sub32
crossed_run = (
  _,
  next
      (next
        (next
          (next (next (next begin (measure (5 ∷ []) 1 refl (omega arith))) (count 2 refl))
            (fill (5 ∷ []) 1 refl))
          (fetch 2 refl))
        (publish (5 ∷ []) 1 refl))
      (release 2 (8 ∷ 9 ∷ []) refl),
  refl,
  refl,
)

threads-history_example :
    IsValid 2 crossed_run.0.fifo
    × (contents wrapped ++ crossed_run.0.sent
        ≡ crossed_run.0.received ++ contents crossed_run.0.fifo)
threads-history_example = threads-history 2 wrapped crossed_run.0 wrapped-IsValid crossed_run.1

abbrev empty_ring : Kfifo
empty_ring = record { buffer = 0 ∷ 0 ∷ 0 ∷ 0 ∷ []; size = 4; in_offset = 2; out_offset = 2 }

-- The end of `kfifo_get` between the copies of a put and the move of its offset: the bytes put are
-- lost, and two others are handed out.
torn :
    (raw_get (publish_in (reset_if_empty (copy_in empty_ring (8 ∷ 9 ∷ []) 2)) 2) 2).0 ≡ 0 ∷ 0 ∷ []
unfolding raw_get publish_in reset_if_empty copy_in copy_to copy_from add32 sub32
torn = refl
