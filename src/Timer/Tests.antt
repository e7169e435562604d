-- ===== src/Timer/Tests.antt =====
-- The timer's theorems at concrete times and answers.
use cliveserver.Base.{◌≢◌, replicate, true, false, none, some}
use cliveserver.Run.{returned}
use cliveserver.Memory.{clive_alloc, clive_zalloc, clive_calloc, zeroed}
use cliveserver.Memory.Small.{SmallHeap, small_allocator, allot, overwrite, no_blocks}
use cliveserver.Event.TinyFiles.{OpenFiles, open_next, tiny_files}
use cliveserver.Timer.Memory.{timer_new}
use cliveserver.Timer.Leaks.{timer_new-leaks}
use cliveserver.Base.{◌+◌, ◌≡◌, refl, false, true, none, some, [], ◌∷◌, arith}
use cliveserver.Core.{cl_ok}
use cliveserver.Errno.{eintr}
use cliveserver.Event.{Con}
use cliveserver.Timer.{Timespec, clive_timer_new, moved, failure, con_recv}
use cliveserver.Event.Tiny.{tiny}
use cliveserver.Timer.Create.{Registered, clive_timer_new-Registered}

abbrev now : Timespec
now = record { tv_sec = 1400000000; tv_nsec = 999999700 }

abbrev conn : Con
conn = record {
  skt = 5;
  recv_active = false;
  send_active = false;
  events = 0;
  done = false;
  err = 0;
}

-- the world is a count of expirations
expires_once :
    con_recv (λ n. n + 1) (failure eintr ∷ moved ∷ moved ∷ []) conn 0 ≡ some (cl_ok, conn, 1)
unfolding con_recv
expires_once = refl

clive_timer_new-Registered_example :
    Registered tiny (λ s. none) 5 (clive_timer_new tiny (λ s. none) 5 (some now) (λ t. true) 500)
clive_timer_new-Registered_example =
    clive_timer_new-Registered tiny (λ s. none) 5 now (λ t. true) 500 (omega arith) (omega arith)
      refl refl

abbrev one_block : SmallHeap
one_block = overwrite (allot no_blocks 4 none).1 1 0 4 (some (replicate 4 7))

abbrev two_blocks : SmallHeap
two_blocks = overwrite (allot one_block 2 none).1 2 0 2 (some (replicate 2 7))

abbrev no_files : OpenFiles
no_files = record { next = 3; open_ones = λ s. false }

first_given : clive_calloc small_allocator no_blocks 1 4 ≡ returned (some 1, one_block)
unfolding clive_calloc clive_zalloc clive_alloc zeroed
first_given = refl

second_given : clive_calloc small_allocator one_block 1 2 ≡ returned (some 2, two_blocks)
unfolding clive_calloc clive_zalloc clive_alloc zeroed
second_given = refl

timer_new-leaks_example :
    (h' : SmallHeap) × (timer_new tiny_files small_allocator 4 2 none
        (λ t. true)
        1500
        no_blocks
        no_files
      ≡ returned (none, h', (open_next no_files false).1))
    × (h'.blocks 1 ≡ none)
    × (no_blocks.blocks 2 ≡ none)
    × (h'.blocks 2 ≢ none)
    × (no_files.open_ones 3 ≡ false)
    × ((open_next no_files false).1.open_ones 3 ≡ true)
timer_new-leaks_example =
    timer_new-leaks tiny_files small_allocator 4 2 (λ t. true) 1500 no_blocks one_block two_blocks
      no_files (open_next no_files false).1 1 2 3 (omega arith) (omega arith) (omega arith)
      (omega arith) first_given second_given refl
