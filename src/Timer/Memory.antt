-- ===== src/Timer/Memory.antt =====
-- The blocks and the descriptor of a timer: what `clive_timer_new` takes and gives back, and
-- `con_close`. What is written into the blocks is left out. A NULL from `clive_calloc` is written
-- through, which ends the process.
use cliveserver.Base.{ℕ, Bool, Option, none, some, if◌then◌else◌}
use cliveserver.Base.Int.{ℤ, pos, negsuc}
use cliveserver.Run.{Run, aborted, returned, ◌>>=◌}
use cliveserver.Memory.{Allocator, clive_calloc, clive_free}
use cliveserver.Event.Create.{Descriptors}
use cliveserver.Timer.{Timespec, deadline}

-- the addresses of `struct timer` and of its `struct tevents`, and the descriptor
pub record TimerBlocks : Type 0 where
  pub address : ℕ
  pub handle : ℕ
  pub skt : ℤ

module _ (descriptors : Descriptors) (allocator : Allocator) (timer_size handle_size : ℕ) where
  open descriptors use {Kernel, timerfd_create, close}
  open allocator use {Heap}

  -- the attempt to start the timer, with the clock's answer
  unfoldable pub start_or_free :
      Option Timespec
      → (Timespec → Bool)
      → ℕ
      → TimerBlocks
      → Heap
      → Kernel
      → Run (Option TimerBlocks × Heap × Kernel)
  start_or_free none settime msecs timer h k =
      clive_free allocator h (some timer.address) >>= λ h'. returned (none, h', k)
  start_or_free (some now) settime msecs timer h k =
      let freed = clive_free allocator h (some timer.address) >>= λ h'. returned (none, h', k) in
      if settime (deadline now msecs) then returned (some timer, h, k) else freed

  unfoldable pub with_handle :
      Option Timespec
      → (Timespec → Bool)
      → ℕ
      → ℕ
      → Option ℕ × Heap
      → Kernel
      → Run (Option TimerBlocks × Heap × Kernel)
  unfolding start_or_free
  with_handle clock settime msecs address (none, h) k = aborted
  with_handle clock settime msecs address (some handle, h) k =
      let (skt, k') = timerfd_create k in
      start_or_free clock settime msecs (record { address = address; handle = handle; skt = skt }) h
        k'

  unfoldable pub with_timer :
      Option Timespec
      → (Timespec → Bool)
      → ℕ
      → Option ℕ × Heap
      → Kernel
      → Run (Option TimerBlocks × Heap × Kernel)
  unfolding with_handle
  with_timer clock settime msecs (none, h) k = aborted
  with_timer clock settime msecs (some address, h) k =
      clive_calloc allocator h 1 handle_size >>= λ r. with_handle clock settime msecs address r k

  unfoldable pub timer_new :
      Option Timespec
      → (Timespec → Bool)
      → ℕ
      → Heap
      → Kernel
      → Run (Option TimerBlocks × Heap × Kernel)
  unfolding with_timer
  timer_new clock settime msecs h k =
      clive_calloc allocator h 1 timer_size >>= λ r. with_timer clock settime msecs r k

  -- `close` of a negative descriptor does nothing but set `errno`
  abbrev pub close_if : Kernel → ℤ → Kernel
  close_if k (pos skt) = (close k skt).1
  close_if k (negsuc n) = k

  unfoldable pub con_close : TimerBlocks → Heap → Kernel → Run (Heap × Kernel)
  con_close timer h k =
      let k' = close_if k timer.skt in
      clive_free allocator h (some timer.address) >>= λ h'. returned (h', k')
