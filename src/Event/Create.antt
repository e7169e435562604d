-- ===== src/Event/Create.antt =====
-- `event_base_create` and `event_base_destroy` of common/epoll.c. The descriptors of the process are
-- not part of the repository: they are the parameter `Descriptors`, with the documented effect of the
-- calls. The log lines are left out.
use cliveserver.Base.{ℕ, ◌≡◌, Bool, true, false, Option, none, some, ltb, ◌==◌, if◌then◌else◌}
use cliveserver.Base.Int.{ℤ, pos, negsuc}
use cliveserver.Run.{Run, aborted, returned, ◌>>=◌, assert}
use cliveserver.Memory.{Allocator, clive_alloc, clive_calloc, clive_free}

module _ {Kernel : Type 0} (is_open : Kernel → ℕ → Bool) where
  abbrev pub SameOpen : Kernel → Kernel → Type 0
  SameOpen k k' = (s : ℕ) → is_open k' s ≡ is_open k s

  -- a call that failed and changed nothing, or a new descriptor
  abbrev pub Opened : Kernel → ℤ × Kernel → Type 0
  Opened k (negsuc e, k') = SameOpen k k'
  Opened k (pos fd, k') =
      (is_open k fd ≡ false) × ((s : ℕ) → is_open k' s ≡ (if s == fd then true else is_open k s))

pub record Descriptors : Type 1 where
  pub Kernel : Type 0
  pub is_open : Kernel → ℕ → Bool
  pub epoll_create : Kernel → ℕ → ℤ × Kernel
  pub close : Kernel → ℕ → ℤ × Kernel
  pub timerfd_create : Kernel → ℤ × Kernel
  pub created : (k : Kernel) (n : ℕ) → Opened is_open k (epoll_create k n)
  pub timer_created : (k : Kernel) → Opened is_open k (timerfd_create k)
  -- whatever `close` returns, the descriptor is not open any more
  pub closed :
      (k : Kernel) (fd s : ℕ) → is_open (close k fd).1 s ≡ (if s == fd then false else is_open k s)

-- `struct event_base` and its address; the callback is a parameter of `event_wait`
pub record EventBase : Type 0 where
  pub address : ℕ
  pub ep : ℕ
  pub event : ℕ
  pub nevent : ℕ

-- the sizes of `struct epoll_event` and of `struct event_base` on x86-64
abbrev pub event_size : ℕ
event_size = 12

abbrev pub base_size : ℕ
base_size = 32

module _ (descriptors : Descriptors) (allocator : Allocator) where
  open descriptors use {Kernel, epoll_create, close}
  open allocator use {Heap}

  -- the rest of `event_base_create` with the array of events
  unfoldable pub with_events :
      ℕ → Kernel → ℕ → Option ℕ × Heap → Run (Option EventBase × Heap × Kernel)
  with_events nevent k ep (none, h) = returned (none, h, (close k ep).1)
  with_events nevent k ep (some event, h) = clive_alloc allocator h base_size >>= λ r. elim r.0 [
    | none ↦ clive_free allocator r.1 (some event) >>= λ h'. returned (none, h', (close k ep).1)
    | some address ↦
        returned
          (some (record { address = address; ep = ep; event = event; nevent = nevent }), r.1, k)
  ]

  unfoldable pub with_epoll : ℕ → Heap → ℤ × Kernel → Run (Option EventBase × Heap × Kernel)
  unfolding with_events
  with_epoll nevent h (negsuc e, k) = returned (none, h, k)
  with_epoll nevent h (pos ep, k) =
      clive_calloc allocator h nevent event_size >>= λ r. with_events nevent k ep r

  unfoldable pub event_base_create : Heap → Kernel → ℤ → Run (Option EventBase × Heap × Kernel)
  unfolding with_epoll
  event_base_create h k (negsuc n) = aborted
  event_base_create h k (pos nevent) =
      assert (ltb 0 nevent) (with_epoll nevent h (epoll_create k nevent))

  -- `ep` is set to -1 in memory that the next line frees
  unfoldable pub event_base_destroy : Heap → Kernel → Option EventBase → Run (Heap × Kernel)
  event_base_destroy h k none = returned (h, k)
  event_base_destroy h k (some evb) = assert (ltb 0 evb.ep) (
      clive_free allocator h (some evb.event) >>= λ h'.
      let k' = (close k evb.ep).1 in
      clive_free allocator h' (some evb.address) >>= λ h''. returned (h'', k'))
