-- ===== src/Timer.antt =====
-- common/timer.c: the deadline of a timer, and its read and write handlers. `clock_gettime`,
-- `timerfd_settime`, `read` and `write` are not part of the repository: their answers are
-- arguments, and a timer's own handler is a function on the world that it changes.
pub mod Deadline
pub mod Create
pub mod Handlers
pub mod Memory
pub mod Leaks
mod Tests
use cliveserver.Base.{
  ℕ, ◌+◌, ◌*◌, ◌/◌, ◌%◌, ◌≡◌, Bool, true, false, Option, none, some, List, [], ◌∷◌, if◌then◌else◌,
  ltb,
}
use cliveserver.Base.Int.{ℤ, pos, negsuc}
use cliveserver.Core.{Code, cl_ok, cl_error, cl_close}
use cliveserver.Errno.{Errno, eintr, eagain, other_error, on_errno}
use cliveserver.Event.{
  Con, new_connection, Epoll, Run, ◌>>=◌, returned, event_add_conn, event_del_out,
}

-- `struct timespec`
pub record Timespec : Type 0 where
  pub tv_sec : ℕ
  pub tv_nsec : ℕ

-- the `it_value` that both `clive_timer_new` and `clive_timer_update_time` hand to
-- `timerfd_settime` as an absolute time
pub deadline : Timespec → ℕ → Timespec
deadline now msecs = record {
  tv_sec = now.tv_sec + msecs / 1000;
  tv_nsec = now.tv_nsec + msecs % 1000;
}

-- The answers of the two calls: the clock, if it can be read, and the answer of `timerfd_settime`
-- to a time (true for 0).
pub clive_timer_update_time : Option Timespec → (Timespec → Bool) → ℕ → ℤ
clive_timer_update_time none settime msecs = negsuc 0
clive_timer_update_time (some now) settime msecs =
    if settime (deadline now msecs) then pos 0 else negsuc 0

module _ (epoll : Epoll) where
  -- `clive_timer_new` over the descriptor of `timerfd_create`: the timer's connection, or NULL when
  -- the time cannot be read or set. The results of the two registrations are dropped.
  unfoldable pub clive_timer_new :
      epoll.Kernel → ℕ → Option Timespec → (Timespec → Bool) → ℕ → Run (Option Con × epoll.Kernel)
  clive_timer_new k skt none settime msecs = returned (none, k)
  clive_timer_new k skt (some now) settime msecs =
      let started = event_add_conn epoll k (new_connection skt) >>= λ (_, conn, k').
      event_del_out epoll k' conn >>= λ (_, conn', k''). returned (some conn', k'') in
      if settime (deadline now msecs) then started else returned (none, k)

-- one return of `read` or `write` on the timer's descriptor
pub data Transfer : Type 0 where
  moved : Transfer
  zero_bytes : Transfer
  failure : Errno → Transfer

module _ {W : Type 0} (handle : W → W) where
  -- `con_recv`: the code, the connection and the world; `none` is a call that has not returned
  pub con_recv : List Transfer → Con → W → Option (Code × Con × W)
  con_recv [] conn w = none
  con_recv (moved ∷ _) conn w = some (cl_ok, conn, handle w)
  con_recv (zero_bytes ∷ _) conn w = some (cl_close, conn, w)
  con_recv (failure errno ∷ answers) conn w =
      on_errno errno (con_recv answers conn w) (cl_ok, conn, w)
        (λ e. (cl_error, record conn { err = e }, w))

  -- `clive_timer_update_handle`: the handler with its data, in place of the old one
  pub clive_timer_update_handle : (W → W) → ℤ × (W → W)
  clive_timer_update_handle new = (pos 0, new)

-- `con_send`. A write of no bytes leaves `errno`, the first argument, as it was, and the code goes
-- on by that.
pub con_send : Errno → List Transfer → Con → Option (Code × Con)
con_send errno [] conn = none
con_send errno (moved ∷ _) conn = some (cl_ok, conn)
con_send errno (zero_bytes ∷ answers) conn =
    on_errno errno (con_send errno answers conn) (cl_ok, conn)
      (λ e. (cl_error, record conn { err = e }))
con_send errno (failure e ∷ answers) conn =
    on_errno e (con_send e answers conn) (cl_ok, conn) (λ n. (cl_error, record conn { err = n }))
