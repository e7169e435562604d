-- ===== src/Timer/Deadline.antt =====
-- When a timer fires, in nanoseconds.
use cliveserver.Base.{ℕ, ◌+◌, ◌*◌, ◌%◌, ◌≤◌, ◌<◌, ◌≡◌, ◌↔◌, arith, Bool, some, ltb}
use cliveserver.Base.Int.{negsuc}
use cliveserver.Timer.{Timespec, deadline, clive_timer_update_time}

abbrev pub nanoseconds : Timespec → ℕ
nanoseconds t = t.tv_sec * 1000000000 + t.tv_nsec

-- A timer set for `msecs` milliseconds is due that long after the clock's time exactly when `msecs`
-- is a multiple of 1000: the milliseconds beyond whole seconds are added as nanoseconds.
pub deadline-due :
    (now : Timespec) (msecs : ℕ)
    → (nanoseconds (deadline now msecs) ≡ nanoseconds now + msecs * 1000000) ↔ (msecs % 1000 ≡ 0)
unfolding deadline
deadline-due now msecs = (λ h. omega arith, λ h. omega arith)

-- It is never due later, and it is early by 999999 nanoseconds for each millisecond beyond whole
-- seconds.
pub deadline-early :
    (now : Timespec) (msecs : ℕ)
    → nanoseconds (deadline now msecs) + msecs % 1000 * 999999 ≡ nanoseconds now + msecs * 1000000
unfolding deadline
deadline-early now msecs = omega arith

-- `timerfd_settime` by its manual: a time whose nanoseconds are not below one second is refused
abbrev pub settime : Timespec → Bool
settime t = ltb t.tv_nsec 1000000000

-- Over a `timerfd_settime` that refuses just the times whose nanoseconds are no less than a second,
-- and a clock that keeps below it, an update fails exactly when the clock's nanoseconds and the
-- milliseconds beyond whole seconds reach one second together: the sum is not carried.
pub update_time-fails :
    (now : Timespec) (msecs : ℕ)
    → now.tv_nsec < 1000000000
    → (clive_timer_update_time (some now) settime msecs ≡ negsuc 0)
      ↔ (1000000000 ≤ now.tv_nsec + msecs % 1000)
unfolding clive_timer_update_time deadline
update_time-fails now msecs h = (λ e. ground arith, λ le. ground arith)
