-- ===== src/Errno.antt =====
-- The branches on `errno` that the read and write handlers of timer.c, channel.c and http.c share.
use cliveserver.Base.{ℕ, Option, some}

-- what `errno` says of a transfer that failed
pub data Errno : Type 0 where
  eintr : Errno
  eagain : Errno
  other_error : ℕ → Errno

-- the branches on `errno`, with what trying again would return
abbrev pub on_errno {ℓ} : {A : Type ℓ} → Errno → Option A → A → (ℕ → A) → Option A
on_errno eintr again wait fail = again
on_errno eagain again wait fail = some wait
on_errno (other_error errno) again wait fail = some (fail errno)
