-- ===== src/Timer/Handlers.antt =====
-- The read handler of a timer: retries, and when the timer's own handler runs.
use cliveserver.Base.{ℕ, zero, suc, ◌≡◌, refl, some, List, ◌∷◌, ◌++◌, replicate}
use cliveserver.Core.{cl_ok, cl_error, cl_close}
use cliveserver.Errno.{Errno, eintr, eagain, other_error}
use cliveserver.Event.{Con}
use cliveserver.Timer.{Transfer, moved, zero_bytes, failure, con_recv, con_send}

-- However often the read is interrupted, the first other answer decides, and the timer's handler
-- runs once if that answer is an expiration and not at all otherwise: an end of file closes, an
-- answer of EAGAIN waits for the next event, and an error is kept in the connection.
pub con_recv-interrupted :
    {W : Type 0} (handle : W → W) (n : ℕ) (later : List Transfer) (conn : Con) (w : W)
    → let answered =
        λ (a : Transfer). con_recv handle (replicate n (failure eintr) ++ a ∷ later) conn w in
      (answered moved ≡ some (cl_ok, conn, handle w))
      × (answered zero_bytes ≡ some (cl_close, conn, w))
      × (answered (failure eagain) ≡ some (cl_ok, conn, w))
      × ((errno : ℕ)
          → answered (failure (other_error errno))
            ≡ some (cl_error, record conn { err = errno }, w))
unfolding con_recv
con_recv-interrupted handle zero later conn w = (refl, refl, refl, λ errno. refl)
con_recv-interrupted handle (suc n) later conn w = con_recv-interrupted handle n later conn w

-- A write is retried only while it is interrupted, and it fails the connection with the error only
-- where `errno` is neither EINTR nor EAGAIN.
pub con_send-interrupted :
    (errno : Errno) (n : ℕ) (later : List Transfer) (conn : Con)
    → let answered =
        λ (a : Transfer). con_send errno (replicate n (failure eintr) ++ a ∷ later) conn in
      (answered moved ≡ some (cl_ok, conn))
      × (answered (failure eagain) ≡ some (cl_ok, conn))
      × ((e : ℕ) → answered (failure (other_error e)) ≡ some (cl_error, record conn { err = e }))
unfolding con_send
con_send-interrupted errno zero later conn = (refl, refl, λ e. refl)
con_send-interrupted errno (suc n) later conn = con_send-interrupted eintr n later conn
