-- ===== src/Core.antt =====
-- common/core.c: the callback that the event loop runs for one connection with its events.
pub mod Dispatch
mod Tests
use cliveserver.Base.{
  ℕ, zero, ◌≡◌, Bool, true, false, not, ◌&&◌, ◌||◌, List, [], ◌∷◌, ◌++◌, bit_and, ◌==◌,
  if◌then◌else◌,
}
use cliveserver.Base.Int.{ℤ}
use cliveserver.Event.{
  Con, Epoll, Run, ◌>>=◌, returned, event_del_conn, event_read, event_write, event_err,
}
use cliveserver.Event.Wait.{has_bits}

-- the codes of util.h
pub data Code : Type 0 where
  cl_ok cl_error cl_eagain cl_enomem cl_close : Code

abbrev pub is_ok : Code → Bool
is_ok cl_ok = true
is_ok _ = false

-- what the dispatcher does to a connection, in order
pub data Action : Type 0 where
  recv_called send_called deleted closed : Action

-- The handlers of a connection, given by whoever made it. The world `W` is all else that they
-- change.
pub record Handlers (W : Type 0) : Type 0 where
  pub recv : Con → W → Code × Con × W
  pub send : Con → W → Code × Con × W
  pub close : Con → W → W

module _ (epoll : Epoll) {W : Type 0} (handlers : Handlers W) where
  open epoll use {Kernel}

  -- the code, the actions, and the kernel and world after them
  abbrev pub Dispatched : Type 0
  Dispatched = Run (Code × List Action × Kernel × W)

  -- The connection goes away with its close handler. The status of the deletion is only logged.
  pub clive_core_close : Con → List Action → Kernel → W → Dispatched
  clive_core_close conn done k w = event_del_conn epoll k conn >>= λ (_, conn', k').
      returned (cl_error, done ++ (deleted ∷ closed ∷ []), k', handlers.close conn' w)

  unfoldable pub keeps : Code → Con → Bool
  keeps status conn = is_ok status && (not conn.done && (conn.err == 0))

  -- the write half: the code behind the test of EVENT_READ
  pub core_write : Con → ℕ → List Action → Kernel → W → Dispatched
  core_write conn events done k w =
      if has_bits events event_write
      then (let (status, conn', w') = handlers.send conn w in
          let done' = done ++ (send_called ∷ []) in
          if keeps status conn'
          then returned (cl_ok, done', k, w')
          else clive_core_close conn' done' k w')
      else returned (cl_ok, done, k, w)

  -- the read half
  pub core_read : Con → ℕ → Kernel → W → Dispatched
  core_read conn events k w =
      if has_bits events event_read
      then (let (status, conn', w') = handlers.recv conn w in
          if keeps status conn'
          then core_write conn' events (recv_called ∷ []) k w'
          else clive_core_close conn' (recv_called ∷ []) k w')
      else core_write conn events [] k w

  pub clive_core_core : Con → ℕ → Kernel → W → Dispatched
  clive_core_core conn events k w =
      let conn' = record conn { events = events } in
      if has_bits events event_err
      then clive_core_close conn' [] k w
      else core_read conn' events k w
