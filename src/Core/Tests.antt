-- ===== src/Core/Tests.antt =====
-- The dispatcher at concrete handlers over a small epoll.
use cliveserver.Base.{◌≡◌, refl, true, false, none, some, [], ◌∷◌, arith}
use cliveserver.Event.{Con, Ready, event_word}
use cliveserver.Event.Tiny.{Entries, tiny}
use cliveserver.Core.{
  cl_ok, cl_error, cl_close, recv_called, deleted, closed, Handlers, keeps, clive_core_core,
}
use cliveserver.Core.Dispatch.{verdict, outcome, recv_keeps, send_keeps, clive_core_core-verdict}

-- a connection whose peer has closed: the receive answers CL_CLOSE
abbrev hang_up : Handlers (Unit {0})
hang_up = record { recv = λ c w. (cl_close, c, w); send = λ c w. (cl_ok, c, w); close = λ c w. w }

abbrev entries : Entries
entries s = none

abbrev client : Con
client = record {
  skt = 7;
  recv_active = true;
  send_active = true;
  events = 0;
  done = false;
  err = 0;
}

abbrev in_and_out : Ready
in_and_out = record { readable = true; hung_up = false; writable = true; failed = false }

clive_core_core-verdict_example :
    outcome (clive_core_core tiny hang_up client (event_word in_and_out) entries tt)
    ≡ some (
        verdict in_and_out
          (recv_keeps tiny hang_up (record client { events = event_word in_and_out }) tt)
          (send_keeps tiny hang_up in_and_out
            (record client { events = event_word in_and_out })
            tt))
clive_core_core-verdict_example =
    clive_core_core-verdict tiny hang_up (omega arith) (λ c w. refl) (λ c w. refl) client in_and_out
      entries tt (omega arith)

closed_at_once :
    verdict in_and_out (keeps tiny hang_up cl_close client) true
    ≡ (cl_error, recv_called ∷ deleted ∷ closed ∷ [])
unfolding verdict keeps
closed_at_once = refl
