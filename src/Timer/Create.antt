-- ===== src/Timer/Create.antt =====
-- `clive_timer_new`: what epoll knows of a new timer.
use cliveserver.Base.{
  ℕ, ◌<◌, ◌≡◌, refl, ◌∙◌, inl, inr, Bool, true, false, Option, some, lt→ltb, Bool-cases, ==_self,
}
use cliveserver.Base.Int.{is_neg}
use cliveserver.Event.{
  Con, new_connection, Epoll, Run, returned, input, both, ctl_add, ctl_mod, event_add_conn,
  event_del_out,
}
use cliveserver.Event.Flags.{Agrees, SameElsewhere}
use cliveserver.Timer.{Timespec, deadline, clive_timer_new}

-- a new connection that is active for input, and perhaps for output
abbrev active : ℕ → Bool → Con
active skt sends = record (new_connection skt) { recv_active = true; send_active = sends }

-- What a call that made a timer left behind: the new connection is active for input, and for output
-- only if epoll refused the change to input only that follows its registration for both.
pub data Registered (epoll : Epoll) (k : epoll.Kernel) (skt : ℕ)
    : Run (Option Con × epoll.Kernel) → Type 0 where
  registered :
      {sends : Bool} {k' : epoll.Kernel}
      → sends ≡ is_neg (epoll.ctl (epoll.ctl k skt (ctl_add both)).1 skt (ctl_mod input)).0
      → Agrees epoll k' (active skt sends)
      → SameElsewhere epoll k k' skt
      → Registered epoll k skt (returned (some (active skt sends), k'))

-- On an event base whose descriptor is not 0, with an open descriptor, a clock that can be read and a
-- time that can be set, a timer is made whenever epoll accepts its descriptor: its descriptor is in the
-- connection, which is active for input, and for output exactly if epoll refuses the change to input
-- only; epoll has registered what these flags say, and no other descriptor's registration has changed.
pub clive_timer_new-Registered :
    (epoll : Epoll) (k : epoll.Kernel) (skt : ℕ) (now : Timespec) (settime : Timespec → Bool)
    (msecs : ℕ)
    → 0 < epoll.ep
    → 0 < skt
    → settime (deadline now msecs) ≡ true
    → is_neg (epoll.ctl k skt (ctl_add both)).0 ≡ false
    → Registered epoll k skt (clive_timer_new epoll k skt (some now) settime msecs)
unfolding clive_timer_new event_add_conn event_del_out
clive_timer_new-Registered epoll k skt now settime msecs open_ep open_skt set added =
    let ep_ok = lt→ltb 0 epoll.ep open_ep in
    let skt_ok = lt→ltb 0 skt open_skt in
    let k' = (epoll.ctl k skt (ctl_add both)).1 in
    let known : epoll.interest k' skt ≡ some both =
      epoll.ctl_done k skt (ctl_add both) skt added ∙ rw (==_self skt) refl in
    let elsewhere : SameElsewhere epoll k k' skt =
      λ s other. epoll.ctl_done k skt (ctl_add both) s added ∙ rw other refl in
    rw (ep_ok, set, skt_ok, added, skt_ok)
      (elim (Bool-cases (is_neg (epoll.ctl k' skt (ctl_mod input)).0)) [
        | inl bad ↦ rw bad (
            registered {sends = true} (rw bad refl)
              (record {
                sends_receives = λ _. refl;
                known = epoll.ctl_failed k' skt (ctl_mod input) skt bad ∙ known;
              })
              (λ s other. epoll.ctl_failed k' skt (ctl_mod input) s bad ∙ elsewhere s other))
        | inr good ↦ rw good (
            registered {sends = false} (rw good refl)
              (record {
                sends_receives = λ _. refl;
                known = epoll.ctl_done k' skt (ctl_mod input) skt good ∙ rw (==_self skt) refl;
              })
              (λ s other.
                epoll.ctl_done k' skt (ctl_mod input) s good ∙ rw other (elsewhere s other)))
      ])
