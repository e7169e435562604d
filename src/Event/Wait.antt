-- ===== src/Event/Wait.antt =====
-- `event_wait`: retries, batches and the words that the callback is given.
use cliveserver.Base.{
  ℕ, zero, suc, ◌≡◌, refl, Bool, true, false, ◌||◌, some, List, ◌∷◌, ◌++◌, replicate, arith, length,
  bit_and, ◌==◌, if◌then◌else◌,
}
use cliveserver.Base.Int.{pos, negsuc}
use cliveserver.Base.{ap, ltb, lt→ltb, ◌+◌, ◌<◌}
use cliveserver.Run.{returned}
use cliveserver.Event.{
  wait_loop, Ready, event_read, event_write, event_err, event_word, Polled, triggered, no_events,
  interrupted, poll_failed, dispatch, event_wait,
}

-- `events & mask`, as a test
unfoldable pub has_bits : ℕ → ℕ → Bool
has_bits events mask = if bit_and events mask == 0 then false else true

-- The word handed to the callback has the error bits exactly when EPOLLERR is set, the read bits
-- exactly when EPOLLIN or EPOLLHUP is, and the write bits exactly when EPOLLOUT is.
pub event_word_bits :
    (ev : Ready)
    → (has_bits (event_word ev) event_err ≡ ev.failed)
      × (has_bits (event_word ev) event_read ≡ (ev.readable || ev.hung_up))
      × (has_bits (event_word ev) event_write ≡ ev.writable)
unfolding event_word has_bits
event_word_bits ev = ground arith

module _ {Conn S : Type 0} (cb : S → Conn → ℕ → S) where
  wait_loop-interrupted :
      (forever : Bool) (s : S) (n : ℕ) (later : List (Polled Conn))
      → ((ev : Conn × Ready) (evs : List (Conn × Ready))
          → wait_loop cb forever s (replicate n interrupted ++ triggered ev evs ∷ later)
            ≡ some (pos (length (ev ∷ evs)), dispatch cb s (ev ∷ evs)))
        × (wait_loop cb forever s (replicate n interrupted ++ no_events ∷ later)
            ≡ some ((if forever then negsuc 0 else pos 0), s))
        × (wait_loop cb forever s (replicate n interrupted ++ poll_failed ∷ later)
            ≡ some (negsuc 0, s))
  unfolding wait_loop
  wait_loop-interrupted forever s zero later = (λ ev evs. refl, refl, refl)
  wait_loop-interrupted forever s (suc n) later = wait_loop-interrupted forever s n later

  -- Over an event base with a descriptor that is not 0, an array and a count that is not 0: after any
  -- number of interrupted waits, the first return that is not EINTR decides, and what `epoll_wait` would
  -- return later is not asked for: a batch is dispatched in the order of the array, each event once, and
  -- its size is returned; no events give 0 within a time limit, and -1 without one; a failure gives -1.
  -- In the last two the state is unchanged.
  pub event_wait-interrupted :
      (ep event nevent : ℕ) (forever : Bool) (s : S) (n : ℕ) (later : List (Polled Conn))
      → 0 < ep
      → 0 < nevent
      → let wait = event_wait cb ep (some event) (pos nevent) forever s in
        ((ev : Conn × Ready) (evs : List (Conn × Ready))
          → wait (replicate n interrupted ++ triggered ev evs ∷ later)
            ≡ returned (some (pos (length (ev ∷ evs)), dispatch cb s (ev ∷ evs))))
        × (wait (replicate n interrupted ++ no_events ∷ later)
            ≡ returned (some ((if forever then negsuc 0 else pos 0), s)))
        × (wait (replicate n interrupted ++ poll_failed ∷ later) ≡ returned (some (negsuc 0, s)))
  unfolding event_wait
  event_wait-interrupted ep event nevent forever s n later open_ep some_events =
      let (batch, idle, failed) = wait_loop-interrupted forever s n later in
      let one : ltb 0 ep ≡ true = lt→ltb 0 ep open_ep in
      let two : ltb (0 + 0) (nevent + 0) ≡ true = lt→ltb (0 + 0) (nevent + 0) (omega arith) in
      (
        λ ev evs. rw (one, two) (ap returned (batch ev evs)),
        rw (one, two) (ap returned idle),
        rw (one, two) (ap returned failed),
      )
