-- ===== src/Core/Dispatch.antt =====
-- What the dispatcher calls, and when it closes a connection.
use cliveserver.Base.{
  ◌<◌, ◌≡◌, refl, inl, inr, Option, none, some, Bool, not, ◌&&◌, ◌||◌, List, [], ◌∷◌, ◌++◌,
  append-nil, append_assoc, ap, ◌∙◌, arith, if◌then◌else◌, Bool-cases, lt→ltb,
}
use cliveserver.Event.{Con, Ready, event_word, Epoll, Run, aborted, returned, event_del_conn}
use cliveserver.Event.Wait.{event_word_bits}
use cliveserver.Core.{
  Code, cl_ok, cl_error, Action, recv_called, send_called, deleted, closed, Handlers,
  clive_core_close, keeps, core_write, core_read, clive_core_core,
}

-- The code and the actions, from the bits that epoll triggered and whether each handler leaves the
-- connection open: the handlers of the triggered halves in order, up to the first that does not,
-- none on an error; then, unless all went well, the deletion and the close handler.
unfoldable pub verdict : Ready → Bool → Bool → Code × List Action
verdict ev recv_keeps send_keeps =
    let reads : Bool = not ev.failed && (ev.readable || ev.hung_up) in
    let goes_on : Bool = not ev.failed && (not reads || recv_keeps) in
    let writes : Bool = goes_on && ev.writable in
    let stays : Bool = goes_on && (not writes || send_keeps) in
    (
      if stays then cl_ok else cl_error,
      (if reads then recv_called ∷ [] else [])
          ++ ((if writes then send_called ∷ [] else [])
              ++ (if stays then [] else deleted ∷ closed ∷ [])),
    )

-- the code and the actions of a dispatch that returned
abbrev pub outcome : {K W : Type 0} → Run (Code × List Action × K × W) → Option (Code × List Action)
outcome aborted = none
outcome (returned (code, actions, _, _)) = some (code, actions)

module _ (epoll : Epoll) {W : Type 0} (handlers : Handlers W) where
  -- the connection and world that the send handler is given
  abbrev pub before_send : Ready → Con → W → Con × W
  before_send ev c w =
      if ev.readable || ev.hung_up then ((handlers.recv c w).1, (handlers.recv c w).2) else (c, w)

  abbrev pub recv_keeps : Con → W → Bool
  recv_keeps c w = keeps epoll handlers (handlers.recv c w).0 (handlers.recv c w).1

  abbrev pub send_keeps : Ready → Con → W → Bool
  send_keeps ev c w =
      let (c', w') = before_send ev c w in
      keeps epoll handlers (handlers.send c' w').0 (handlers.send c' w').1

module _ (epoll : Epoll) {W : Type 0} (handlers : Handlers W) (open_ep : 0 < epoll.ep)
    (recv_skt : (c : Con) (w : W) → (handlers.recv c w).1.skt ≡ c.skt)
    (send_skt : (c : Con) (w : W) → (handlers.send c w).1.skt ≡ c.skt) where
  outcome-close :
      (c : Con) (done : List Action) (k : epoll.Kernel) (w : W)
      → 0 < c.skt
      → outcome (clive_core_close epoll handlers c done k w)
        ≡ some (cl_error, done ++ (deleted ∷ closed ∷ []))
  unfolding clive_core_close event_del_conn
  outcome-close c done k w h = rw (lt→ltb 0 epoll.ep open_ep) (ground arith)

  outcome-core_write :
      (c : Con) (ev : Ready) (done : List Action) (k : epoll.Kernel) (w : W)
      → 0 < c.skt
      → let stays = keeps epoll handlers (handlers.send c w).0 (handlers.send c w).1 in
        outcome (core_write epoll handlers c (event_word ev) done k w)
        ≡ some (
          if not ev.writable || stays then cl_ok else cl_error,
          done
              ++ ((if ev.writable then send_called ∷ [] else [])
                  ++ (if not ev.writable || stays then [] else deleted ∷ closed ∷ [])),
        )
  unfolding core_write
  outcome-core_write c ev done k w h = rw ((event_word_bits ev).2) (elim (Bool-cases ev.writable) [
    | inr off ↦ simp (off, append-nil) refl
    | inl on ↦
        simp on
          (elim (Bool-cases (keeps epoll handlers (handlers.send c w).0 (handlers.send c w).1)) [
            | inl stays ↦ simp stays refl
            | inr ends ↦ simp ends (
                outcome-close (handlers.send c w).1 (done ++ (send_called ∷ [])) k
                  (handlers.send c w).2 (omega (arith, send_skt c w))
                ∙ ap (λ l. some (cl_error, l)) (append_assoc done _ _))
          ])
  ])

  -- On an event base whose descriptor is not 0, and with a connection's descriptor that the handlers
  -- leave alone, the dispatcher returns, and its code and
  -- actions are the verdict on what epoll triggered: no handler runs on an error, the send handler
  -- runs only behind a receive that left the connection open, and a connection is deleted from
  -- epoll and closed, once and last, exactly when the code is CL_ERROR.
  pub clive_core_core-verdict :
      (c : Con) (ev : Ready) (k : epoll.Kernel) (w : W)
      → 0 < c.skt
      → let c' = record c { events = event_word ev } in
        outcome (clive_core_core epoll handlers c (event_word ev) k w)
        ≡ some (verdict ev (recv_keeps epoll handlers c' w) (send_keeps epoll handlers ev c' w))
  unfolding clive_core_core core_read verdict
  clive_core_core-verdict c ev k w h =
      let c' = record c { events = event_word ev } in
      rw ((event_word_bits ev).0) (elim (Bool-cases ev.failed) [
        | inl bad ↦ simp bad (outcome-close c' [] k w h)
        | inr good ↦
            simp (good, (event_word_bits ev).1)
              (elim (Bool-cases (ev.readable || ev.hung_up)) [
                | inr quiet ↦ simp quiet (outcome-core_write c' ev [] k w h)
                | inl reading ↦ simp reading (elim (Bool-cases (recv_keeps epoll handlers c' w)) [
                  | inr ends ↦ simp ends (
                      outcome-close (handlers.recv c' w).1 (recv_called ∷ []) k
                        (handlers.recv c' w).2 (omega (arith, recv_skt c' w)))
                  | inl stays ↦ simp stays (
                      outcome-core_write (handlers.recv c' w).1 ev (recv_called ∷ []) k
                        (handlers.recv c' w).2 (omega (arith, recv_skt c' w)))
                ])
              ])
      ])
