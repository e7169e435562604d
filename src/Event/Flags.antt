-- ===== src/Event/Flags.antt =====
-- The `recv_active` and `send_active` flags of a connection against what epoll has registered.
use cliveserver.Base.{
  ℕ, ◌<◌, ◌≡◌, refl, ◌∙◌, ◌↔◌, inl, inr, Bool, true, false, Option, none, some, arith, ltb, lt→ltb,
  ◌==◌, if◌then◌else◌, Bool-cases, ==_self,
}
use mathlib.Core.Bool.{false≢true}
use cliveserver.Base.Int.{ℤ, pos, is_neg}
use cliveserver.Event.{
  Con, Interest, input, both, Ctl, ctl_add, ctl_mod, ctl_del, registered, Epoll, aborted, returned,
  ◌>>=◌, Answer, event_add_in, event_del_in, event_add_out, event_del_out, event_add_conn,
  event_del_conn,
}

-- the interest that a connection's two flags stand for
abbrev pub flagged : Con → Option Interest
flagged c = if c.recv_active then (if c.send_active then some both else some input) else none

-- A connection that sends also receives, and epoll has registered what its flags say.
pub record Agrees (epoll : Epoll) (k : epoll.Kernel) (c : Con) : Type 0 where
  pub sends_receives : c.send_active ≡ true → c.recv_active ≡ true
  pub known : epoll.interest k c.skt ≡ flagged c

-- what a call may do to the other connections: nothing
abbrev pub SameElsewhere : (epoll : Epoll) → epoll.Kernel → epoll.Kernel → ℕ → Type 0
SameElsewhere epoll k k' skt =
    (s : ℕ) → (s == skt) ≡ false → epoll.interest k' s ≡ epoll.interest k s

-- What holds of a call's answer, whatever `epoll_ctl` returned: it did not abort, the flags still
-- agree, and no other connection is touched.
pub data Kept (epoll : Epoll) (k : epoll.Kernel) (c : Con) : Answer epoll → Type 0 where
  kept :
      {status : ℤ} {c' : Con} {k' : epoll.Kernel}
      → Agrees epoll k' c'
      → c'.skt ≡ c.skt
      → SameElsewhere epoll k k' c.skt
      → Kept epoll k c (returned (status, c', k'))

module _ (epoll : Epoll) {k : epoll.Kernel} {c : Con} (v : Agrees epoll k c) where
  -- no call of `epoll_ctl`
  unchanged : (status : ℤ) → Kept epoll k c (returned (status, c, k))
  unchanged status = kept v refl (λ s other. refl)

  -- One call of `epoll_ctl`, and the flags set only if it succeeds.
  after_ctl :
      (op : Ctl) (c' : Con)
      → c'.skt ≡ c.skt
      → (c'.send_active ≡ true → c'.recv_active ≡ true)
      → registered op ≡ flagged c'
      → Kept epoll k c (
          returned (
            (epoll.ctl k c.skt op).0,
            (if is_neg (epoll.ctl k c.skt op).0 then c else c'),
            (epoll.ctl k c.skt op).1,
          ))
  after_ctl op c' same sends reg = elim (Bool-cases (is_neg (epoll.ctl k c.skt op).0)) [
    | inl bad ↦ rw bad (
        kept
          (record {
            sends_receives = v.sends_receives;
            known = epoll.ctl_failed k c.skt op c.skt bad ∙ v.known;
          })
          refl (λ s other. epoll.ctl_failed k c.skt op s bad))
    | inr good ↦ rw good (
        kept
          (record {
            sends_receives = sends;
            known = rw same (epoll.ctl_done k c.skt op c.skt good ∙ rw (==_self c.skt) reg);
          })
          same (λ s other. epoll.ctl_done k c.skt op s good ∙ rw other refl))
  ]

  module _ (open_ep : 0 < epoll.ep) (open_skt : 0 < c.skt) where
    ep_ok : ltb 0 epoll.ep ≡ true
    ep_ok = lt→ltb 0 epoll.ep open_ep

    skt_ok : ltb 0 c.skt ≡ true
    skt_ok = ground arith

    event_add_in-Kept : Kept epoll k c (event_add_in epoll k c)
    unfolding event_add_in
    event_add_in-Kept =
        rw (ep_ok, skt_ok)
          (elim (Bool-cases c.recv_active) [
            | inl e ↦ simp e (unchanged (pos 0))
            | inr e ↦ simp e (
                after_ctl (ctl_mod input) (record c { recv_active = true }) refl (λ _. refl)
                  (ground (arith, v.sends_receives)))
          ])

    event_del_in-Kept : Kept epoll k c (event_del_in epoll k c)
    unfolding event_del_in
    event_del_in-Kept = unchanged (pos 0)

    event_add_out-Kept : c.recv_active ≡ true → Kept epoll k c (event_add_out epoll k c)
    unfolding event_add_out
    event_add_out-Kept on =
        rw (ep_ok, skt_ok)
          (simp on (elim (Bool-cases c.send_active) [
            | inl e ↦ simp e (unchanged (pos 0))
            | inr e ↦ simp e (
                after_ctl (ctl_mod both) (record c { recv_active = true; send_active = true }) refl
                  (λ _. refl) refl)
          ]))

    event_del_out-Kept : c.recv_active ≡ true → Kept epoll k c (event_del_out epoll k c)
    unfolding event_del_out
    event_del_out-Kept on =
        rw (ep_ok, skt_ok)
          (simp on (elim (Bool-cases c.send_active) [
            | inl e ↦ simp e (
                after_ctl (ctl_mod input) (record c { recv_active = true; send_active = false })
                  refl (λ _. refl) refl)
            | inr e ↦ simp e (unchanged (pos 0))
          ]))

    event_add_conn-Kept : Kept epoll k c (event_add_conn epoll k c)
    unfolding event_add_conn
    event_add_conn-Kept =
        rw (ep_ok, skt_ok)
          (after_ctl (ctl_add both) (record c { send_active = true; recv_active = true }) refl
            (λ _. refl) refl)

    event_del_conn-Kept : Kept epoll k c (event_del_conn epoll k c)
    unfolding event_del_conn
    event_del_conn-Kept =
        rw (ep_ok, skt_ok)
          (after_ctl ctl_del (record c { recv_active = false; send_active = false }) refl
            (λ h. absurd (false≢true h)) refl)

-- the calls of the event interface on one connection
pub data Call : Type 0 where
  add_in del_in add_out del_out add_conn del_conn : Call

abbrev pub call : (epoll : Epoll) → Call → epoll.Kernel → Con → Answer epoll
call epoll add_in = event_add_in epoll
call epoll del_in = event_del_in epoll
call epoll add_out = event_add_out epoll
call epoll del_out = event_del_out epoll
call epoll add_conn = event_add_conn epoll
call epoll del_conn = event_del_conn epoll

-- the calls that assert `recv_active`
abbrev pub asserts_recv : Call → Bool
asserts_recv add_out = true
asserts_recv del_out = true
asserts_recv _ = false

-- On an event base whose descriptor is not 0 and a connection whose flags agree with epoll, with an open
-- descriptor, every call of the event interface returns (the two that assert `recv_active` if that flag
-- is set), and whatever `epoll_ctl` answers, the flags agree with epoll afterwards, the descriptor is the
-- same, and no other descriptor's registration has changed.
pub call-Kept :
    (epoll : Epoll) (f : Call) {k : epoll.Kernel} {c : Con}
    → Agrees epoll k c
    → 0 < epoll.ep
    → 0 < c.skt
    → (asserts_recv f ≡ true → c.recv_active ≡ true)
    → Kept epoll k c (call epoll f k c)
call-Kept epoll add_in v o p on = event_add_in-Kept epoll v o p
call-Kept epoll del_in v o p on = event_del_in-Kept epoll v o p
call-Kept epoll add_out v o p on = event_add_out-Kept epoll v o p (on refl)
call-Kept epoll del_out v o p on = event_del_out-Kept epoll v o p (on refl)
call-Kept epoll add_conn v o p on = event_add_conn-Kept epoll v o p
call-Kept epoll del_conn v o p on = event_del_conn-Kept epoll v o p

-- `event_add_conn` and then `event_del_out`, its status unread: how the listeners register a
-- client that they have accepted.
pub register_client : (epoll : Epoll) → epoll.Kernel → Con → Answer epoll
register_client epoll k c = event_add_conn epoll k c >>= λ r. event_del_out epoll r.2 r.1

-- On an event base whose descriptor is not 0, the registration of a client aborts the process exactly
-- when epoll refuses to add it, for a fresh connection (both flags clear) with an open descriptor.
pub register_client-aborts :
    (epoll : Epoll) (k : epoll.Kernel) (c : Con)
    → 0 < epoll.ep
    → 0 < c.skt
    → c.recv_active ≡ false
    → (register_client epoll k c ≡ aborted) ↔ (is_neg (epoll.ctl k c.skt (ctl_add both)).0 ≡ true)
unfolding register_client event_add_conn event_del_out
register_client-aborts epoll k c open_ep open_skt off = (ground arith, ground arith)
