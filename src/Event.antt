-- ===== src/Event.antt =====
-- common/epoll.c and event.h: the event loop's registrations and its wait. epoll itself is not
-- part of the repository: it is the parameter `Epoll`, with the documented effect of `epoll_ctl`.
pub mod Flags
pub mod Wait
pub mod Tiny
pub mod Create
pub mod Released
pub mod TinyFiles
mod Tests
pub use cliveserver.Run.{Run, aborted, returned, ◌>>=◌, assert}
use cliveserver.Base.{
  ℕ, zero, suc, ◌≡◌, Bool, true, false, not, ◌&&◌, ◌||◌, Option, none, some, List, [], ◌∷◌, ltb,
  ◌==◌, if◌then◌else◌, length,
}
use cliveserver.Base.Int.{ℤ, pos, negsuc, is_neg, ltb_ℤ}
use Prim.Native.Nat.{bit_or}

-- the fields of `struct con` that the event loop and the dispatcher read or write
pub record Con : Type 0 where
  pub skt : ℕ
  pub recv_active : Bool
  pub send_active : Bool
  pub events : ℕ
  pub done : Bool
  pub err : ℕ

-- a connection in zeroed memory, with its descriptor
abbrev pub new_connection : ℕ → Con
new_connection skt = record {
  skt = skt;
  recv_active = false;
  send_active = false;
  events = 0;
  done = false;
  err = 0;
}

-- `EPOLLIN`, and `EPOLLIN | EPOLLOUT`
pub data Interest : Type 0 where
  input : Interest
  both : Interest

pub data Ctl : Type 0 where
  ctl_add : Interest → Ctl
  ctl_mod : Interest → Ctl
  ctl_del : Ctl

-- what a successful call leaves registered for its descriptor
abbrev pub registered : Ctl → Option Interest
registered (ctl_add i) = some i
registered (ctl_mod i) = some i
registered ctl_del = none

-- The event base's descriptor, `evb->ep`, and epoll behind it: its state, `epoll_ctl` on a descriptor,
-- and the interest that it has registered.
pub record Epoll : Type 1 where
  pub ep : ℕ
  pub Kernel : Type 0
  pub ctl : Kernel → ℕ → Ctl → ℤ × Kernel
  pub interest : Kernel → ℕ → Option Interest
  -- a call that succeeds changes the entry of its descriptor, and no other
  pub ctl_done :
      (k : Kernel) (skt : ℕ) (c : Ctl) (s : ℕ)
      → is_neg (ctl k skt c).0 ≡ false
      → interest (ctl k skt c).1 s ≡ (if s == skt then registered c else interest k s)
  -- one that fails changes nothing
  pub ctl_failed :
      (k : Kernel) (skt : ℕ) (c : Ctl) (s : ℕ)
      → is_neg (ctl k skt c).0 ≡ true
      → interest (ctl k skt c).1 s ≡ interest k s

module _ (epoll : Epoll) where
  open epoll use {ep, Kernel, ctl}

  -- status, connection and kernel state after a call
  abbrev pub Answer : Type 0
  Answer = Run (ℤ × Con × Kernel)

  pub event_add_in : Kernel → Con → Answer
  event_add_in k c = assert (ltb 0 ep) (
      assert (ltb 0 c.skt) (
        if c.recv_active
        then returned (pos 0, c, k)
        else let (status, k') = ctl k c.skt (ctl_mod input) in
          returned (status, (if is_neg status then c else record c { recv_active = true }), k')))

  -- a stub in the source
  pub event_del_in : Kernel → Con → Answer
  event_del_in k c = returned (pos 0, c, k)

  pub event_add_out : Kernel → Con → Answer
  event_add_out k c = assert (ltb 0 ep) (
      assert (ltb 0 c.skt) (
        assert c.recv_active (
          if c.send_active
          then returned (pos 0, c, k)
          else let (status, k') = ctl k c.skt (ctl_mod both) in
            returned (status, (if is_neg status then c else record c { send_active = true }), k'))))

  unfoldable pub event_del_out : Kernel → Con → Answer
  event_del_out k c = assert (ltb 0 ep) (
      assert (ltb 0 c.skt) (
        assert c.recv_active (
          if not c.send_active
          then returned (pos 0, c, k)
          else let (status, k') = ctl k c.skt (ctl_mod input) in
            returned
              (status, (if is_neg status then c else record c { send_active = false }), k'))))

  unfoldable pub event_add_conn : Kernel → Con → Answer
  event_add_conn k c = assert (ltb 0 ep) (
      assert (ltb 0 c.skt) (
        let (status, k') = ctl k c.skt (ctl_add both) in
        returned (
          status,
          (if is_neg status then c else record c { send_active = true; recv_active = true }),
          k',
        )))

  unfoldable pub event_del_conn : Kernel → Con → Answer
  event_del_conn k c = assert (ltb 0 ep) (
      assert (ltb 0 c.skt) (
        let (status, k') = ctl k c.skt ctl_del in
        returned (
          status,
          (if is_neg status then c else record c { recv_active = false; send_active = false }),
          k',
        )))

-- `struct epoll_event`: the bits that `event_wait` tests
pub record Ready : Type 0 where
  pub readable : Bool
  pub hung_up : Bool
  pub writable : Bool
  pub failed : Bool

abbrev pub event_read : ℕ
event_read = 0x0000ff

abbrev pub event_write : ℕ
event_write = 0x00ff00

abbrev pub event_err : ℕ
event_err = 0xff0000

-- the `events` word that the callback is given
pub event_word : Ready → ℕ
event_word ev =
    let a : ℕ = if ev.failed then bit_or 0 event_err else 0 in
    let b : ℕ = if ev.readable || ev.hung_up then bit_or a event_read else a in
    if ev.writable then bit_or b event_write else b

-- one return of `epoll_wait`
pub data Polled (Conn : Type 0) : Type 0 where
  triggered : Conn × Ready → List (Conn × Ready) → Polled Conn
  no_events : Polled Conn
  interrupted : Polled Conn
  poll_failed : Polled Conn

module _ {Conn S : Type 0} (cb : S → Conn → ℕ → S) where
  -- the callbacks of one batch, in the order of the array
  pub dispatch : S → List (Conn × Ready) → S
  dispatch s [] = s
  dispatch s ((conn, ev) ∷ evs) = dispatch (cb s conn (event_word ev)) evs

  -- the loop of `event_wait` over what `epoll_wait` returns, call after call; `none` is a wait that
  -- has not ended with these returns. `forever` is `timeout == -1`.
  unfoldable pub wait_loop : Bool → S → List (Polled Conn) → Option (ℤ × S)
  wait_loop forever s [] = none
  wait_loop forever s (triggered ev evs ∷ _) = some (pos (length (ev ∷ evs)), dispatch s (ev ∷ evs))
  wait_loop forever s (no_events ∷ _) = some ((if forever then negsuc 0 else pos 0), s)
  wait_loop forever s (interrupted ∷ polls) = wait_loop forever s polls
  wait_loop forever s (poll_failed ∷ _) = some (negsuc 0, s)

  -- behind the assertions on the event base's descriptor, its array, which may be NULL, and the count
  pub event_wait : ℕ → Option ℕ → ℤ → Bool → S → List (Polled Conn) → Run (Option (ℤ × S))
  unfolding wait_loop
  event_wait ep event nevent forever s polls = assert (ltb 0 ep) (
      assert (elim event [ none ↦ false | some _ ↦ true ])
        (assert (ltb_ℤ (pos 0) nevent) (returned (wait_loop forever s polls))))
