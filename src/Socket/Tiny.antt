-- ===== src/Socket/Tiny.antt =====
-- A system that gives one descriptor after the other until a limit, for the tests.
use cliveserver.Base.{
  ℕ, suc, ◌*◌, ◌≡◌, refl, sym, ap, ◌∙◌, Bool, true, false, Option, none, some, [], ltb, ◌==◌,
  if◌then◌else◌, arith,
}
use cliveserver.Base.Int.{ℤ, pos, negsuc, is_neg, pos_part}
use cliveserver.Socket.{
  Kind, Call, Opt, SocketState, effect, Allowed, Becomes, SameSockets, IsFresh, Sockets, no_address,
}

pub record Table : Type 0 where
  pub next : ℕ
  pub limit : ℕ
  pub sockets : ℕ → Option SocketState

abbrev pub with_socket : Table → ℕ → SocketState → Table
with_socket k fd st = record k { sockets = λ s. if s == fd then some st else k.sockets s }

abbrev pub blank : Kind → SocketState
blank kind = record {
  kind = kind;
  flags = 2;
  reuseaddr = pos 0;
  nodelay = pos 0;
  sndbuf = pos 212992;
  rcvbuf = pos 212992;
  linger = none;
  bound = none;
  peer = none;
  backlog = none;
}

abbrev pub open_next : Table → Kind → Bool → Option SocketState → ℤ × Table
open_next k kind true none =
    (pos k.next, record (with_socket k k.next (blank kind)) { next = suc k.next })
open_next k kind _ _ = (negsuc 0, k)

abbrev pub doubled : Opt → ℤ → ℤ
doubled o (pos n) = pos (n * 2)
doubled o (negsuc n) = negsuc n

abbrev pub read_flags : Option SocketState → ℤ
read_flags none = negsuc 0
read_flags (some st) = pos st.flags

abbrev pub change : Table → ℕ → Call → Option SocketState → ℤ × Table
change k fd c none = (negsuc 0, k)
change k fd c (some st) = (pos 0, with_socket k fd (effect doubled c st))

abbrev pub getfl_of : Table → ℤ → ℤ
getfl_of k (pos fd) = read_flags (k.sockets fd)
getfl_of k (negsuc n) = negsuc 0

abbrev pub perform_on : Table → ℤ → Call → ℤ × Table
perform_on k (pos fd) c = change k fd c (k.sockets fd)
perform_on k (negsuc n) c = (negsuc 0, k)

pub open_next-done :
    (k : Table) (kind : Kind) (b : Bool) (st : Option SocketState) (fd : ℕ)
    → k.sockets k.next ≡ st
    → (open_next k kind b st).0 ≡ pos fd
    → (k.sockets fd ≡ none)
      × Becomes (λ (t : Table). t.sockets) k fd (blank kind) (open_next k kind b st)
open_next-done k kind true none fd e h =
    let same : k.next ≡ fd = ap pos_part h in
    (
      ap k.sockets (sym same) ∙ e,
      λ s. ap (λ n. if s == n then some (blank kind) else k.sockets s) same,
    )
open_next-done k kind true (some st) fd e h = cc
open_next-done k kind false none fd e h = cc
open_next-done k kind false (some st) fd e h = cc

pub open_next-failed :
    (k : Table) (kind : Kind) (b : Bool) (st : Option SocketState)
    → is_neg (open_next k kind b st).0 ≡ true
    → SameSockets (λ (t : Table). t.sockets) k (open_next k kind b st).1
open_next-failed k kind true none h = cc
open_next-failed k kind true (some st) h = λ s. refl
open_next-failed k kind false none h = λ s. refl
open_next-failed k kind false (some st) h = λ s. refl

pub blank-IsFresh : (kind : Kind) → IsFresh kind (blank kind)
blank-IsFresh kind = record {
  of_kind = refl;
  blocking = refl;
  in_int = omega arith;
  unbound = refl;
  alone = refl;
  deaf = refl;
  lingers = refl;
}

abbrev pub tiny_sockets : Sockets
tiny_sockets = record {
  Kernel = Table;
  state = λ k. k.sockets;
  kept = doubled;
  fresh = λ k kind. blank kind;
  inet_addr = λ text. 16777343;
  htons = λ n. n;
  socket = λ k kind. open_next k kind (ltb k.next k.limit) (k.sockets k.next);
  close = λ k fd. (pos 0, k);
  getfl = getfl_of;
  perform = perform_on;
  accept = λ k fd. (negsuc 0, no_address, k);
  sendto = λ k fd buf a. (negsuc 0, k);
  recvfrom = λ k fd size. (negsuc 0, [], no_address, k);
  fresh_done = λ k kind. blank-IsFresh kind;
  socket_done = λ k kind fd. open_next-done k kind (ltb k.next k.limit) (k.sockets k.next) fd refl;
  socket_failed = λ k kind. open_next-failed k kind (ltb k.next k.limit) (k.sockets k.next);
  getfl_done = λ k fd st e. rw e refl;
  getfl_failed = λ k n. refl;
  perform_done = λ k fd c st e allowed. rw e (λ s. refl);
  perform_failed = λ k n c. refl;
}

pub tiny-obliging :
    (k : Table) (fd : ℕ) (c : Call) (st : SocketState)
    → k.sockets fd ≡ some st
    → Allowed c st
    → is_neg (perform_on k (pos fd) c).0 ≡ false
tiny-obliging k fd c st e allowed = rw e refl
