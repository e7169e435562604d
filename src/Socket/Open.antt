-- ===== src/Socket/Open.antt =====
-- A descriptor under one call after the other.
use Prim.Native.Nat.{bit_or}
use cliveserver.Base.{ℕ, ◌≡◌, refl, ◌∙◌, false, none, some, ◌==◌, ==_self}
use cliveserver.Base.Int.{ℤ, pos, is_neg}
use cliveserver.Socket.{
  Kind, Call, SocketState, nonblock, effect, Allowed, Becomes, Sockets, set_flags,
  clive_set_nonblocking,
}
use cliveserver.Socket.Flags.{became, set_nonblock}

module _ (sockets : Sockets) where
  open sockets use {
    Kernel, state, kept, fresh, socket, perform, getfl_done, perform_done, socket_done,
  }

  -- a system on which no call on an open socket fails, if it is one that the library makes
  abbrev pub Obliging : Type 0
  Obliging =
      (k : Kernel) (fd : ℕ) (c : Call) (st : SocketState)
      → state k fd ≡ some st
      → Allowed c st
      → is_neg (perform k (pos fd) c).0 ≡ false

  -- Since `start`, the socket `fd` has come into being and is in the state `st`, and no other has
  -- changed.
  pub record IsOpen (start : Kernel) (fd : ℕ) (st : SocketState) (k : Kernel) : Type 0 where
    pub absent : state start fd ≡ none
    pub held : state k fd ≡ some st
    pub others : (s : ℕ) → (s == fd) ≡ false → state k s ≡ state start s

  pub socket-IsOpen :
      (k : Kernel) (kind : Kind) (fd : ℕ)
      → (socket k kind).0 ≡ pos fd
      → IsOpen k fd (fresh k kind) (socket k kind).1
  socket-IsOpen k kind fd e =
      let (absent, becomes) = socket_done k kind fd e in
      let new = became state k fd (fresh k kind) (socket k kind) becomes (rw e refl) in
      record {
        absent = absent;
        held = new fd ∙ rw (==_self fd) refl;
        others = λ s ne. new s ∙ rw ne refl;
      }

  module _ (start : Kernel) (fd : ℕ) (st : SocketState) (k : Kernel)
      (i : IsOpen start fd st k) where
    changed-IsOpen :
        (st' : SocketState) (r : ℤ × Kernel)
        → Becomes state k fd st' r
        → is_neg r.0 ≡ false
        → IsOpen start fd st' r.1
    changed-IsOpen st' r b ok =
        let new = became state k fd st' r b ok in
        record {
          absent = i.absent;
          held = new fd ∙ rw (==_self fd) refl;
          others = λ s ne. new s ∙ rw ne (i.others s ne);
        }

    pub perform-IsOpen :
        (c : Call)
        → Obliging
        → Allowed c st
        → IsOpen start fd (effect kept c st) (perform k (pos fd) c).1
    perform-IsOpen c ok allowed =
        changed-IsOpen (effect kept c st) (perform k (pos fd) c)
          (perform_done k fd c st i.held allowed) (ok k fd c st i.held allowed)

    pub set_nonblocking-IsOpen :
        Obliging
        → IsOpen start fd
            (record st { flags = bit_or st.flags nonblock })
            (clive_set_nonblocking sockets k (pos fd)).1
    unfolding clive_set_nonblocking
    set_nonblocking-IsOpen ok =
        let allowed : Allowed (set_flags (bit_or st.flags nonblock)) st =
          λ j ne. set_nonblock st.flags j ∙ rw ne refl in
        rw (getfl_done k fd st i.held)
          (perform-IsOpen (set_flags (bit_or st.flags nonblock)) ok allowed)
