-- ===== src/Http/Open.antt =====
-- The socket that `clive_http_server_new` opens. What the calls return is dropped.
use Prim.Native.Nat.{bit_or}
use cliveserver.Base.{ℕ, ◌*◌, ◌≡◌, refl, List, [], ◌∷◌, some}
use cliveserver.Base.Int.{ℤ, pos}
use cliveserver.Socket.{
  Sockets, SocketState, so_reuseaddr, so_sndbuf, so_rcvbuf, tcp_nodelay, stream, nonblock,
  set_option, bind_to, listen_for, clive_set_nonblocking, clive_set_tcpnodelay, clive_set_reuseaddr,
  clive_set_sndbuf, clive_set_rcvbuf, clive_tcp_socket, clive_tcp_bind, clive_tcp_listen,
}
use cliveserver.Socket.Open.{
  Obliging, IsOpen, socket-IsOpen, perform-IsOpen, set_nonblocking-IsOpen,
}

abbrev pub any_host : List ℕ
any_host = b'0' ∷ b'.' ∷ b'0' ∷ b'.' ∷ b'0' ∷ b'.' ∷ b'0' ∷ []

module _ (sockets : Sockets) where
  open sockets use {Kernel, kept, fresh, inet_addr, htons, socket}

  unfoldable pub open_server : Kernel → ℕ → ℤ × Kernel
  open_server k port =
      let (skt, k1) = clive_tcp_socket sockets k in
      let k2 = (clive_set_reuseaddr sockets k1 skt).1 in
      let k3 = (clive_set_nonblocking sockets k2 skt).1 in
      let k4 = (clive_set_sndbuf sockets k3 skt (pos (64 * 1024))).1 in
      let k5 = (clive_set_rcvbuf sockets k4 skt (pos (64 * 1024))).1 in
      let k6 = (clive_set_tcpnodelay sockets k5 skt).1 in
      let k7 = (clive_tcp_bind sockets k6 skt any_host port).1 in
      (skt, (clive_tcp_listen sockets k7 skt (pos 100)).1)

  -- what the server's socket is to be
  abbrev pub server : Kernel → ℕ → SocketState
  server k port = record (fresh k stream) {
    flags = bit_or (fresh k stream).flags nonblock;
    reuseaddr = kept so_reuseaddr (pos 1);
    nodelay = kept tcp_nodelay (pos 1);
    sndbuf = kept so_sndbuf (pos (64 * 1024));
    rcvbuf = kept so_rcvbuf (pos (64 * 1024));
    bound = some (record { s_addr = inet_addr any_host; sin_port = htons port });
    backlog = some (pos 100);
  }

  -- On a system that gives a socket and refuses no call on it, `clive_http_server_new` gets a new
  -- stream socket that does not block, has SO_REUSEADDR, TCP_NODELAY and buffers as the system keeps
  -- them for 64 KiB, is bound to 0.0.0.0 and the port, and listens with a backlog of 100. No other
  -- socket has changed.
  pub open_server-IsOpen :
      (k : Kernel) (port fd : ℕ)
      → Obliging sockets
      → (socket k stream).0 ≡ pos fd
      → ((open_server k port).0 ≡ pos fd)
        × IsOpen sockets k fd (server k port) (open_server k port).1
  unfolding open_server clive_tcp_socket clive_set_reuseaddr clive_set_tcpnodelay clive_set_sndbuf
      clive_set_rcvbuf clive_tcp_bind clive_tcp_listen
  open_server-IsOpen k port fd ok e =
      let i1 = socket-IsOpen sockets k stream fd e in
      let i2 = perform-IsOpen sockets k fd _ _ i1 (set_option so_reuseaddr (pos 1)) ok tt in
      let i3 = set_nonblocking-IsOpen sockets k fd _ _ i2 ok in
      let i4 = perform-IsOpen sockets k fd _ _ i3 (set_option so_sndbuf (pos (64 * 1024))) ok tt in
      let i5 = perform-IsOpen sockets k fd _ _ i4 (set_option so_rcvbuf (pos (64 * 1024))) ok tt in
      let i6 = perform-IsOpen sockets k fd _ _ i5 (set_option tcp_nodelay (pos 1)) ok tt in
      let any = bind_to (record { s_addr = inet_addr any_host; sin_port = htons port }) in
      let i7 = perform-IsOpen sockets k fd _ _ i6 any ok tt in
      rw e (refl, perform-IsOpen sockets k fd _ _ i7 (listen_for (pos 100)) ok tt)
