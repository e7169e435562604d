-- ===== src/Channel/Sockets.antt =====
-- The part of `clive_new_channel` that opens the channel's socket. What the calls return is dropped.
use cliveserver.Base.{ℕ, ◌*◌, Option, none, some, List}
use cliveserver.Base.Int.{ℤ, pos, pos_part}
use cliveserver.Socket.{
  Sockets, clive_set_nonblocking, clive_set_tcpnodelay, clive_set_sndbuf, clive_set_rcvbuf,
  clive_tcp_socket, clive_tcp_bind, clive_tcp_listen, clive_udp_socket, clive_udp_bind,
}
use cliveserver.Channel.{Channel, Protocol, udp, tcp}
use cliveserver.Channel.Url.{endpoint, parse_url, input_protocol, clive_new_channel}

module _ (sockets : Sockets) where
  open sockets use {Kernel}

  unfoldable pub open_listener : Kernel → List ℕ → ℕ → ℤ × Kernel
  open_listener k ip sport =
      let (skt, k1) = clive_tcp_socket sockets k in
      let k2 = (clive_set_tcpnodelay sockets k1 skt).1 in
      let k3 = (clive_set_nonblocking sockets k2 skt).1 in
      let k4 = (clive_set_sndbuf sockets k3 skt (pos (64 * 1024))).1 in
      let k5 = (clive_set_rcvbuf sockets k4 skt (pos (64 * 1024))).1 in
      let k6 = (clive_tcp_bind sockets k5 skt ip sport).1 in
      (skt, (clive_tcp_listen sockets k6 skt (pos 3)).1)

  unfoldable pub open_receiver : Kernel → List ℕ → ℕ → ℤ × Kernel
  open_receiver k ip sport =
      let (skt, k1) = clive_udp_socket sockets k in
      let k2 = (clive_set_nonblocking sockets k1 skt).1 in
      let k3 = (clive_set_sndbuf sockets k2 skt (pos (64 * 1024))).1 in
      let k4 = (clive_set_rcvbuf sockets k3 skt (pos (64 * 1024))).1 in
      (skt, (clive_udp_bind sockets k4 skt ip sport).1)

  -- by protocol; `skt` has no value yet for the others
  unfoldable pub open_socket : Kernel → Option Protocol → List ℕ → ℕ → ℤ → ℤ × Kernel
  unfolding open_listener open_receiver
  open_socket k (some tcp) ip sport unset = open_listener k ip sport
  open_socket k (some udp) ip sport unset = open_receiver k ip sport
  open_socket k _ ip sport unset = (unset, k)

  -- `clive_new_channel` with its socket. A descriptor is a natural number to the event loop, which
  -- ends the process on any that is not positive: a failed one is 0 there.
  unfoldable pub new_channel : Kernel → List ℕ → List ℕ → ℕ → ℤ → Option Channel × Kernel
  unfolding open_socket
  new_channel k url name buffer unset = elim (parse_url url) [
    | endpoint e ↦
        let (skt, k') = open_socket k (input_protocol url) e.ip_addr e.sport unset in
        (clive_new_channel url name (pos_part skt) buffer, k')
    | _ ↦ (none, k)
  ]
