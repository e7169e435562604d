-- ===== src/Channel/Opened.antt =====
-- The sockets that `clive_new_channel` opens.
use Prim.Native.Nat.{bit_or}
use cliveserver.Base.{
  ℕ, ◌*◌, ◌%◌, ◌^◌, ◌≤◌, ◌<◌, ◌≡◌, refl, sym, ap, ◌∙◌, true, Option, List, [], ◌++◌, none, some,
  length, inl, inr, ltb, Bool-cases,
}
use mathlib.Core.Path.{subst}
use cliveserver.Text.Find.{Without}
use cliveserver.Util.Atoi.{value_of, AreDigits}
use cliveserver.Event.{Epoll, aborted, event_add_conn}
use cliveserver.Channel.{Channel, udp, tcp, http, rtmp, Protocol, is_listening, clive_channel_start}
use cliveserver.Channel.Url.{
  endpoint, parse_url, udp_prefix, tcp_prefix, input_protocol, fresh_channel, clive_new_channel,
}
use cliveserver.Channel.Address.{address, parse_url-socket}
use cliveserver.Base.Int.{ℤ, pos, negsuc, is_neg, pos_part}
use cliveserver.Socket.{
  Sockets, Kind, SameSockets, SocketState, so_sndbuf, so_rcvbuf, tcp_nodelay, Sockaddr, stream,
  datagrams, nonblock, set_option, bind_to, listen_for, clive_set_nonblocking, clive_set_tcpnodelay,
  clive_set_sndbuf, clive_set_rcvbuf, clive_tcp_socket, clive_tcp_bind, clive_tcp_listen,
  clive_udp_socket, clive_udp_bind,
}
use cliveserver.Socket.Open.{
  Obliging, IsOpen, socket-IsOpen, perform-IsOpen, set_nonblocking-IsOpen,
}
use cliveserver.Channel.Sockets.{open_listener, open_receiver, open_socket, new_channel}

module _ (sockets : Sockets) where
  open sockets use {Kernel, kept, fresh, inet_addr, htons, socket}

  abbrev pub at_port : List ℕ → ℕ → Sockaddr
  at_port ip sport = record { s_addr = inet_addr ip; sin_port = htons sport }

  abbrev pub buffered : SocketState → SocketState
  buffered st = record st {
    flags = bit_or st.flags nonblock;
    sndbuf = kept so_sndbuf (pos (64 * 1024));
    rcvbuf = kept so_rcvbuf (pos (64 * 1024));
  }

  -- what a UDP channel's socket is to be
  abbrev pub receiver : Kernel → List ℕ → ℕ → SocketState
  receiver k ip sport = record (buffered (fresh k datagrams)) { bound = some (at_port ip sport) }

  -- and a TCP channel's
  abbrev pub listener : Kernel → List ℕ → ℕ → SocketState
  listener k ip sport = record (buffered (fresh k stream)) {
    nodelay = kept tcp_nodelay (pos 1);
    bound = some (at_port ip sport);
    backlog = some (pos 3);
  }

  open_receiver-IsOpen :
      (k : Kernel) (ip : List ℕ) (sport fd : ℕ)
      → Obliging sockets
      → (socket k datagrams).0 ≡ pos fd
      → IsOpen sockets k fd (receiver k ip sport) (open_receiver sockets k ip sport).1
  unfolding open_receiver clive_udp_socket clive_set_sndbuf clive_set_rcvbuf clive_udp_bind
  open_receiver-IsOpen k ip sport fd ok e =
      let i1 = socket-IsOpen sockets k datagrams fd e in
      let i2 = set_nonblocking-IsOpen sockets k fd _ _ i1 ok in
      let i3 = perform-IsOpen sockets k fd _ _ i2 (set_option so_sndbuf (pos (64 * 1024))) ok tt in
      let i4 = perform-IsOpen sockets k fd _ _ i3 (set_option so_rcvbuf (pos (64 * 1024))) ok tt in
      rw e (perform-IsOpen sockets k fd _ _ i4 (bind_to (at_port ip sport)) ok tt)

  open_listener-IsOpen :
      (k : Kernel) (ip : List ℕ) (sport fd : ℕ)
      → Obliging sockets
      → (socket k stream).0 ≡ pos fd
      → IsOpen sockets k fd (listener k ip sport) (open_listener sockets k ip sport).1
  unfolding open_listener clive_tcp_socket clive_set_tcpnodelay clive_set_sndbuf clive_set_rcvbuf
      clive_tcp_bind clive_tcp_listen
  open_listener-IsOpen k ip sport fd ok e =
      let i1 = socket-IsOpen sockets k stream fd e in
      let i2 = perform-IsOpen sockets k fd _ _ i1 (set_option tcp_nodelay (pos 1)) ok tt in
      let i3 = set_nonblocking-IsOpen sockets k fd _ _ i2 ok in
      let i4 = perform-IsOpen sockets k fd _ _ i3 (set_option so_sndbuf (pos (64 * 1024))) ok tt in
      let i5 = perform-IsOpen sockets k fd _ _ i4 (set_option so_rcvbuf (pos (64 * 1024))) ok tt in
      let i6 = perform-IsOpen sockets k fd _ _ i5 (bind_to (at_port ip sport)) ok tt in
      rw e (perform-IsOpen sockets k fd _ _ i6 (listen_for (pos 3)) ok tt)

  -- with a URL that reads as an address, the channel has the descriptor of its socket
  new_channel-made :
      (k : Kernel) (url name ip : List ℕ) (sport buffer : ℕ) (location : List ℕ) (unset : ℤ)
      → parse_url url ≡ endpoint (record { ip_addr = ip; sport = sport; location = location })
      → let (skt, k') = open_socket sockets k (input_protocol url) ip sport unset in
        new_channel sockets k url name buffer unset
        ≡ (some (fresh_channel url (pos_part skt) buffer), k')
  unfolding new_channel
  new_channel-made k url name ip sport buffer location unset e =
      let (skt, k') = open_socket sockets k (input_protocol url) ip sport unset in
      let opened : new_channel sockets k url name buffer unset
          ≡ (clive_new_channel url name (pos_part skt) buffer, k') =
        rw (new_channel, e) refl in
      let made : clive_new_channel url name (pos_part skt) buffer
          ≡ some (fresh_channel url (pos_part skt) buffer) =
        unfold clive_new_channel in rw (clive_new_channel, e) refl in
      opened ∙ ap (λ (c : Option Channel). (c, k')) made

  made-IsOpen :
      (k : Kernel) (url name ip : List ℕ) (sport buffer fd : ℕ) (location : List ℕ) (unset : ℤ)
      {st : SocketState}
      → parse_url url ≡ endpoint (record { ip_addr = ip; sport = sport; location = location })
      → (open_socket sockets k (input_protocol url) ip sport unset).0 ≡ pos fd
      → IsOpen sockets k fd st (open_socket sockets k (input_protocol url) ip sport unset).1
      → let (c, k') = new_channel sockets k url name buffer unset in
        (c ≡ some (fresh_channel url fd buffer)) × IsOpen sockets k fd st k'
  made-IsOpen k url name ip sport buffer fd location unset {st} e e' i =
      let made = new_channel-made k url name ip sport buffer location unset e in
      (
        ap (λ (r : Option Channel × Kernel). r.0) made
            ∙ ap (λ z. some (fresh_channel url (pos_part z) buffer)) e',
        subst (IsOpen sockets k fd st) (sym (ap (λ (r : Option Channel × Kernel). r.1) made)) i,
      )

  descriptor_of :
      (k : Kernel) (ip : List ℕ) (sport fd : ℕ) (unset : ℤ)
      → (socket k datagrams).0 ≡ pos fd
      → (open_socket sockets k (some udp) ip sport unset).0 ≡ pos fd
  unfolding open_socket open_receiver clive_udp_socket
  descriptor_of k ip sport fd unset e = e

  listener_of :
      (k : Kernel) (ip : List ℕ) (sport fd : ℕ) (unset : ℤ)
      → (socket k stream).0 ≡ pos fd
      → (open_socket sockets k (some tcp) ip sport unset).0 ≡ pos fd
  unfolding open_socket open_listener clive_tcp_socket
  listener_of k ip sport fd unset e = e

-- On a system that gives a socket and refuses no call on it, `clive_new_channel` with a UDP URL of
-- host and port, the port of at most five digits and the host of at most 63 bytes without a colon,
-- makes a channel on a new socket for datagrams that does not block, has buffers as the system keeps
-- them for 64 KiB, and is bound to that host and to the port modulo 2 ^ 16; with such a TCP URL, one
-- on a new stream socket that does not block, has TCP_NODELAY, the same buffers and the same address,
-- and listens with a backlog of 3. No other socket has changed.
pub new_channel-IsOpen :
    (sockets : Sockets) (k : sockets.Kernel) (ip ds name : List ℕ) (buffer fd fd' : ℕ) (unset : ℤ)
    → Without b':' ip
    → length ip < 64
    → AreDigits ds
    → length ds ≤ 5
    → Obliging sockets
    → (sockets.socket k datagrams).0 ≡ pos fd
    → (sockets.socket k stream).0 ≡ pos fd'
    → let port = value_of ds % 2 ^ 16 in
      let udp_url = udp_prefix ++ address ip ds [] in
      let tcp_url = tcp_prefix ++ address ip ds [] in
      let (c, k1) = new_channel sockets k udp_url name buffer unset in
      let (c', k2) = new_channel sockets k tcp_url name buffer unset in
      (c ≡ some (fresh_channel udp_url fd buffer))
      × IsOpen sockets k fd (receiver sockets k ip port) k1
      × (c' ≡ some (fresh_channel tcp_url fd' buffer))
      × IsOpen sockets k fd' (listener sockets k ip port) k2
new_channel-IsOpen sockets k ip ds name buffer fd fd' unset host short digits five ok e e' =
    let port = value_of ds % 2 ^ 16 in
    let (is_udp, udp_ends, is_tcp, tcp_ends) = parse_url-socket ip ds host short digits five in
    let (c, i) =
      made-IsOpen sockets k (udp_prefix ++ address ip ds []) name ip port buffer fd [] unset
        udp_ends
        (ap (λ p. (open_socket sockets k p ip port unset).0) is_udp
          ∙ descriptor_of sockets k ip port fd unset e)
        (subst
          (λ p.
            IsOpen sockets k fd (receiver sockets k ip port)
              (open_socket sockets k p ip port unset).1)
          (sym is_udp) (unfold open_socket in open_receiver-IsOpen sockets k ip port fd ok e)) in
    let (c', i') =
      made-IsOpen sockets k (tcp_prefix ++ address ip ds []) name ip port buffer fd' [] unset
        tcp_ends
        (ap (λ p. (open_socket sockets k p ip port unset).0) is_tcp
          ∙ listener_of sockets k ip port fd' unset e')
        (subst
          (λ p.
            IsOpen sockets k fd' (listener sockets k ip port)
              (open_socket sockets k p ip port unset).1)
          (sym is_tcp) (unfold open_socket in open_listener-IsOpen sockets k ip port fd' ok e')) in
    (c, i, c', i')

negative : (z : ℤ) → is_neg z ≡ true → (n : ℕ) × (z ≡ negsuc n)
negative (pos n) e = cc
negative (negsuc n) e = (n, refl)

module _ (sockets : Sockets) where
  open sockets use {Kernel, state, socket, getfl_failed, perform_failed, socket_failed}

  -- without a socket, the other calls do nothing
  open_socket-fails :
      (k : Kernel) (p : Option Protocol) (ip : List ℕ) (sport : ℕ) (unset : ℤ)
      → is_listening p ≡ true
      → ((kind : Kind) → is_neg (socket k kind).0 ≡ true)
      → (is_neg (open_socket sockets k p ip sport unset).0 ≡ true)
        × SameSockets state k (open_socket sockets k p ip sport unset).1
  unfolding open_socket open_listener open_receiver clive_tcp_socket clive_udp_socket
      clive_set_tcpnodelay clive_set_sndbuf clive_set_rcvbuf clive_tcp_bind clive_tcp_listen
      clive_udp_bind clive_set_nonblocking
  open_socket-fails k (some udp) ip sport unset h fails =
      let (n, e) = negative (socket k datagrams).0 (fails datagrams) in
      (
        fails datagrams,
        simp (e, perform_failed, getfl_failed) (socket_failed k datagrams (fails datagrams)),
      )
  open_socket-fails k (some tcp) ip sport unset h fails =
      let (n, e) = negative (socket k stream).0 (fails stream) in
      (fails stream, simp (e, perform_failed, getfl_failed) (socket_failed k stream (fails stream)))
  open_socket-fails k (some http) ip sport unset h fails = cc
  open_socket-fails k (some rtmp) ip sport unset h fails = cc
  open_socket-fails k none ip sport unset h fails = cc

-- epoll's own descriptor is not looked at any further
start-aborts :
    (epoll : Epoll) (k : epoll.Kernel) (channel : Channel)
    → channel.connection.skt ≡ 0
    → clive_channel_start epoll k channel ≡ aborted
unfolding clive_channel_start event_add_conn
start-aborts epoll k channel e = elim (Bool-cases (ltb 0 epoll.ep)) [
  | inl on ↦ simp (on, e) refl
  | inr off ↦ simp off refl
]

-- Where the system gives no socket, `clive_new_channel` with a URL that reads as an address of the UDP
-- or TCP protocol leaves all sockets as they were, and makes a channel all the same, with a descriptor
-- on which `clive_channel_start` ends the process.
pub no_socket-aborts :
    (sockets : Sockets) (epoll : Epoll) (k : sockets.Kernel) (k' : epoll.Kernel)
    (url name ip : List ℕ) (sport buffer : ℕ) (location : List ℕ) (unset : ℤ)
    → parse_url url ≡ endpoint (record { ip_addr = ip; sport = sport; location = location })
    → is_listening (input_protocol url) ≡ true
    → ((kind : Kind) → is_neg (sockets.socket k kind).0 ≡ true)
    → let (c, k1) = new_channel sockets k url name buffer unset in
      SameSockets sockets.state k k1
      × (channel : Channel) × (c ≡ some channel)
      × (clive_channel_start epoll k' channel ≡ aborted)
unfolding fresh_channel
no_socket-aborts sockets epoll k k' url name ip sport buffer location unset e listens fails =
    let (failed, same) =
      open_socket-fails sockets k (input_protocol url) ip sport unset listens fails in
    let (n, e') = negative (open_socket sockets k (input_protocol url) ip sport unset).0 failed in
    let made = new_channel-made sockets k url name ip sport buffer location unset e in
    (
      subst (SameSockets sockets.state k)
          (sym (ap (λ (r : Option Channel × sockets.Kernel). r.1) made)) same,
      fresh_channel url 0 buffer,
      ap (λ (r : Option Channel × sockets.Kernel). r.0) made
          ∙ ap (λ z. some (fresh_channel url (pos_part z) buffer)) e',
      start-aborts epoll k' (fresh_channel url 0 buffer) refl,
    )
