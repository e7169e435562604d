-- ===== src/Socket.antt =====
-- common/tcp.c, udp.c and the socket options of util.c. The system's calls are not part of the
-- repository: they are the parameter `Sockets`, with the documented effect of each. `none` for a
-- descriptor is one that is no open socket.
pub mod Tiny
pub mod Flags
pub mod Open
pub mod Resolve
mod Tests
use Prim.Native.Nat.{bit_or}
use cliveserver.Base.{
  ℕ, ◌-◌, ◌<◌, ◌+◌, ◌*◌, ◌/◌, ◌%◌, ◌^◌, ◌≡◌, Bool, true, false, Option, none, some, List, bit_and,
  ltb, ◌==◌, if◌then◌else◌,
}
use cliveserver.Base.Int.{ℤ, pos, negsuc, is_neg, pos_part}
use cliveserver.Base.Digits.{digit}

-- `SOCK_STREAM`, and `SOCK_DGRAM` with `IPPROTO_UDP`
pub data Kind : Type 0 where
  stream datagrams : Kind

-- `struct sockaddr_in`: both fields as the functions store them. The padding, which `clive_tcp_bind`
-- leaves uninitialised, is left out.
pub record Sockaddr : Type 0 where
  pub s_addr : ℕ
  pub sin_port : ℕ

-- the options that are set, but for SO_LINGER
pub data Opt : Type 0 where
  so_reuseaddr tcp_nodelay so_sndbuf so_rcvbuf : Opt

-- calls that change one socket
pub data Call : Type 0 where
  set_flags : ℕ → Call
  set_option : Opt → ℤ → Call
  set_linger : ℤ → Call
  bind_to : Sockaddr → Call
  connect_to : Sockaddr → Call
  listen_for : ℤ → Call

-- `flags` are the status flags that F_GETFL reads
pub record SocketState : Type 0 where
  pub kind : Kind
  pub flags : ℕ
  pub reuseaddr : ℤ
  pub nodelay : ℤ
  pub sndbuf : ℤ
  pub rcvbuf : ℤ
  pub linger : Option ℤ
  pub bound : Option Sockaddr
  pub peer : Option Sockaddr
  pub backlog : Option ℤ

-- O_NONBLOCK of Linux, the digit 11, and its complement as an unsigned int
abbrev pub nonblock : ℕ
nonblock = 2048

abbrev pub other_flags : ℕ
other_flags = 2 ^ 32 - 1 - nonblock

-- an option kept with a value
abbrev pub with_option : SocketState → Opt → ℤ → SocketState
with_option st so_reuseaddr v = record st { reuseaddr = v }
with_option st tcp_nodelay v = record st { nodelay = v }
with_option st so_sndbuf v = record st { sndbuf = v }
with_option st so_rcvbuf v = record st { rcvbuf = v }

-- what a call that succeeds does to its socket; the kernel may keep another value of an option
abbrev pub effect : (Opt → ℤ → ℤ) → Call → SocketState → SocketState
effect kept (set_flags f) st = record st { flags = f }
effect kept (set_option o v) st = with_option st o (kept o v)
effect kept (set_linger timeout) st = record st { linger = some timeout }
effect kept (bind_to a) st = record st { bound = some a }
effect kept (connect_to a) st = record st { peer = some a }
effect kept (listen_for n) st = record st { backlog = some n }

-- F_SETFL is documented to change O_NONBLOCK and some flags that are left as they were here.
abbrev pub Allowed : Call → SocketState → Type 0
Allowed (set_flags f) st = (i : ℕ) → (i == 11) ≡ false → digit i f ≡ digit i st.flags
Allowed _ st = Unit {0}

module _ {Kernel : Type 0} (state : Kernel → ℕ → Option SocketState) where
  abbrev pub SameSockets : Kernel → Kernel → Type 0
  SameSockets k k' = (s : ℕ) → state k' s ≡ state k s

  -- a call on `fd` that failed, or that left it as `st`
  abbrev pub Becomes : Kernel → ℕ → SocketState → ℤ × Kernel → Type 0
  Becomes k fd st (negsuc e, k') = SameSockets k k'
  Becomes k fd st (pos n, k') = (s : ℕ) → state k' s ≡ (if s == fd then some st else state k s)

-- the value behind a pointer that may be NULL, which is `none`
abbrev pub overwrite : Option ℕ → ℕ → Option ℕ
overwrite none v = none
overwrite (some old) v = some v

abbrev pub no_address : Sockaddr
no_address = record { s_addr = 0; sin_port = 0 }

-- a new socket: blocking, unbound, with the system's defaults
pub record IsFresh (kind : Kind) (st : SocketState) : Type 0 where
  pub of_kind : st.kind ≡ kind
  pub blocking : bit_and st.flags nonblock ≡ 0
  pub in_int : st.flags < 2 ^ 31
  pub unbound : st.bound ≡ none
  pub alone : st.peer ≡ none
  pub deaf : st.backlog ≡ none
  pub lingers : st.linger ≡ none

pub record Sockets : Type 1 where
  pub Kernel : Type 0
  pub state : Kernel → ℕ → Option SocketState
  pub kept : Opt → ℤ → ℤ
  pub fresh : Kernel → Kind → SocketState
  pub inet_addr : List ℕ → ℕ
  pub htons : ℕ → ℕ
  pub socket : Kernel → Kind → ℤ × Kernel
  pub close : Kernel → ℤ → ℤ × Kernel
  pub getfl : Kernel → ℤ → ℤ
  pub perform : Kernel → ℤ → Call → ℤ × Kernel
  pub accept : Kernel → ℤ → ℤ × Sockaddr × Kernel
  pub sendto : Kernel → ℤ → List ℕ → Sockaddr → ℤ × Kernel
  pub recvfrom : Kernel → ℤ → ℕ → ℤ × List ℕ × Sockaddr × Kernel
  -- a new socket stands under a descriptor that was none
  pub fresh_done : (k : Kernel) (kind : Kind) → IsFresh kind (fresh k kind)
  pub socket_done :
      (k : Kernel) (kind : Kind) (fd : ℕ)
      → (socket k kind).0 ≡ pos fd
      → (state k fd ≡ none) × Becomes state k fd (fresh k kind) (socket k kind)
  pub socket_failed :
      (k : Kernel) (kind : Kind)
      → is_neg (socket k kind).0 ≡ true
      → SameSockets state k (socket k kind).1
  -- F_GETFL of an open socket reads its flags, and fails on any other descriptor
  pub getfl_done :
      (k : Kernel) (fd : ℕ) (st : SocketState)
      → state k fd ≡ some st
      → getfl k (pos fd) ≡ pos st.flags
  pub getfl_failed : (k : Kernel) (n : ℕ) → getfl k (negsuc n) ≡ negsuc 0
  pub perform_done :
      (k : Kernel) (fd : ℕ) (c : Call) (st : SocketState)
      → state k fd ≡ some st
      → Allowed c st
      → Becomes state k fd (effect kept c st) (perform k (pos fd) c)
  -- a call on a negative descriptor is EBADF
  pub perform_failed : (k : Kernel) (n : ℕ) (c : Call) → perform k (negsuc n) c ≡ (negsuc 0, k)

module _ (sockets : Sockets) where
  open sockets use {
    Kernel, inet_addr, htons, socket, close, getfl, perform, accept, sendto, recvfrom,
  }

  unfoldable pub clive_set_blocking : Kernel → ℤ → ℤ × Kernel
  clive_set_blocking k sd =
      let flags = getfl k sd in
      if is_neg flags
      then (flags, k)
      else perform k sd (set_flags (bit_and (pos_part flags) other_flags))

  unfoldable pub clive_set_nonblocking : Kernel → ℤ → ℤ × Kernel
  clive_set_nonblocking k sd =
      let flags = getfl k sd in
      if is_neg flags
      then (flags, k)
      else perform k sd (set_flags (bit_or (pos_part flags) nonblock))

  unfoldable pub clive_set_reuseaddr : Kernel → ℤ → ℤ × Kernel
  clive_set_reuseaddr k sd = perform k sd (set_option so_reuseaddr (pos 1))

  unfoldable pub clive_set_tcpnodelay : Kernel → ℤ → ℤ × Kernel
  clive_set_tcpnodelay k sd = perform k sd (set_option tcp_nodelay (pos 1))

  clive_set_linger : Kernel → ℤ → ℤ → ℤ × Kernel
  clive_set_linger k sd timeout = perform k sd (set_linger timeout)

  unfoldable pub clive_set_sndbuf : Kernel → ℤ → ℤ → ℤ × Kernel
  clive_set_sndbuf k sd size = perform k sd (set_option so_sndbuf size)

  unfoldable pub clive_set_rcvbuf : Kernel → ℤ → ℤ → ℤ × Kernel
  clive_set_rcvbuf k sd size = perform k sd (set_option so_rcvbuf size)

  unfoldable pub clive_tcp_socket : Kernel → ℤ × Kernel
  clive_tcp_socket k = socket k stream

  unfoldable pub clive_tcp_close : Kernel → ℤ → Kernel
  clive_tcp_close k (negsuc n) = k
  clive_tcp_close k (pos skt) = if ltb 0 skt then (close k (pos skt)).1 else k

  -- `ip` is an unsigned long, and the field has 32 bits; the port is stored as it is given
  unfoldable pub clive_tcp_connect : Kernel → ℤ → ℕ → ℕ → ℤ × Kernel
  clive_tcp_connect k skt ip port =
      perform k skt (connect_to (record { s_addr = ip % 2 ^ 32; sin_port = port }))

  unfoldable pub clive_tcp_bind : Kernel → ℤ → List ℕ → ℕ → ℤ × Kernel
  clive_tcp_bind k skt ip port =
      perform k skt (bind_to (record { s_addr = inet_addr ip; sin_port = htons port }))

  unfoldable pub clive_tcp_listen : Kernel → ℤ → ℤ → ℤ × Kernel
  clive_tcp_listen k skt count = perform k skt (listen_for count)

  -- `ip` and `port` are what the two pointers point to
  unfoldable pub clive_tcp_accept :
      Kernel → ℤ → Option ℕ → Option ℕ → ℤ × Option ℕ × Option ℕ × Kernel
  clive_tcp_accept k skt ip port =
      let (client, from, k') = accept k skt in
      if is_neg client
      then (client, ip, port, k')
      else (client, overwrite ip from.s_addr, overwrite port from.sin_port, k')

  unfoldable pub clive_udp_socket : Kernel → ℤ × Kernel
  clive_udp_socket k = socket k datagrams

  abbrev is_minus_one : ℤ → Bool
  is_minus_one (pos n) = false
  is_minus_one (negsuc n) = n == 0

  unfoldable pub clive_udp_close : Kernel → ℤ → Kernel
  clive_udp_close k skt = if is_minus_one skt then k else (close k skt).1

  unfoldable pub clive_udp_bind : Kernel → ℤ → List ℕ → ℕ → ℤ × Kernel
  clive_udp_bind k skt ip port =
      let (status, k') =
        perform k skt (bind_to (record { s_addr = inet_addr ip; sin_port = htons port })) in
      ((if is_neg status then negsuc 0 else pos 0), k')

  unfoldable pub clive_udp_send : Kernel → ℤ → List ℕ → ℕ → List ℕ → ℤ × Kernel
  clive_udp_send k skt ip port buf =
      sendto k skt buf (record { s_addr = inet_addr ip; sin_port = htons port })

  -- A `recvfrom` that fails leaves the zeroed address. The result goes through a `uint32_t` and back.
  unfoldable pub clive_udp_recv :
      Kernel → ℤ → Option ℕ → Option ℕ → ℕ → ℤ × List ℕ × Option ℕ × Option ℕ × Kernel
  clive_udp_recv k skt ip port size =
      let (n, bytes, sender, k') = recvfrom k skt size in
      let from = if is_neg n then no_address else sender in
      (n, bytes, overwrite ip from.s_addr, overwrite port from.sin_port, k')
