-- ===== src/Channel/Receive.antt =====
-- `udp_recv` of channel.c: the detection of the stream's format by the first datagram, and the
-- copying of datagrams into the channel's ring. The answers of `recvfrom` are an argument. Between
-- two puts the repacking thread may take bytes out of the ring: its requests are an argument too,
-- one for each time that the loop goes round.
use cliveserver.Base.{
  ℕ, Bool, Option, none, some, List, [], ◌∷◌, ◌++◌, leb, ◌==◌, if◌then◌else◌, length, drop,
}
use cliveserver.Errno.{Errno, on_errno}
use cliveserver.Core.{Code, cl_ok, cl_error}
use cliveserver.Kfifo.{Kfifo, put, get}
use cliveserver.Media.{
  MediaType, ts, flv, undetected, ts2ts, ts2flv, flv2flv, flv2ts, World, update, clive_media_setype,
  clive_media_attach,
}
use cliveserver.Channel.{Channel}

-- one return of `clive_udp_recv`: a datagram of at least one byte, an empty one, or a failure
pub data Datagram : Type 0 where
  datagram : ℕ → List ℕ → Datagram
  empty : Datagram
  failure : Errno → Datagram

-- `do { w = kfifo_put(…); total += w; } while (total < n)`: the ring, and the bytes that the
-- repacking thread took meanwhile; `none` is a loop that still runs after these requests.
unfoldable pub fill_loop : List ℕ → Kfifo → List ℕ → List ℕ → Option (Kfifo × List ℕ)
fill_loop [] fifo rest taken =
    let (w, fifo') = put fifo rest (length rest) in
    if leb (length rest) w then some (fifo', taken) else none
fill_loop (request ∷ requests) fifo rest taken =
    let (w, fifo') = put fifo rest (length rest) in
    let (bytes, fifo'') = get fifo' request in
    let again = fill_loop requests fifo'' (drop w rest) (taken ++ bytes) in
    if leb (length rest) w then some (fifo', taken) else again

-- what a call leaves behind: its code, the channel, the world, and the bytes taken meanwhile
abbrev pub Received : Type 0
Received = Option (Code × Channel × World × List ℕ)

abbrev pub failed : Channel → ℕ → Channel
failed channel errno = record channel { connection = record channel.connection { err = errno } }

-- the second loop
unfoldable pub receive : Errno → List Datagram → List ℕ → Channel → World → Received
unfolding fill_loop
receive errno [] requests channel w = none
receive errno (datagram b bytes ∷ answers) requests channel w =
    elim (fill_loop requests (w.fifos channel.buffer) (b ∷ bytes) []) [
      | none ↦ none
      | some (fifo, taken) ↦
          some (cl_ok, channel, record w { fifos = update w.fifos channel.buffer fifo }, taken)
    ]
receive errno (empty ∷ answers) requests channel w =
    on_errno errno (receive errno answers requests channel w) (cl_ok, channel, w, [])
      (λ e. (cl_error, failed channel e, w, []))
receive errno (failure e ∷ answers) requests channel w =
    on_errno e (receive e answers requests channel w) (cl_ok, channel, w, [])
      (λ n. (cl_error, failed channel n, w, []))

-- the format that a first byte shows; any other is logged, and stays undetected
unfoldable pub detect : ℕ → MediaType
detect b = if b == b'F' then flv else if b == 0x47 then ts else undetected

-- the pack types that the channel's medias are set to
unfoldable pub set_types : World → Channel → MediaType → World
set_types w channel ts =
    clive_media_setype (clive_media_setype w channel.flv_media ts2flv ts) channel.ts_media ts2ts ts
set_types w channel flv =
    clive_media_setype (clive_media_setype w channel.flv_media flv2flv flv) channel.ts_media flv2ts
      flv
set_types w channel undetected = w

-- The first datagram of a channel: one put, whose overflow is only logged, the types, and the task.
unfoldable pub first_datagram : Bool → Bool → ℕ → List ℕ → Channel → World → Channel × World
unfolding detect set_types
first_datagram task_allocated entry_allocated b bytes channel w =
    let (count, fifo) = put (w.fifos channel.buffer) (b ∷ bytes) (length (b ∷ bytes)) in
    let stored = record w { fifos = update w.fifos channel.buffer fifo } in
    let typed = set_types stored channel (detect b) in
    let (status, attached) =
      clive_media_attach typed channel.flv_media channel.ts_media channel.buffer task_allocated
        entry_allocated in
    (record channel { input_media_type = detect b }, attached)

module _ (task_allocated entry_allocated : Bool) where
  -- the first loop, and the second behind it
  unfoldable pub detecting : Errno → List Datagram → List ℕ → Channel → World → Received
  unfolding first_datagram receive
  detecting errno [] requests channel w = none
  detecting errno (datagram b bytes ∷ answers) requests channel w =
      let (channel', w') = first_datagram task_allocated entry_allocated b bytes channel w in
      receive errno answers requests channel' w'
  detecting errno (empty ∷ answers) requests channel w =
      on_errno errno (detecting errno answers requests channel w) (cl_ok, channel, w, [])
        (λ e. (cl_error, failed channel e, w, []))
  detecting errno (failure e ∷ answers) requests channel w =
      on_errno e (detecting e answers requests channel w) (cl_ok, channel, w, [])
        (λ n. (cl_error, failed channel n, w, []))

  unfoldable pub udp_recv : Errno → List Datagram → List ℕ → Channel → World → Received
  unfolding detecting receive
  udp_recv errno answers requests channel w = elim channel.input_media_type [
    | undetected ↦ detecting errno answers requests channel w
    | _ ↦ receive errno answers requests channel w
  ]
