-- ===== src/Channel/Handed.antt =====
-- What a whole call of `udp_recv` hands on, over all answers of the socket.
use cliveserver.Base.{
  ℕ, ◌≡◌, refl, sym, ap, ◌∙◌, Bool, true, false, Option, none, some, List, [], ◌∷◌, ◌++◌, length,
  append-nil, append_assoc, arith, ==_self,
}
use mathlib.Core.Path.{subst}
use cliveserver.Errno.{Errno, eintr, eagain, other_error, on_errno}
use cliveserver.Core.{Code, cl_ok, cl_error}
use cliveserver.Kfifo.{Kfifo, put}
use cliveserver.Kfifo.Inv.{IsValid, contents}
use cliveserver.Kfifo.Put.{contents-put, put-IsValid}
use cliveserver.Media.{
  MediaType, ts, flv, undetected, World, update, clive_media_setype, clive_media_attach, ts2flv,
  ts2ts, flv2flv, flv2ts,
}
use cliveserver.Media.Fanout.{fitting}
use cliveserver.Channel.{Channel}
use cliveserver.Channel.Receive.{
  Datagram, datagram, empty, failure, fill_loop, Received, detect, set_types, first_datagram,
  receive, detecting, udp_recv, failed,
}
use cliveserver.Channel.Flow.{fill_loop-contents}
use cliveserver.Channel.Detect.{setype-OnlyTypes}

-- only an interrupted call is made again
abbrev pub behind : Errno → List ℕ → List ℕ
behind eintr rest = rest
behind _ rest = []

-- the datagram that ends the second loop, and the bytes of both loops
abbrev pub second : Errno → List Datagram → List ℕ
second errno [] = []
second errno (datagram b bytes ∷ answers) = b ∷ bytes
second errno (empty ∷ answers) = behind errno (second errno answers)
second errno (failure e ∷ answers) = behind e (second e answers)

abbrev pub both_loops : Kfifo → Errno → List Datagram → List ℕ
both_loops fifo errno [] = []
both_loops fifo errno (datagram b bytes ∷ answers) =
    fitting fifo (b ∷ bytes) ++ second errno answers
both_loops fifo errno (empty ∷ answers) = behind errno (both_loops fifo errno answers)
both_loops fifo errno (failure e ∷ answers) = behind e (both_loops fifo e answers)

abbrev pub arrived : MediaType → Kfifo → Errno → List Datagram → List ℕ
arrived undetected fifo errno answers = both_loops fifo errno answers
arrived _ fifo errno answers = second errno answers

-- A call that has not returned yet, or one after which the bytes taken meanwhile and then those of the
-- ring are the ones from before and then `bytes`, and the ring is valid.
abbrev Handed : ℕ → ℕ → List ℕ → Received → Type 0
Handed k ring all none = Unit {0}
Handed k ring all (some (code, channel, w, taken)) =
    (taken ++ contents (w.fifos ring) ≡ all) × IsValid k (w.fifos ring)

module _ (k : ℕ) where
  unchanged :
      (code : Code) (ring : ℕ) (channel : Channel) (w : World)
      → IsValid k (w.fifos ring)
      → Handed k ring (contents (w.fifos ring) ++ []) (some (code, channel, w, []))
  unchanged code ring channel w v = (sym (append-nil (contents (w.fifos ring))), v)

  -- the branches on `errno`
  again_or :
      (errno : Errno) (ring : ℕ) (channel : Channel) (w : World) (rest : List ℕ) (r : Received)
      (fail : ℕ → Channel)
      → IsValid k (w.fifos ring)
      → Handed k ring (contents (w.fifos ring) ++ rest) r
      → Handed k ring
          (contents (w.fifos ring) ++ behind errno rest)
          (on_errno errno r (cl_ok, channel, w, []) (λ e. (cl_error, fail e, w, [])))
  again_or eintr ring channel w rest r fail v h = h
  again_or eagain ring channel w rest r fail v h = unchanged cl_ok ring channel w v
  again_or (other_error n) ring channel w rest r fail v h = unchanged cl_error ring (fail n) w v

  filled :
      (channel : Channel) (w : World) (requests bytes : List ℕ) (r : Option (Kfifo × List ℕ))
      → IsValid k (w.fifos channel.buffer)
      → fill_loop requests (w.fifos channel.buffer) bytes [] ≡ r
      → Handed k channel.buffer (contents (w.fifos channel.buffer) ++ bytes) (elim r [
        | none ↦ none
        | some (fifo, taken) ↦
            some (cl_ok, channel, record w { fifos = update w.fifos channel.buffer fifo }, taken)
      ])
  filled channel w requests bytes none v e = tt
  filled channel w requests bytes (some (fifo, taken)) v e =
      let (all, valid) =
        fill_loop-contents k requests (w.fifos channel.buffer) bytes [] fifo taken v e in
      let held : update w.fifos channel.buffer fifo channel.buffer ≡ fifo =
        rw (==_self channel.buffer) refl in
      (ap (λ f. taken ++ contents f) held ∙ all, subst (IsValid k) (sym held) valid)

  receive-Handed :
      (errno : Errno) (answers : List Datagram) (requests : List ℕ) (channel : Channel) (w : World)
      → IsValid k (w.fifos channel.buffer)
      → Handed k channel.buffer
          (contents (w.fifos channel.buffer) ++ second errno answers)
          (receive errno answers requests channel w)
  unfolding receive
  receive-Handed errno [] requests channel w v = tt
  receive-Handed errno (datagram b bytes ∷ answers) requests channel w v =
      filled channel w requests (b ∷ bytes)
        (fill_loop requests (w.fifos channel.buffer) (b ∷ bytes) []) v refl
  receive-Handed errno (empty ∷ answers) requests channel w v =
      again_or errno channel.buffer channel w (second errno answers)
        (receive errno answers requests channel w) (failed channel) v
        (receive-Handed errno answers requests channel w v)
  receive-Handed errno (failure e ∷ answers) requests channel w v =
      again_or e channel.buffer channel w (second e answers) (receive e answers requests channel w)
        (failed channel) v (receive-Handed e answers requests channel w v)

set_types-fifos :
    (w : World) (channel : Channel) (media : MediaType)
    → (set_types w channel media).fifos ≡ w.fifos
unfolding set_types
set_types-fifos w channel ts =
    let once = clive_media_setype w channel.flv_media ts2flv ts in
    (setype-OnlyTypes once channel.ts_media ts2ts ts).fifos
    ∙ (setype-OnlyTypes w channel.flv_media ts2flv ts).fifos
set_types-fifos w channel flv =
    let once = clive_media_setype w channel.flv_media flv2flv flv in
    (setype-OnlyTypes once channel.ts_media flv2ts flv).fifos
    ∙ (setype-OnlyTypes w channel.flv_media flv2flv flv).fifos
set_types-fifos w channel undetected = refl

attach-fifos :
    (w : World) (flv_media ts_media : Option ℕ) (buffer : ℕ) (task entry : Bool)
    → (clive_media_attach w flv_media ts_media buffer task entry).1.fifos ≡ w.fifos
unfolding clive_media_attach
attach-fifos w flv_media ts_media buffer true true = refl
attach-fifos w flv_media ts_media buffer true false = refl
attach-fifos w flv_media ts_media buffer false entry = refl

module _ (task_allocated entry_allocated : Bool) (k : ℕ) where
  -- the first datagram, whatever its format: what fits of it is in the ring
  first_datagram-ring :
      (b : ℕ) (bytes : List ℕ) (channel : Channel) (w : World)
      → IsValid k (w.fifos channel.buffer)
      → let w' = (first_datagram task_allocated entry_allocated b bytes channel w).1 in
        (contents (w'.fifos channel.buffer)
          ≡ contents (w.fifos channel.buffer) ++ fitting (w.fifos channel.buffer) (b ∷ bytes))
        × IsValid k (w'.fifos channel.buffer)
  unfolding first_datagram
  first_datagram-ring b bytes channel w v =
      let fifo = (put (w.fifos channel.buffer) (b ∷ bytes) (length (b ∷ bytes))).1 in
      let stored : World = record w { fifos = update w.fifos channel.buffer fifo } in
      let typed = set_types stored channel (detect b) in
      let held : (first_datagram task_allocated entry_allocated b bytes channel w).1.fifos
            channel.buffer
          ≡ fifo =
        ap (λ f. f channel.buffer)
          (attach-fifos typed channel.flv_media channel.ts_media channel.buffer task_allocated
              entry_allocated
            ∙ set_types-fifos stored channel (detect b))
        ∙ rw (==_self channel.buffer) refl in
      (
        ap contents held ∙ contents-put v (b ∷ bytes) (length (b ∷ bytes)) (omega arith),
        subst (IsValid k) (sym held) (put-IsValid v (b ∷ bytes) (length (b ∷ bytes)) (omega arith)),
      )

  detecting-Handed :
      (errno : Errno) (answers : List Datagram) (requests : List ℕ) (channel : Channel) (w : World)
      → IsValid k (w.fifos channel.buffer)
      → Handed k channel.buffer
          (contents (w.fifos channel.buffer) ++ both_loops (w.fifos channel.buffer) errno answers)
          (detecting task_allocated entry_allocated errno answers requests channel w)
  unfolding detecting first_datagram
  detecting-Handed errno [] requests channel w v = tt
  detecting-Handed errno (datagram b bytes ∷ answers) requests channel w v =
      let (channel', w') = first_datagram task_allocated entry_allocated b bytes channel w in
      let (ring, valid) = first_datagram-ring b bytes channel w v in
      subst (λ l. Handed k channel.buffer l (receive errno answers requests channel' w'))
        (ap (λ l. l ++ second errno answers) ring
          ∙ append_assoc (contents (w.fifos channel.buffer))
              (fitting (w.fifos channel.buffer) (b ∷ bytes)) (second errno answers))
        (receive-Handed k errno answers requests channel' w' valid)
  detecting-Handed errno (empty ∷ answers) requests channel w v =
      again_or k errno channel.buffer channel w (both_loops (w.fifos channel.buffer) errno answers)
        (detecting task_allocated entry_allocated errno answers requests channel w) (failed channel)
        v (detecting-Handed errno answers requests channel w v)
  detecting-Handed errno (failure e ∷ answers) requests channel w v =
      again_or k e channel.buffer channel w (both_loops (w.fifos channel.buffer) e answers)
        (detecting task_allocated entry_allocated e answers requests channel w) (failed channel) v
        (detecting-Handed e answers requests channel w v)

  -- any call, also one that has not returned
  call-Handed :
      (errno : Errno) (answers : List Datagram) (requests : List ℕ) (channel : Channel) (w : World)
      → IsValid k (w.fifos channel.buffer)
      → Handed k channel.buffer
          (contents (w.fifos channel.buffer)
            ++ arrived channel.input_media_type (w.fifos channel.buffer) errno answers)
          (udp_recv task_allocated entry_allocated errno answers requests channel w)
  unfolding udp_recv
  call-Handed errno answers requests channel w v = by_format channel.input_media_type
    where
      by_format :
          (format : MediaType)
          → Handed k channel.buffer
              (contents (w.fifos channel.buffer)
                ++ arrived format (w.fifos channel.buffer) errno answers)
              (elim format [
                | undetected ↦
                    detecting task_allocated entry_allocated errno answers requests channel w
                | _ ↦ receive errno answers requests channel w
              ])
      by_format ts = receive-Handed k errno answers requests channel w v
      by_format flv = receive-Handed k errno answers requests channel w v
      by_format undetected = detecting-Handed errno answers requests channel w v

  -- Whatever the socket answers, a call of `udp_recv` on a valid ring that returns leaves the ring
  -- valid, and the bytes that were taken out meanwhile, then those in the ring, are the ring's from
  -- before, then those that arrived: of the first datagram of a channel without a format what fits,
  -- and of the datagram that ends the call all. Empty datagrams and failures bring nothing, and only
  -- an EINTR lets the call go on.
  pub udp_recv-Handed :
      (errno : Errno) (answers : List Datagram) (requests : List ℕ) (channel : Channel) (w : World)
      (code : Code) (channel' : Channel) (w' : World) (taken : List ℕ)
      → IsValid k (w.fifos channel.buffer)
      → udp_recv task_allocated entry_allocated errno answers requests channel w
        ≡ some (code, channel', w', taken)
      → (taken ++ contents (w'.fifos channel.buffer)
          ≡ contents (w.fifos channel.buffer)
            ++ arrived channel.input_media_type (w.fifos channel.buffer) errno answers)
        × IsValid k (w'.fifos channel.buffer)
  udp_recv-Handed errno answers requests channel w code channel' w' taken v e =
      subst
        (Handed k channel.buffer (
          contents (w.fifos channel.buffer)
          ++ arrived channel.input_media_type (w.fifos channel.buffer) errno answers))
        e (call-Handed errno answers requests channel w v)
