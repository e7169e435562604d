-- ===== src/Channel/Tests.antt =====
-- The theorems on channels at concrete names, URLs and datagrams.
use cliveserver.Base.{
  ℕ, ◌+◌, ◌-◌, ◌%◌, ◌^◌, ◌≡◌, ◌≤◌, refl, true, none, some, List, [], ◌∷◌, ◌++◌, arith,
}
use cliveserver.Event.{new_connection}
use cliveserver.Kfifo.{Kfifo, len, put, get, raw_get, reset_if_empty}
use cliveserver.Kfifo.Word.{add32, sub32}
use cliveserver.Kfifo.Copy.{copy_to, copy_from}
use cliveserver.Kfifo.Inv.{IsValid, contents}
use cliveserver.Media.{undetected, unknown, ts2ts, World}
use cliveserver.Text.{starts_with, strncmp_eq, strchr}
use cliveserver.Util.Atoi.{value_of}
use cliveserver.Channel.{Channel, udp, find_loop, clive_channel_find, clive_channel_is_existed}
use cliveserver.Base.Int.{pos}
use cliveserver.Socket.{SameSockets}
use cliveserver.Socket.Tiny.{Table, tiny_sockets, tiny-obliging}
use cliveserver.Channel.{is_listening}
use cliveserver.Channel.Sockets.{new_channel}
use cliveserver.Channel.Opened.{new_channel-IsOpen, no_socket-aborts}
use cliveserver.Event.Tiny.{Entries, tiny}
use cliveserver.Channel.{clive_channel_start}
use cliveserver.Channel.Start.{Started, clive_channel_start-Started}
use cliveserver.Channel.Names.{FoundIn, clive_channel_find-FoundIn}
use cliveserver.Channel.Url.{
  udp_prefix, fresh_channel, clive_new_channel, parse_url, endpoint, input_protocol, parse_socket,
}
use cliveserver.Channel.Address.{address, parse_url-socket}
use cliveserver.Channel.Receive.{fill_loop, first_datagram}
use cliveserver.Errno.{eagain}
use cliveserver.Channel.Receive.{Datagram, datagram, failure, udp_recv, detecting, receive}
use cliveserver.Core.{cl_ok}
use cliveserver.Channel.Handed.{arrived, udp_recv-Handed}
use cliveserver.Channel.Detect.{first_datagram-ts}
use cliveserver.Channel.Flow.{fill_loop-contents, fill_loop-total}

abbrev named : List ℕ → Channel
named name = record {
  connection = new_connection 7;
  channel_name = name;
  input_protocol = some udp;
  input_media_type = undetected;
  buffer = 1;
  ts_media = none;
  flv_media = none;
}

abbrev news : Channel
news = named (b'n' ∷ b'e' ∷ b'w' ∷ b's' ∷ [])

abbrev onlive : Channel
onlive = named (b'o' ∷ b'n' ∷ [])

abbrev wanted : List ℕ
wanted = b'o' ∷ b'n' ∷ b'_' ∷ b't' ∷ b's' ∷ []

finds_onlive : clive_channel_find (news ∷ onlive ∷ []) (some wanted) ≡ some onlive
unfolding clive_channel_find find_loop starts_with strncmp_eq
finds_onlive = refl

clive_channel_find-FoundIn_example :
    FoundIn (news ∷ onlive ∷ []) wanted onlive
    × (clive_channel_is_existed (news ∷ onlive ∷ []) (some wanted) ≡ true)
clive_channel_find-FoundIn_example =
    clive_channel_find-FoundIn (news ∷ onlive ∷ []) wanted onlive finds_onlive

abbrev host : List ℕ
host = b'1' ∷ b'.' ∷ b'2' ∷ []

abbrev port : List ℕ
port = 9 ∷ 0 ∷ 9 ∷ 1 ∷ []

-- 65537 is read as port 1
wraps :
    parse_url (udp_prefix ++ address host (6 ∷ 5 ∷ 5 ∷ 3 ∷ 7 ∷ []) [])
    ≡ endpoint (record {
      ip_addr = host;
      sport = value_of (6 ∷ 5 ∷ 5 ∷ 3 ∷ 7 ∷ []) % 2 ^ 16;
      location = [];
    })
wraps =
    (parse_url-socket host (6 ∷ 5 ∷ 5 ∷ 3 ∷ 7 ∷ []) (refl, (refl, (refl, tt))) (omega arith)
      (omega arith) (omega arith)).1

abbrev any_url : List ℕ
any_url = udp_prefix ++ host

made : clive_new_channel any_url (b'a' ∷ []) 7 1 ≡ some (fresh_channel any_url 7 1)
unfolding clive_new_channel parse_url parse_socket input_protocol starts_with strncmp_eq strchr
made = refl

-- four bytes, of which 1 and 2 are taken
abbrev half : Kfifo
half = record { buffer = 1 ∷ 2 ∷ 0 ∷ 0 ∷ []; size = 4; in_offset = 2; out_offset = 0 }

half-IsValid : IsValid 2 half
unfolding len sub32
half-IsValid = omega arith

abbrev later : Kfifo
later = record { buffer = 5 ∷ 6 ∷ 3 ∷ 4 ∷ []; size = 4; in_offset = 6; out_offset = 2 }

fills : fill_loop (2 ∷ []) half (3 ∷ 4 ∷ 5 ∷ 6 ∷ []) [] ≡ some (later, 1 ∷ 2 ∷ [])
unfolding fill_loop put get raw_get reset_if_empty copy_to copy_from add32 sub32
fills = refl

fill_loop-contents_example :
    (1 ∷ 2 ∷ []) ++ contents later ≡ [] ++ (contents half ++ 3 ∷ 4 ∷ 5 ∷ 6 ∷ [])
fill_loop-contents_example =
    (fill_loop-contents 2 (2 ∷ []) half (3 ∷ 4 ∷ 5 ∷ 6 ∷ []) [] later (1 ∷ 2 ∷ []) half-IsValid
      fills).0

room_for_one : 3 ≤ 1 + (4 - len half)
unfolding len sub32
room_for_one = omega arith

fill_loop-total_example :
    (r : Kfifo × List ℕ) × (fill_loop (2 ∷ []) half (3 ∷ 4 ∷ 5 ∷ []) [] ≡ some r)
fill_loop-total_example =
    fill_loop-total 2 (2 ∷ []) half (3 ∷ 4 ∷ 5 ∷ []) [] half-IsValid (omega arith, tt) room_for_one

-- nothing is registered, and descriptor 7 is accepted
abbrev no_entries : Entries
no_entries s = none

clive_channel_start-Started_example :
    Started tiny no_entries news (clive_channel_start tiny no_entries news)
clive_channel_start-Started_example =
    clive_channel_start-Started tiny no_entries news (omega arith) (omega arith)

-- a channel with a TS media, whose ring is half full
abbrev tuned : Channel
tuned = record news { ts_media = some 3 }

abbrev room : World
room = record {
  fifos = λ p. half;
  medias = λ m. record { pack_type = unknown; input_media_type = undetected; output_pads = 4 ∷ [] };
  tasks = [];
}

first_datagram-ts_example :
    ((first_datagram true true 0x47 (1 ∷ []) tuned room).1.medias 3).pack_type ≡ ts2ts
first_datagram-ts_example = (first_datagram-ts 2 room tuned 3 (1 ∷ []) half-IsValid refl).3

abbrev with_room : Table
with_room = record { next = 3; limit = 8; sockets = λ s. none }

abbrev no_room : Table
no_room = record { next = 3; limit = 3; sockets = λ s. none }

abbrev local_url : List ℕ
local_url = udp_prefix ++ address host port []

new_channel-IsOpen_example :
    (new_channel tiny_sockets with_room local_url [] 1 (pos 0)).0
    ≡ some (fresh_channel local_url 3 1)
new_channel-IsOpen_example =
    (new_channel-IsOpen tiny_sockets with_room host port [] 1 3 3 (pos 0) (refl, (refl, (refl, tt)))
      (omega arith) (omega arith) (omega arith) tiny-obliging refl refl).0

local_is_listening : is_listening (input_protocol local_url) ≡ true
unfolding input_protocol starts_with strncmp_eq
local_is_listening = refl

no_socket-aborts_example :
    SameSockets
      (λ (k : Table). k.sockets)
      no_room
      (new_channel tiny_sockets no_room local_url [] 1 (pos 0)).1
no_socket-aborts_example =
    (no_socket-aborts tiny_sockets tiny no_room (λ s. none) local_url [] host
      (value_of port % 2 ^ 16) 1 [] (pos 0)
      (parse_url-socket host port (refl, (refl, (refl, tt))) (omega arith) (omega arith)
        (omega arith)).1
      local_is_listening (λ kind. refl)).0

-- one datagram, and then no more
abbrev one_datagram : List Datagram
one_datagram = datagram 0x47 (1 ∷ []) ∷ failure eagain ∷ []

abbrev received : Channel × World
received = first_datagram true true 0x47 (1 ∷ []) tuned room

one_received :
    udp_recv true true eagain one_datagram [] tuned room ≡ some (cl_ok, received.0, received.1, [])
unfolding udp_recv detecting receive
one_received = refl

udp_recv-Handed_example :
    ([] ++ contents (received.1.fifos 1)
      ≡ contents half ++ arrived undetected half eagain one_datagram)
    × IsValid 2 (received.1.fifos 1)
udp_recv-Handed_example =
    udp_recv-Handed true true 2 eagain one_datagram [] tuned room cl_ok received.0 received.1 []
      half-IsValid one_received
