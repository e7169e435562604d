-- ===== src/Lib.antt =====
-- cliveserver: a media server that receives streams over UDP or TCP, repacks them and hands them to
-- HTTP clients.
--
-- A channel receives datagrams into its ring. A repacking thread takes them out of the ring, 1024
-- bytes at a time, and copies them into the rings that are the pads of the channel's two medias. An
-- HTTP task has such a ring, and a second thread writes what it holds to the task's clients. Two event
-- loops run the handlers of timers, channels, listeners and clients.
--
-- Base         helpers: numbers, lists, bits, integers, Boolean tests, threads that go round a list
-- Text         strncmp, strchr and strstr on C strings, as the bytes in front of the NUL
-- Run          ASSERT of src/common/util.h, which may end the process
-- Errno        the branches on errno that the handlers share
-- Kfifo        src/common/kfifo.c: kfifo_alloc, __kfifo_put, __kfifo_get, kfifo_get, kfifo_len, with
--              32-bit offsets that wrap, and one thread that puts beside one that gets
-- Event        src/common/epoll.c: event_add_in, event_del_in, event_add_out, event_del_out,
--              event_add_conn, event_del_conn, event_wait. epoll, with the descriptor of the event
--              base, is the parameter Epoll, with the documented effect of epoll_ctl; Event/Tiny is a concrete one. Event/Create has
--              event_base_create and event_base_destroy over a table of open descriptors
-- Memory       src/common/util.c: the allocation wrappers over the C library's allocator
-- Socket       src/common/tcp.c, src/common/udp.c, and of src/common/util.c the socket options and
--              clive_resolve, over the parameters Sockets and getaddrinfo; Socket/Tiny is a concrete
--              system
-- Config       src/main.c: the walk over the tokens that jsmn makes of the configuration
-- Core         src/common/core.c: clive_core_core over the handlers of a connection
-- LinkedList   src/common/list.c: lists on a store of entries, which faults at an access through NULL or
--              to a released entry, and the writing thread's loop over such a list of clients
-- Util         src/common/util.c: _clive_atoi, clive_valid_port, _clive_sendn, _clive_recvn
-- Timer        src/common/timer.c: creation, the deadline, the updates and the handlers; Timer/Memory has
--              the blocks and the descriptor of a timer
-- Log          src/common/log.c: levels, line buffers and the hexadecimal dump
-- Media        src/media/media.c and src/media/ts2ts.c: medias, tasks and a round of the repacking
--              thread. Rings and medias are behind addresses in World, as the code shares them
-- Channel      src/channel/channel.c: the registry, URLs, sockets, outputs, start and stop, UDP
--              input
-- Ts           src/media/ts.h, src/media/pat.c and src/media/pmt.c: patparse and pmtparse over the
--              packets that read gives, and the fields of a header and of a clock reference
-- Http         src/http/http.c: requests, tasks, clients and a round of the writing thread
-- Pipeline     from a channel's ring to the clients: the repacking and the writing thread one after the
--              other, and all three threads in any order
--
-- State is passed explicitly. A call that can end the process returns Run; a loop over the answers of
-- a system call is structural recursion on the list of these answers, and gives none when the list
-- ends before the loop does. The loop of udp_recv that waits for room in the ring recurses on the
-- requests that the repacking thread makes meanwhile, one for each time it goes round: the loop waits
-- for that thread, and ends once enough bytes have been taken. patparse and pmtparse count their
-- rounds down from 32768, as the code does. The loops over a list get one round more than the list's
-- count, which is enough when the store holds the list, and the loop of the hexadecimal dump as many
-- rounds as there are bytes, of which each takes some. No other fuel is used.
--
-- What clive_write returns, for each client and each number of bytes it is given, is an argument of the
-- rounds of Http: the bytes it takes, EAGAIN, or another error. The `int` of _clive_atoi wraps around where
-- C leaves an overflow undefined, and the `char` of the search for outputs is signed.
--
-- In the models of the threads a put and a get of one ring are single steps, interleaved call by call;
-- Kfifo/Threads interleaves the steps inside the calls. Memory is short only where an allocation is a
-- parameter: in Memory, Event/Create and Timer/Memory, and in the calloc of a list entry. Log lines are left out of
-- the models that write them.
--
-- Not modelled: threads and locks, clive_tcp_select, the readers of socket options, the clocks and the
-- printing of addresses in src/common/util.c, which nothing calls, the copy of jsmn in src/common, the
-- start in src/main.c beyond its configuration, and the files without code. Nothing calls the TS
-- parsers and the macros of src/media/ts.h yet.
pub mod Base
pub mod Channel
pub mod Config
pub mod Core
pub mod Errno
pub mod Event
pub mod Http
pub mod Kfifo
pub mod LinkedList
pub mod Log
pub mod Media
pub mod Memory
pub mod Pipeline
pub mod Run
pub mod Socket
pub mod Text
pub mod Timer
pub mod Ts
pub mod Util
