-- ===== src/Http.antt =====
-- http/http.c: the HTTP server. A client's request names a channel; the task of that name has a ring,
-- which becomes an output of the channel, and clients, to which a thread writes what the ring holds.
pub mod Request
pub mod Line
pub mod Serve
pub mod Writer
pub mod Taking
pub mod Draining
pub mod Open
pub mod Pads
mod Tests
use cliveserver.Base.{
  ℕ, zero, suc, ◌+◌, ◌*◌, ◌≡◌, Bool, true, false, Option, none, some, List, [], ◌∷◌, ◌++◌, ltb,
  if◌then◌else◌, length, take, set,
}
use cliveserver.Base.Int.{ℤ}
use cliveserver.Kfifo.{Kfifo, alloc, len, get}
use cliveserver.Event.{
  Con, new_connection, Epoll, Run, ◌>>=◌, returned, event_add_conn, event_del_out,
}
use cliveserver.Core.{Code, cl_ok}
use cliveserver.Text.{starts_with}
use cliveserver.Media.{World, update}
use cliveserver.Channel.{Channel}

-- `HTTP_Task`: the descriptors of its clients, its ring by address, and its name
pub record HttpTask : Type 0 where
  pub clients : List ℕ
  pub buffer : ℕ
  pub channel_name : List ℕ

-- `channels` of http.c, beside the registry of channel.c and the rings and medias
pub record Server : Type 0 where
  pub tasks : List HttpTask
  pub registry : List Channel
  pub world : World

-- `struct http_client`: the bytes of `rbuffer` up to `rlen`; those behind are zero
pub record HttpClient : Type 0 where
  pub connection : Con
  pub rbuffer : List ℕ

-- What one request is given: the address of a fresh ring, and whether `ListAdd` gets its entries,
-- for a client the entry in the task with that ring.
pub record Memory : Type 0 where
  pub ring : ℕ
  pub task_entry : Bool
  pub client_entry : ℕ → Bool
  pub pad_entry : Bool

-- A name is cut to CHANNEL_NAME_SIZE bytes.
pub http_add_task : Server → List ℕ → Memory → Server
http_add_task server name m =
    let w = server.world in
    let w' : World = record w { fifos = update w.fifos m.ring (alloc (128 * 1024)) } in
    let task : HttpTask = record { clients = []; buffer = m.ring; channel_name = take 48 name } in
    record server {
      tasks = if m.task_entry then server.tasks ++ (task ∷ []) else server.tasks;
      world = w';
    }

-- every task whose name begins `name` gets the client
pub http_add_client : List HttpTask → List ℕ → ℕ → Memory → List HttpTask
http_add_client [] name fd m = []
http_add_client (p ∷ tasks) name fd m =
    (if starts_with name p.channel_name
      then (if m.client_entry p.buffer then record p { clients = p.clients ++ (fd ∷ []) } else p)
      else p)
    ∷ http_add_client tasks name fd m

pub http_task_is_existed : List HttpTask → List ℕ → Bool
http_task_is_existed [] name = false
http_task_is_existed (p ∷ tasks) name =
    let rest = http_task_is_existed tasks name in
    if starts_with name p.channel_name then true else rest

-- With no match the loop leaves `p` at the last task.
pub http_task_find_from : Option HttpTask → List HttpTask → List ℕ → Option HttpTask
http_task_find_from p [] name = p
http_task_find_from p (q ∷ tasks) name =
    let rest = http_task_find_from (some q) tasks name in
    if starts_with name q.channel_name then some q else rest

pub http_task_find : List HttpTask → List ℕ → Option HttpTask
unfolding http_task_find_from
http_task_find tasks name = http_task_find_from none tasks name

module _ (epoll : Epoll) where
  -- `http_recv` on the answer of `accept`: a new client's descriptor, or none
  pub http_recv : epoll.Kernel → Option ℕ → Run (Code × Option HttpClient × epoll.Kernel)
  http_recv k none = returned (cl_ok, none, k)
  http_recv k (some client) = event_add_conn epoll k (new_connection client) >>= λ (_, conn, k').
      event_del_out epoll k' conn >>= λ (_, conn', k'').
      returned (cl_ok, some (record { connection = conn'; rbuffer = [] }), k'')

  -- over the socket that it opened; the results of the two registrations are dropped
  pub clive_http_server_new : epoll.Kernel → ℕ → Run (Con × epoll.Kernel)
  clive_http_server_new k skt = event_add_conn epoll k (new_connection skt) >>= λ (_, conn, k').
      event_del_out epoll k' conn >>= λ (_, conn', k''). returned (conn', k'')

-- What `clive_write`, a `write` on a client's socket, which does not block, may do: it takes some of the
-- bytes, as many as it returns, or fails with EAGAIN or with another error.
pub data WriteResult : Type 0 where
  wrote : ℕ → WriteResult
  would_block : WriteResult
  write_error : WriteResult

-- `(ret < 0) && (errno != EAGAIN)`
abbrev pub fails : WriteResult → Bool
fails (wrote n) = false
fails would_block = false
fails write_error = true

-- how many bytes the socket took
abbrev pub taken_count : WriteResult → ℕ
taken_count (wrote n) = n
taken_count would_block = 0
taken_count write_error = 0

-- The loop over the clients of a task, by the descriptors on which `clive_write` fails with an
-- error other than EAGAIN: the clients kept, and those for which it is called, whatever their sockets
-- take. Removing an entry moves the iterator to the next one, and the loop moves it once more.
unfoldable pub write_clients : (ℕ → Bool) → List ℕ → List ℕ × List ℕ
write_clients gone [] = ([], [])
write_clients gone (c ∷ []) = ((if gone c then [] else c ∷ []), c ∷ [])
write_clients gone (c ∷ d ∷ clients) =
    let skipped = write_clients gone clients in
    let next = write_clients gone (d ∷ clients) in
    if gone c then (d ∷ skipped.0, c ∷ skipped.1) else (c ∷ next.0, c ∷ next.1)

-- What each of these sockets takes of the bytes. A count below the length and an EAGAIN are not looked
-- at: the other bytes are not offered again.
unfoldable pub deliveries : (ℕ → WriteResult) → List ℕ → List ℕ → List (ℕ × List ℕ)
deliveries results bytes [] = []
deliveries results bytes (c ∷ called) =
    (c, take (taken_count (results c)) bytes) ∷ deliveries results bytes called

-- the loop with the bytes: the clients kept, and what was taken, in the order of the calls
unfoldable pub send_bytes : (ℕ → WriteResult) → List ℕ → List ℕ → List ℕ × List (ℕ × List ℕ)
unfolding write_clients deliveries
send_bytes results bytes clients =
    let (kept, called) = write_clients (λ c. fails (results c)) clients in
    (kept, deliveries results bytes called)

-- What the calls of `clive_write` of a round return, by client and by the length they are given.
abbrev pub Writes : Type 0
Writes = ℕ → ℕ → WriteResult

-- the work of `Entry` on one task, with the bytes it fetched and what the clients' sockets took of them
unfoldable pub http_round :
    (ℕ → Kfifo) → HttpTask → Writes → (ℕ → Kfifo) × HttpTask × List ℕ × List (ℕ × List ℕ)
unfolding send_bytes
http_round fifos task writes =
    if ltb 0 (len (fifos task.buffer))
    then (let (bytes, fifo) = get (fifos task.buffer) 1024 in
        let (kept, sent) = send_bytes (λ c. writes c (length bytes)) bytes task.clients in
        (update fifos task.buffer fifo, record task { clients = kept }, bytes, sent))
    else (fifos, task, [], [])

abbrev pub nth_task : List HttpTask → ℕ → Option HttpTask
nth_task [] i = none
nth_task (task ∷ tasks) zero = some task
nth_task (task ∷ tasks) (suc i) = nth_task tasks i

-- One round of `Entry`: its current entry, by its place in the list, to which tasks are only
-- appended. With none it starts again at the head.
unfoldable pub http_entry_step :
    Writes → ((ℕ → Kfifo) × List HttpTask) × Option ℕ → ((ℕ → Kfifo) × List HttpTask) × Option ℕ
unfolding http_round
http_entry_step writes ((fifos, tasks), none) =
    ((fifos, tasks), (if ltb 0 (length tasks) then some 0 else none))
http_entry_step writes ((fifos, tasks), some i) = elim (nth_task tasks i) [
  | none ↦ ((fifos, tasks), none)
  | some task ↦
      let (fifos', task', _, _) = http_round fifos task writes in
      ((fifos', set tasks i task'), (if ltb (i + 1) (length tasks) then some (i + 1) else none))
]
