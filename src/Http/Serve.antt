-- ===== src/Http/Serve.antt =====
-- `conn_recv` of http.c: the answer to a request.
use cliveserver.Base.{ℕ, Bool, Option, none, some, List, [], ◌∷◌, ◌++◌, if◌then◌else◌}
use cliveserver.Errno.{Errno, eintr, eagain, other_error}
use cliveserver.Core.{Code, cl_ok, cl_error, cl_close}
use cliveserver.Media.{clive_media_add_output}
use cliveserver.Channel.{Channel, clive_channel_is_existed, clive_channel_find}
use cliveserver.Http.{
  Server, HttpTask, HttpClient, Memory, http_add_task, http_add_client, http_task_is_existed,
  http_task_find,
}
use cliveserver.Http.Request.{incomplete, no_slash, overrun, named, parse, asks_ts}

-- the texts that `send` is given; its length argument is that of `flv_head` for all three
pub data Head : Type 0 where
  flv_head ts_head error_head : Head

-- The end of a call: it reads outside the buffer or through a NULL pointer, or returns its code with
-- the heads sent, the client and the server.
pub data Served : Type 0 where
  crashed : Served
  served : Code → List Head → HttpClient → Server → Served

-- The task that watches a name, made if there is none, and the client added to it.
unfoldable pub watch : Server → List ℕ → ℕ → Memory → Server
watch server name fd m =
    let server' =
      if http_task_is_existed server.tasks name then server else http_add_task server name m in
    record server' { tasks = http_add_client server'.tasks name fd m }

abbrev pub media_of : Channel → Bool → Option ℕ
media_of channel wants_ts = if wants_ts then channel.ts_media else channel.flv_media

-- `clive_media_add_output` on the channel's media, which may be NULL
abbrev pub add_pad : Server → Option Channel → Option HttpTask → Bool → Memory → Option Server
add_pad server none task wants_ts m = some server
add_pad server (some channel) none wants_ts m = some server
add_pad server (some channel) (some task) wants_ts m = elim (media_of channel wants_ts) [
  | none ↦ none
  | some media ↦ some (record server {
    world = (clive_media_add_output server.world media task.buffer m.pad_entry).1;
  })
]

-- the part of `conn_recv` behind the name, in the media type that the name asks for
unfoldable pub answer : Server → HttpClient → Option (List ℕ) → Memory → Served
unfolding watch asks_ts
answer server client none m = served cl_close (error_head ∷ []) client server
answer server client (some name) m =
    let server' = watch server name client.connection.skt m in
    if clive_channel_is_existed server.registry (some name)
    then (elim (add_pad server' (clive_channel_find server.registry (some name))
        (http_task_find server'.tasks name) (asks_ts name) m) [
          | none ↦ crashed
          | some server'' ↦
              served cl_ok ((if asks_ts name then ts_head else flv_head) ∷ []) client server''
        ])
    else served cl_close (error_head ∷ []) client server

-- one return of `clive_read`
pub data Chunk : Type 0 where
  chunk : ℕ → List ℕ → Chunk
  eof : Chunk
  failure : Errno → Chunk

-- a read of at least one byte, at the end of what was read before
unfoldable pub on_bytes : Server → HttpClient → List ℕ → Memory → Served
unfolding parse answer
on_bytes server client bytes m =
    let text = client.rbuffer ++ bytes in
    elim (parse text) [
      | incomplete ↦ answer server (record client { rbuffer = text }) none m
      | no_slash ↦ served cl_error [] (record client { rbuffer = text }) server
      | overrun ↦ crashed
      | named name text' ↦ answer server (record client { rbuffer = text' }) (some name) m
    ]

-- `none` is a loop that still runs after these answers
pub conn_recv : Server → HttpClient → List Chunk → Memory → Option Served
unfolding on_bytes
conn_recv server client [] m = none
conn_recv server client (chunk b bytes ∷ answers) m = some (on_bytes server client (b ∷ bytes) m)
conn_recv server client (eof ∷ answers) m = some (served cl_close [] client server)
conn_recv server client (failure eintr ∷ answers) m = conn_recv server client answers m
conn_recv server client (failure eagain ∷ answers) m = some (served cl_ok [] client server)
conn_recv server client (failure (other_error e) ∷ answers) m = some (
    served cl_error [] (record client { connection = record client.connection { err = e } }) server)
