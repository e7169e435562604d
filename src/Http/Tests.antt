-- ===== src/Http/Tests.antt =====
-- The HTTP server's theorems at concrete requests and rings.
use cliveserver.Base.{map, take, if◌then◌else◌, none, some}
use cliveserver.Base.{ℕ, ◌≡◌, refl, true, none, some, List, [], ◌∷◌, ◌++◌, ◌==◌}
use cliveserver.Event.{new_connection}
use cliveserver.Kfifo.{Kfifo}
use cliveserver.Text.{starts_with, strncmp_eq, contains}
use cliveserver.Media.{ts2ts, ts}
use cliveserver.Channel.{
  Channel, udp, clive_channel_find, clive_channel_is_existed, find_loop, existed_loop,
}
use cliveserver.Http.{
  HttpTask, Server, HttpClient, Memory, WriteResult, wrote, would_block, write_error, taken_count,
  write_clients, deliveries, send_bytes, http_task_is_existed, http_task_find, http_task_find_from,
}
use cliveserver.Http.Request.{named, parse, asks_ts}
use cliveserver.Http.Line.{parse-request}
use cliveserver.Core.{cl_ok}
use cliveserver.Http.Serve.{served, answer, media_of}
use cliveserver.Http.Pads.{head, with_client, watched, answer-pads}
use cliveserver.Http.Writer.{send_bytes_lem}

abbrev on_ts : List ℕ
on_ts = b'o' ∷ b'n' ∷ b'_' ∷ b't' ∷ b's' ∷ []

abbrev get_slash : List ℕ
get_slash = b'G' ∷ b'E' ∷ b'T' ∷ b' ' ∷ []

abbrev version : List ℕ
version = b'H' ∷ b'T' ∷ b'T' ∷ b'P' ∷ 13 ∷ 10 ∷ []

has_line : contains (get_slash ++ b'/' ∷ (on_ts ++ b' ' ∷ version)) (13 ∷ 10 ∷ []) ≡ true
unfolding contains starts_with strncmp_eq
has_line = refl

parse-request_example :
    parse (get_slash ++ b'/' ∷ (on_ts ++ b' ' ∷ version))
    ≡ named on_ts (get_slash ++ b'/' ∷ (on_ts ++ 0 ∷ version))
parse-request_example =
    (parse-request get_slash on_ts version (refl, (refl, (refl, (refl, tt))))
      (refl, (refl, (refl, (refl, tt)))) (refl, (refl, (refl, (refl, (refl, tt)))))
      (refl, (refl, (refl, (refl, (refl, tt)))))
      (refl, (refl, (refl, (refl, (refl, (refl, (refl, (refl, (refl, (refl, tt))))))))))
      (refl, (refl, (refl, (refl, (refl, (refl, tt)))))) has_line).0

-- A channel with a TS media at 3, and the task of its name, which has one client and whose ring at 4
-- is a pad of that media.
abbrev idle : Kfifo
idle = record { buffer = 8 ∷ 9 ∷ 0 ∷ 0 ∷ []; size = 4; in_offset = 2; out_offset = 0 }

abbrev onlive : Channel
onlive = record {
  connection = new_connection 7;
  channel_name = b'o' ∷ b'n' ∷ [];
  input_protocol = some udp;
  input_media_type = ts;
  buffer = 1;
  ts_media = some 3;
  flv_media = none;
}

abbrev task : HttpTask
task = record { clients = 11 ∷ []; buffer = 4; channel_name = on_ts }

abbrev server : Server
server = record {
  tasks = task ∷ [];
  registry = onlive ∷ [];
  world = record {
    fifos = λ p. idle;
    medias = λ m. record { pack_type = ts2ts; input_media_type = ts; output_pads = 4 ∷ [] };
    tasks = [];
  };
}

abbrev second : HttpClient
second = record { connection = new_connection 12; rbuffer = [] }

abbrev memory : Memory
memory = record { ring = 20; task_entry = true; client_entry = λ ring. true; pad_entry = true }

exists_on : clive_channel_is_existed (onlive ∷ []) (some on_ts) ≡ true
unfolding clive_channel_is_existed existed_loop starts_with strncmp_eq
exists_on = refl

finds_on : clive_channel_find (onlive ∷ []) (some on_ts) ≡ some onlive
unfolding clive_channel_find find_loop starts_with strncmp_eq
finds_on = refl

asks : asks_ts on_ts ≡ true
unfolding asks_ts contains starts_with strncmp_eq
asks = refl

watched_on : watched server on_ts memory ≡ some task
unfolding watched http_task_is_existed http_task_find http_task_find_from starts_with strncmp_eq
watched_on = refl

media_on : media_of onlive (asks_ts on_ts) ≡ some 3
media_on = rw asks refl

-- the second client of a name makes the ring a pad twice
answer-pads_example :
    (server' : Server) × (answer server second (some on_ts) memory
      ≡ served cl_ok (head on_ts ∷ []) second server')
    × (http_task_find server'.tasks on_ts ≡ some (with_client task 12))
    × ((server'.world.medias 3).output_pads ≡ 4 ∷ 4 ∷ [])
answer-pads_example =
    answer-pads server second on_ts memory task onlive 3 (refl, refl, λ ring. refl) exists_on
      finds_on media_on watched_on

-- the first client's socket takes two of three bytes, the second is gone, the fourth would block
abbrev mixed : ℕ → WriteResult
mixed c = if c == 11 then wrote 2 else if c == 12 then write_error else would_block

send_bytes_lem_example :
    let (kept, sent) = send_bytes mixed (5 ∷ 6 ∷ 7 ∷ []) ((11 ∷ []) ++ 12 ∷ 13 ∷ 14 ∷ []) in
    let (kept', sent') = send_bytes mixed (5 ∷ 6 ∷ 7 ∷ []) (14 ∷ []) in
    (kept ≡ (11 ∷ []) ++ 13 ∷ kept')
    × (sent
        ≡ map (λ b. (b, take (taken_count (mixed b)) (5 ∷ 6 ∷ 7 ∷ []))) (11 ∷ [])
          ++ (12, []) ∷ sent')
send_bytes_lem_example =
    send_bytes_lem mixed (5 ∷ 6 ∷ 7 ∷ []) (11 ∷ []) 12 13 (14 ∷ []) (refl, tt) refl

-- The first client's last byte, and all bytes of the others, are lost.
mixed_sent :
    send_bytes mixed (5 ∷ 6 ∷ 7 ∷ []) (11 ∷ 12 ∷ 13 ∷ 14 ∷ [])
    ≡ (11 ∷ 13 ∷ 14 ∷ [], (11, 5 ∷ 6 ∷ []) ∷ (12, []) ∷ (14, []) ∷ [])
unfolding send_bytes deliveries write_clients
mixed_sent = refl
