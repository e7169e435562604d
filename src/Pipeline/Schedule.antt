-- ===== src/Pipeline/Schedule.antt =====
-- The three threads that move a channel's bytes, in any order: channel.c puts datagrams into the
-- channel's ring, media.c moves them on to the rings of the outputs, http.c writes them to clients. A
-- step is one `kfifo_put` of the first, or one round on a task of the others; steps within the calls
-- of one ring are in Kfifo.Threads.
use cliveserver.Base.{ℕ, ◌+◌, ◌-◌, ◌≡◌, false, List, [], ◌++◌, ◌==◌, length, take}
use cliveserver.Kfifo.{Kfifo, put}
use cliveserver.Media.{World, Task, update, run_task}
use cliveserver.Media.Fanout.{has, fitting}
use cliveserver.Media.Round.{task_pads, batch}
use cliveserver.Http.{HttpTask, Writes, http_round}
use cliveserver.Http.Writer.{NoneFails}
use cliveserver.Http.Taking.{bytes_for}

-- The world, the HTTP task, and what happened so far: the bytes that puts took into the channel's
-- ring, those that one client's socket took, how many a full output ring dropped, and how many were
-- offered to the client's socket and not taken.
pub record Flow : Type 0 where
  pub world : World
  pub http : HttpTask
  pub stored : List ℕ
  pub written : List ℕ
  pub dropped : ℕ
  pub unsent : ℕ

abbrev pub at_rest : World → HttpTask → Flow
at_rest w http = record {
  world = w;
  http = http;
  stored = [];
  written = [];
  dropped = 0;
  unsent = 0;
}

module _ (task : Task) (c : ℕ) where
  -- a turn of the loop in `udp_recv`: what fits of the rest of a datagram is stored
  unfoldable pub store : Flow → List ℕ → Flow
  store s rest =
      let w = s.world in
      let (count, fifo) = put (w.fifos task.buffer) rest (length rest) in
      record s {
        world = record w { fifos = update w.fifos task.buffer fifo };
        stored = s.stored ++ take count rest;
      }

  -- a round of the repacking thread on the channel's task
  unfoldable pub repack : Flow → Flow
  repack s =
      let bytes = batch s.world task in
      let kept = fitting (s.world.fifos s.http.buffer) bytes in
      record s { world = run_task s.world task; dropped = s.dropped + (length bytes - length kept) }

  -- a round of the writing thread on the HTTP task, by what its writes return
  unfoldable pub write : Flow → Writes → Flow
  write s writes =
      let w = s.world in
      let (fifos, http, bytes, sent) = http_round w.fifos s.http writes in
      let taken = bytes_for c sent in
      record s {
        world = record w { fifos = fifos };
        http = http;
        written = s.written ++ taken;
        unsent = s.unsent + (length bytes - length taken);
      }

  -- Any of these, the writing round if no write to a client of the task fails with an error other than
  -- EAGAIN, or a round of the repacking thread on another task, or a change of another ring
  pub data Turn (s : Flow) : Flow → Type 0 where
    storing : (rest : List ℕ) → Turn s (store s rest)
    repacking : Turn s (repack s)
    writing : (writes : Writes) → NoneFails writes s.http.clients → Turn s (write s writes)
    elsewhere :
        (other : Task)
        → has other.buffer (task_pads s.world other) ≡ false
        → has task.buffer (task_pads s.world other) ≡ false
        → has s.http.buffer (task_pads s.world other) ≡ false
        → (task.buffer == other.buffer) ≡ false
        → (s.http.buffer == other.buffer) ≡ false
        → Turn s (record s { world = run_task s.world other })
    touching :
        (p : ℕ) (fifo : Kfifo)
        → (task.buffer == p) ≡ false
        → (s.http.buffer == p) ≡ false
        → Turn s (record s { world = record s.world { fifos = update s.world.fifos p fifo } })

  pub data Scheduled (start : Flow) : Flow → Type 0 where
    at_first : Scheduled start start
    later : {s t : Flow} → Scheduled start s → Turn s t → Scheduled start t
