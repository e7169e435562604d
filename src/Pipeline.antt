-- ===== src/Pipeline.antt =====
-- The way of the bytes from a channel's ring to the clients of an HTTP task: the rounds of media.c and
-- of http.c, one after the other.
pub mod Delivery
pub mod Schedule
pub mod Parts
pub mod Moves
pub mod History
mod Tests
use cliveserver.Base.{ℕ, zero, suc, List, [], ◌++◌}
use cliveserver.Media.{World, Task, run_task}
use cliveserver.Http.{HttpTask, Writes, http_round}
use cliveserver.Http.Taking.{bytes_for}

-- The bytes that a client's socket takes in a number of rounds, in which each thread in turn does its
-- work on its task. `writes n` are the results of `clive_write` in the round with `n` more behind it.
unfoldable pub deliver : ℕ → World → Task → HttpTask → (ℕ → Writes) → ℕ → List ℕ
deliver zero w task http writes c = []
deliver (suc n) w task http writes c =
    let w' = run_task w task in
    let (fifos, http', bytes, sent) = http_round w'.fifos http (writes n) in
    bytes_for c sent ++ deliver n (record w' { fifos = fifos }) task http' writes c
