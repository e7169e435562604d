-- ===== src/Pipeline/Moves.antt =====
-- What each turn of the threads does to the bytes on their way to a client.
use cliveserver.Base.{
  ℕ, ◌+◌, ◌-◌, ◌≤◌, ◌≡◌, refl, sym, ap, ◌∙◌, true, false, List, [], ◌++◌, ◌==◌, length, take, min,
  arith, append_assoc, append-nil, length-append, length-take, take-append-drop, ==_self,
}
use mathlib.Core.Path.{ap₂, subst}
use cliveserver.Base.Sublists.{Sublist, Sublist-refl}
use cliveserver.Kfifo.{len}
use cliveserver.Kfifo.Inv.{IsValid, contents}
use cliveserver.Media.{World, Task, update, run_task}
use cliveserver.Media.Fanout.{has, Distinct}
use cliveserver.Media.Round.{task_pads, batch, ring_lem, pad_lem, other_lem, has-ne}
use cliveserver.Media.Turns.{run_task-rings}
use cliveserver.Channel.Flow.{stored, count, stored-IsValid, contents-stored}
use cliveserver.Http.{HttpTask, Writes, taken_count, http_round}
use cliveserver.Http.Writer.{NoneFails}
use cliveserver.Http.Taking.{copies, bytes_for, http_round-Took}
use cliveserver.Pipeline.Schedule.{
  Flow, store, repack, write, Turn, storing, repacking, writing, elsewhere, touching,
}
use cliveserver.Pipeline.Parts.{hand_over, length_hand_over, taken_in_order, length_taken}

-- The HTTP task's ring is one of the distinct pads of the repacking task, whose own ring is not; both
-- are valid, and the client `c` of the HTTP task is listed once.
pub record Wired (k j : ℕ) (task : Task) (c : ℕ) (w : World) (http : HttpTask) : Type 0 where
  pub apart : has task.buffer (task_pads w task) ≡ false
  pub distinct : Distinct (task_pads w task)
  pub connected : has http.buffer (task_pads w task) ≡ true
  pub ring_ok : IsValid k (w.fifos task.buffer)
  pub pad_ok : IsValid j (w.fifos http.buffer)
  pub once : copies c http.clients ≡ 1

-- The bytes on their way: those the client has taken, then those in the output's ring, then those in the channel's.
abbrev pub on_the_way : Task → Flow → List ℕ
on_the_way task s =
    s.written ++ (contents (s.world.fifos s.http.buffer) ++ contents (s.world.fifos task.buffer))

-- how many bytes a full ring dropped, or the client's socket did not take
abbrev pub lost : Flow → ℕ
lost s = s.dropped + s.unsent

module _ (k j : ℕ) (task : Task) (c : ℕ) where
  -- what a turn does to them
  pub record Moves (s t : Flow) : Type 0 where
    pub wired : Wired k j task c t.world t.http
    pub more : List ℕ
    pub stored_lem : t.stored ≡ s.stored ++ more
    pub in_order : Sublist (on_the_way task t) (on_the_way task s ++ more)
    pub counted :
        length (on_the_way task t) + lost t ≡ (length (on_the_way task s) + lost s) + length more

  ring_ne :
      {w : World} {http : HttpTask} → Wired k j task c w http → (task.buffer == http.buffer) ≡ false
  ring_ne {w} {http} i =
      ground (arith, has-ne http.buffer task.buffer (task_pads w task) i.connected i.apart)

  -- a turn that keeps the two rings, and what it is wired to, moves nothing
  untouched :
      (s : Flow) (w : World)
      → Wired k j task c s.world s.http
      → task_pads w task ≡ task_pads s.world task
      → w.fifos task.buffer ≡ s.world.fifos task.buffer
      → w.fifos s.http.buffer ≡ s.world.fifos s.http.buffer
      → Moves s (record s { world = w })
  untouched s w i pads ring pad = record {
    wired = record {
      apart = rw pads i.apart;
      distinct = rw pads i.distinct;
      connected = rw pads i.connected;
      ring_ok = rw ring i.ring_ok;
      pad_ok = rw pad i.pad_ok;
      once = i.once;
    };
    more = [];
    stored_lem = sym (append-nil s.stored);
    in_order = rw (ring, pad, append-nil) (Sublist-refl (on_the_way task s));
    counted = rw (ring, pad) (omega arith);
  }

  -- a turn that only hands on, or appends what it stored
  whole :
      (s t : Flow) (more : List ℕ)
      → Wired k j task c t.world t.http
      → t.stored ≡ s.stored ++ more
      → on_the_way task t ≡ on_the_way task s ++ more
      → lost t ≡ lost s
      → Moves s t
  whole s t more i e same kept = record {
    wired = i;
    more = more;
    stored_lem = e;
    in_order =
        subst (λ l. Sublist l (on_the_way task s ++ more)) (sym same)
          (Sublist-refl (on_the_way task s ++ more));
    counted = ap₂ ◌+◌ (ap length same ∙ length-append (on_the_way task s) more) kept ∙ omega arith;
  }

  store-Moves :
      (s : Flow) (rest : List ℕ) → Wired k j task c s.world s.http → Moves s (store task c s rest)
  unfolding store
  store-Moves s rest i =
      let fifo = s.world.fifos task.buffer in
      let ne : (s.http.buffer == task.buffer) ≡ false = ground (arith, ring_ne i) in
      let pad : (update s.world.fifos task.buffer (stored i.ring_ok rest)) s.http.buffer
          ≡ s.world.fifos s.http.buffer =
        rw ne refl in
      let ring : (update s.world.fifos task.buffer (stored i.ring_ok rest)) task.buffer
          ≡ stored i.ring_ok rest =
        rw (==_self task.buffer) refl in
      whole s (store task c s rest) (take (count i.ring_ok rest) rest)
        (record {
          apart = i.apart;
          distinct = i.distinct;
          connected = i.connected;
          ring_ok = subst (IsValid k) (sym ring) (stored-IsValid i.ring_ok rest);
          pad_ok = subst (IsValid j) (sym pad) i.pad_ok;
          once = i.once;
        })
        refl
        (ap₂ (λ p r. s.written ++ (contents p ++ contents r)) pad ring
          ∙ rw (contents-stored i.ring_ok rest, append_assoc, append_assoc) refl)
        refl

  -- a batch that fits drops nothing
  pub repack_roomy :
      (s : Flow)
      → length (batch s.world task)
        ≤ (s.world.fifos s.http.buffer).size - len (s.world.fifos s.http.buffer)
      → (repack task c s).dropped ≡ s.dropped
  unfolding repack
  repack_roomy s h =
      let b = batch s.world task in
      let pad = s.world.fifos s.http.buffer in
      omega (arith, h, length-take (min (length b) (pad.size - len pad)) b)

  repack-Moves : (s : Flow) → Wired k j task c s.world s.http → Moves s (repack task c s)
  unfolding repack
  repack-Moves s i =
      let w = s.world in
      let b = batch w task in
      let n = min (length b) ((w.fifos s.http.buffer).size - len (w.fifos s.http.buffer)) in
      let (rest, ring_ok) = ring_lem w task i.apart k i.ring_ok in
      let (gained, pad_ok) =
        pad_lem w task i.apart k j s.http.buffer i.distinct i.ring_ok i.connected i.pad_ok in
      let pads = ap (λ v. task_pads v task) (run_task-rings w task) in
      let ring = contents (w.fifos task.buffer) in
      let left : b ++ contents ((run_task w task).fifos task.buffer) ≡ ring =
        ap (λ l. b ++ l) rest ∙ take-append-drop 1024 ring in
      record {
        wired = record {
          apart = subst (λ ps. has task.buffer ps ≡ false) (sym pads) i.apart;
          distinct = subst Distinct (sym pads) i.distinct;
          connected = subst (λ ps. has s.http.buffer ps ≡ true) (sym pads) i.connected;
          ring_ok = ring_ok;
          pad_ok = pad_ok;
          once = i.once;
        };
        more = [];
        stored_lem = sym (append-nil s.stored);
        in_order =
            hand_over s.written (contents (w.fifos s.http.buffer)) b
              (contents ((run_task w task).fifos s.http.buffer)) ring
              (contents ((run_task w task).fifos task.buffer)) n gained left;
        counted =
            length_hand_over s.written (contents (w.fifos s.http.buffer)) b
              (contents ((run_task w task).fifos s.http.buffer)) ring
              (contents ((run_task w task).fifos task.buffer)) n gained left s.dropped s.unsent;
      }

  write-Moves :
      (s : Flow) (writes : Writes)
      → NoneFails writes s.http.clients
      → Wired k j task c s.world s.http
      → Moves s (write task c s writes)
  unfolding write
  write-Moves s writes alive i =
      let r = http_round s.world.fifos s.http writes in
      let took = http_round-Took j s.world.fifos s.http writes i.pad_ok alive in
      let ring : r.0 task.buffer ≡ s.world.fifos task.buffer =
        took.others task.buffer (ring_ne i) in
      let n = taken_count (writes c (length r.2)) in
      let taken : bytes_for c r.3 ≡ take n r.2 = took.sent_lem c i.once in
      let rings : contents (r.0 r.1.buffer) ++ contents (r.0 task.buffer)
          ≡ contents (r.0 s.http.buffer) ++ contents (s.world.fifos task.buffer) =
        ap₂ (λ b f. contents (r.0 b) ++ contents f) took.buffer_lem ring in
      let split : r.2 ++ (contents (r.0 s.http.buffer) ++ contents (s.world.fifos task.buffer))
          ≡ contents (s.world.fifos s.http.buffer) ++ contents (s.world.fifos task.buffer) =
        sym (append_assoc r.2 (contents (r.0 s.http.buffer)) (contents (s.world.fifos task.buffer)))
        ∙ ap (λ l. l ++ contents (s.world.fifos task.buffer)) took.split in
      record {
        wired = record {
          apart = i.apart;
          distinct = i.distinct;
          connected =
              subst (λ b. has b (task_pads s.world task) ≡ true) (sym took.buffer_lem) i.connected;
          ring_ok = subst (IsValid k) (sym ring) i.ring_ok;
          pad_ok = subst (λ b. IsValid j (r.0 b)) (sym took.buffer_lem) took.valid;
          once = ap (copies c) took.clients_lem ∙ i.once;
        };
        more = [];
        stored_lem = sym (append-nil s.stored);
        in_order = taken_in_order s.written r.2 (bytes_for c r.3) _ _ _ n taken rings split;
        counted =
            length_taken s.written r.2 (bytes_for c r.3) _ _ _ n taken rings split s.dropped
              s.unsent;
      }

  pub any-Moves : (s t : Flow) → Wired k j task c s.world s.http → Turn task c s t → Moves s t
  any-Moves s t i (storing rest) = store-Moves s rest i
  any-Moves s t i repacking = repack-Moves s i
  any-Moves s t i (writing writes alive) = write-Moves s writes alive i
  any-Moves s t i (elsewhere other apart ring pad ring' pad') =
      untouched s (run_task s.world other) i
        (ap (λ v. task_pads v task) (run_task-rings s.world other))
        (other_lem s.world other apart task.buffer ring ring')
        (other_lem s.world other apart s.http.buffer pad pad')
  any-Moves s t i (touching p fifo ring pad) =
      untouched s (record s.world { fifos = update s.world.fifos p fifo }) i refl (rw ring refl)
        (rw pad refl)
