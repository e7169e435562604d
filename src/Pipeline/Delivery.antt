-- ===== src/Pipeline/Delivery.antt =====
-- What the clients of a task get is what the channel's ring holds.
use cliveserver.Base.{nil_of_length}
use cliveserver.Base.{
  ℕ, zero, suc, ◌*◌, ◌-◌, ◌≤◌, ◌^◌, ◌≡◌, sym, ap, ◌∙◌, true, false, List, [], ◌∷◌, ◌++◌, ◌==◌,
  length, take, drop, min, arith, take-append-drop, take-length, length-take, length-drop,
}
use mathlib.Core.Path.{ap₂, subst}
use cliveserver.Kfifo.{Kfifo, len}
use cliveserver.Kfifo.Inv.{IsValid, contents}
use cliveserver.Kfifo.Window.{length-window}
use cliveserver.Media.{World, Task, run_task}
use cliveserver.Media.Fanout.{has, Distinct, fitting}
use cliveserver.Media.Round.{task_pads, batch, ring_lem, pad_lem, has-ne}
use cliveserver.Media.Turns.{run_task-rings}
use cliveserver.Http.{HttpTask, Writes, wrote, fails, taken_count, http_round}
use cliveserver.Http.Writer.{NoneFails}
use cliveserver.Http.Taking.{copies, bytes_for, Took, http_round-Took}
use cliveserver.Pipeline.{deliver}

-- A round of the writing thread that finds at most 1024 bytes empties the ring.
record Written (j : ℕ) (fifos : ℕ → Kfifo) (task : HttpTask) (writes : Writes)
    (r : (ℕ → Kfifo) × HttpTask × List ℕ × List (ℕ × List ℕ)) : Type 0 where
  took : Took j fifos task writes r
  open took use *
  bytes_lem : r.2 ≡ contents (fifos task.buffer)
  empties : contents (r.0 task.buffer) ≡ []

append_nil_of_self : (xs ys : List ℕ) → xs ++ ys ≡ xs → ys ≡ []
append_nil_of_self [] ys e = e
append_nil_of_self (x ∷ xs) ys e = append_nil_of_self xs ys (ap (drop 1) e)

http_round-Written :
    (j : ℕ) (fifos : ℕ → Kfifo) (task : HttpTask) (writes : Writes)
    → IsValid j (fifos task.buffer)
    → length (contents (fifos task.buffer)) ≤ 1024
    → NoneFails writes task.clients
    → Written j fifos task writes (http_round fifos task writes)
http_round-Written j fifos task writes v few alive =
    let r = http_round fifos task writes in
    let took = http_round-Took j fifos task writes v alive in
    let all = took.first ∙ take-length 1024 (contents (fifos task.buffer)) few in
    record {
      took = took;
      bytes_lem = all;
      empties =
          append_nil_of_self (contents (fifos task.buffer)) _
            (ap (λ b. b ++ contents (r.0 task.buffer)) (sym all) ∙ took.split);
    }

-- A task of the repacking thread, one of whose pads is the ring of an HTTP task: an empty ring with
-- room for a piece of 1024 bytes, and with a client that is listed once.
pub record Ready (k j : ℕ) (w : World) (task : Task) (http : HttpTask) (c : ℕ) : Type 0 where
  pub apart : has task.buffer (task_pads w task) ≡ false
  pub distinct : Distinct (task_pads w task)
  pub connected : has http.buffer (task_pads w task) ≡ true
  pub ring_ok : IsValid k (w.fifos task.buffer)
  pub pad_ok : IsValid j (w.fifos http.buffer)
  pub wide : 1024 ≤ 2 ^ j
  pub nothing : contents (w.fifos http.buffer) ≡ []
  pub once : copies c http.clients ≡ 1

-- a write that takes all that it is given does not fail
none_fails :
    (writes : ℕ → Writes)
    → ((n d length : ℕ) → writes n d length ≡ wrote length)
    → (n : ℕ) (clients : List ℕ) → NoneFails (writes n) clients
none_fails writes all_taken n [] size = tt
none_fails writes all_taken n (d ∷ clients) size =
    (ap fails (all_taken n d size), none_fails writes all_taken n clients size)

length-contents : (fifo : Kfifo) → length (contents fifo) ≡ len fifo
length-contents fifo = length-window fifo.size fifo.buffer fifo.out_offset (len fifo)

fits_all :
    (fifo : Kfifo) (bytes : List ℕ)
    → length bytes ≤ fifo.size
    → contents fifo ≡ []
    → fitting fifo bytes ≡ bytes
fits_all fifo bytes small empty =
    take-length (min (length bytes) (fifo.size - len fifo)) bytes
      (omega (arith, small, length-contents fifo, ap length empty))

module _ (k j : ℕ) (w : World) (task : Task) (http : HttpTask) (c : ℕ) (writes : ℕ → Writes)
    (all_taken : (n d length : ℕ) → writes n d length ≡ wrote length) (n : ℕ)
    (r : Ready k j w task http c) where
  abbrev w' : World
  w' = run_task w task

  small_batch : length (batch w task) ≤ 1024
  small_batch = omega (arith, length-take 1024 (contents (w.fifos task.buffer)))

  pad_holds : contents (w'.fifos http.buffer) ≡ batch w task
  pad_holds =
      (pad_lem w task r.apart k j http.buffer r.distinct r.ring_ok r.connected r.pad_ok).0
      ∙ ap (λ c. c ++ fitting (w.fifos http.buffer) (batch w task)) r.nothing
      ∙ fits_all (w.fifos http.buffer) (batch w task)
          (omega (arith, small_batch, r.wide, r.pad_ok.sized)) r.nothing

  round_lem : Written j w'.fifos http (writes n) (http_round w'.fifos http (writes n))
  round_lem =
      http_round-Written j w'.fifos http (writes n)
        (pad_lem w task r.apart k j http.buffer r.distinct r.ring_ok r.connected r.pad_ok).1
        (omega (arith, small_batch, ap length pad_holds))
        (none_fails writes all_taken n http.clients)

  same_pads : task_pads w' task ≡ task_pads w task
  same_pads = ap (λ v. task_pads v task) (run_task-rings w task)

  abbrev after : (ℕ → Kfifo) × HttpTask × List ℕ × List (ℕ × List ℕ)
  after = http_round w'.fifos http (writes n)

  abbrev w'' : World
  w'' = record w' { fifos = after.0 }

  ring_ne : (task.buffer == http.buffer) ≡ false
  ring_ne = ground (arith, has-ne http.buffer task.buffer (task_pads w task) r.connected r.apart)

  next-Ready : Ready k j w'' task after.1 c
  next-Ready = record {
    apart = rw same_pads r.apart;
    distinct = rw same_pads r.distinct;
    connected =
        subst (λ b. has b (task_pads w'' task) ≡ true) (sym round_lem.buffer_lem)
          (rw same_pads r.connected);
    ring_ok =
        subst (IsValid k) (sym (round_lem.others task.buffer ring_ne))
          (ring_lem w task r.apart k r.ring_ok).1;
    pad_ok = subst (λ b. IsValid j (after.0 b)) (sym round_lem.buffer_lem) round_lem.valid;
    wide = r.wide;
    nothing = subst (λ b. contents (after.0 b) ≡ []) (sym round_lem.buffer_lem) round_lem.empties;
    once = ap (copies c) round_lem.clients_lem ∙ r.once;
  }

  left : contents (w''.fifos task.buffer) ≡ drop 1024 (contents (w.fifos task.buffer))
  left =
      ap contents (round_lem.others task.buffer ring_ne) ∙ (ring_lem w task r.apart k r.ring_ok).0

  given : bytes_for c after.3 ≡ batch w task
  given =
      round_lem.sent_lem c r.once
      ∙ ap (λ a. take (taken_count a) after.2) (all_taken n c (length after.2))
      ∙ take-length (length after.2) after.2 (omega arith)
      ∙ (round_lem.bytes_lem ∙ pad_holds)

-- Take a task whose pads are distinct and are not its own valid ring, and an HTTP task whose ring is
-- one of these pads, valid, empty and of at least 1024 bytes, and one of its clients, listed once. As
-- many rounds of the two threads in turn on these tasks as the task's ring holds pieces of 1024 bytes,
-- or more, in which each write takes all that it is given, write to the client exactly the bytes in the
-- task's ring, in their order.
pub deliver-contents :
    (n k j : ℕ) (w : World) (task : Task) (http : HttpTask) (c : ℕ) (writes : ℕ → Writes)
    → ((n d length : ℕ) → writes n d length ≡ wrote length)
    → Ready k j w task http c
    → length (contents (w.fifos task.buffer)) ≤ n * 1024
    → deliver n w task http writes c ≡ contents (w.fifos task.buffer)
unfolding deliver
deliver-contents zero k j w task http c writes all_taken r few =
    sym (nil_of_length (contents (w.fifos task.buffer)) (omega (arith, few)))
deliver-contents (suc n) k j w task http c writes all_taken r few =
    ap₂ ◌++◌ (given k j w task http c writes all_taken n r) (
      deliver-contents n k j (w'' k j w task http c writes all_taken n r) task
        (after k j w task http c writes all_taken n r).1 c writes all_taken
        (next-Ready k j w task http c writes all_taken n r)
        (omega (
          arith,
          few,
          ap length (left k j w task http c writes all_taken n r),
          length-drop 1024 (contents (w.fifos task.buffer)),
        ))
      ∙ left k j w task http c writes all_taken n r)
    ∙ take-append-drop 1024 (contents (w.fifos task.buffer))
