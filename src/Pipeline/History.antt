-- ===== src/Pipeline/History.antt =====
-- What a client gets, whatever the order in which the threads take their turns.
use cliveserver.Base.{
  ℕ, ◌+◌, ◌≡◌, sym, ap, ◌∙◌, List, [], ◌++◌, length, take, arith, append_assoc, append-nil,
  length-append, take-length,
}
use mathlib.Core.Path.{subst}
use cliveserver.Base.Sublists.{Sublist, Sublist-refl, Sublist-trans, Sublist_before, Sublist_same}
use cliveserver.Media.{World, Task}
use cliveserver.Http.{HttpTask, Writes, wrote, taken_count, http_round}
use cliveserver.Http.Writer.{NoneFails}
use cliveserver.Http.Taking.{bytes_for, http_round-Took}
use cliveserver.Pipeline.Schedule.{Flow, at_rest, write, Scheduled, at_first, later}
use cliveserver.Pipeline.Moves.{Wired, on_the_way, lost, Moves, any-Moves}

module _ (k j : ℕ) (task : Task) (c : ℕ) where
  record Followed (start s : Flow) : Type 0 where
    wired : Wired k j task c s.world s.http
    more : List ℕ
    stored_lem : s.stored ≡ start.stored ++ more
    in_order : Sublist (on_the_way task s) (on_the_way task start ++ more)
    counted :
        length (on_the_way task s) + lost s
        ≡ (length (on_the_way task start) + lost start) + length more

  follow : {start s t : Flow} → Followed start s → Moves k j task c s t → Followed start t
  follow {start} {s} {t} f m = record {
    wired = m.wired;
    more = f.more ++ m.more;
    stored_lem =
        m.stored_lem ∙ ap (λ l. l ++ m.more) f.stored_lem ∙ append_assoc start.stored f.more m.more;
    in_order =
        subst (Sublist (on_the_way task t)) (append_assoc (on_the_way task start) f.more m.more) (
          Sublist-trans (on_the_way task t) (on_the_way task s ++ m.more)
            ((on_the_way task start ++ f.more) ++ m.more) m.in_order
            (Sublist_before (on_the_way task s) (on_the_way task start ++ f.more) m.more
              f.in_order));
    counted =
        m.counted
        ∙ ap (λ n. n + length m.more) f.counted
        ∙ omega (arith, length-append f.more m.more);
  }

  scheduled-Followed :
      (start s : Flow)
      → Wired k j task c start.world start.http
      → Scheduled task c start s
      → Followed start s
  scheduled-Followed start s i at_first = record {
    wired = i;
    more = [];
    stored_lem = sym (append-nil start.stored);
    in_order =
        subst (Sublist (on_the_way task start)) (sym (append-nil (on_the_way task start)))
          (Sublist-refl (on_the_way task start));
    counted = omega arith;
  }
  scheduled-Followed start s i (later {s = p} run turn) =
      let f = scheduled-Followed start p i run in follow f (any-Moves k j task c p s f.wired turn)

  -- the wiring stays
  pub scheduled-Wired :
      (start s : Flow)
      → Wired k j task c start.world start.http
      → Scheduled task c start s
      → Wired k j task c s.world s.http
  scheduled-Wired start s i run = (scheduled-Followed start s i run).wired

  -- a write that takes all that it is offered leaves nothing
  pub write_whole :
      (s : Flow) (writes : Writes)
      → NoneFails writes s.http.clients
      → ((n : ℕ) → writes c n ≡ wrote n)
      → Wired k j task c s.world s.http
      → (write task c s writes).unsent ≡ s.unsent
  unfolding write
  write_whole s writes alive all i =
      let r = http_round s.world.fifos s.http writes in
      let taken : bytes_for c r.3 ≡ take (taken_count (writes c (length r.2))) r.2 =
        (http_round-Took j s.world.fifos s.http writes i.pad_ok alive).sent_lem c i.once in
      let same : bytes_for c r.3 ≡ r.2 =
        taken
        ∙ ap (λ a. take (taken_count a) r.2) (all (length r.2))
        ∙ take-length (length r.2) r.2 (omega arith) in
      omega (arith, ap length same)

-- Take a task whose distinct pads are not its own valid ring, and an HTTP task whose valid ring is one
-- of the pads, and a client that is listed in it once. Whatever the order in which the threads take
-- their turns, whatever they do to other rings, and however much each write takes, while no write to a
-- client of the task fails with an error other than EAGAIN: the bytes that the client's socket has taken
-- so far, then those in the HTTP task's ring, then those in the task's ring are, in order and none
-- twice, bytes of those that were in the two rings at the start, followed by those stored so far; as
-- many are missing as the HTTP task's ring dropped and the client's socket was offered and did not take.
pub scheduled-history :
    (k j : ℕ) (task : Task) (c : ℕ) (w : World) (http : HttpTask) (s : Flow)
    → Wired k j task c w http
    → Scheduled task c (at_rest w http) s
    → let given = on_the_way task (at_rest w http) ++ s.stored in
      Sublist (on_the_way task s) given
      × (length (on_the_way task s) + (s.dropped + s.unsent) ≡ length given)
scheduled-history k j task c w http s i run =
    let start = at_rest w http in
    let f = scheduled-Followed k j task c start s i run in
    let same : f.more ≡ s.stored = sym f.stored_lem in
    (
      subst (λ l. Sublist (on_the_way task s) (on_the_way task start ++ l)) same f.in_order,
      f.counted ∙ omega (arith, ap length same, length-append (on_the_way task start) s.stored),
    )

-- Take a task whose distinct pads are not its own valid ring, and an HTTP task whose valid ring is one
-- of the pads, and a client that is listed in it once. If the threads have taken turns in any order, with
-- no write to a client of the task that failed with an error other than EAGAIN, the HTTP task's ring has
-- dropped nothing, and the client's socket has taken all that it was offered: the bytes that it has taken,
-- then those in the HTTP task's ring, then those in the task's ring are, in order, exactly those that were
-- in the two rings at the start, followed by those stored so far.
pub scheduled-whole :
    (k j : ℕ) (task : Task) (c : ℕ) (w : World) (http : HttpTask) (s : Flow)
    → Wired k j task c w http
    → Scheduled task c (at_rest w http) s
    → s.dropped ≡ 0
    → s.unsent ≡ 0
    → on_the_way task s ≡ on_the_way task (at_rest w http) ++ s.stored
scheduled-whole k j task c w http s i run kept sent =
    let (order, size) = scheduled-history k j task c w http s i run in
    Sublist_same (on_the_way task s) (on_the_way task (at_rest w http) ++ s.stored) order
      (omega (arith, size, kept, sent))
