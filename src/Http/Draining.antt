-- ===== src/Http/Draining.antt =====
-- The writing thread comes round to every task, and so empties every ring that is not filled.
use cliveserver.Base.{ℕ, zero, suc, ◌≡◌, false, Option, none, some, List, [], ◌∷◌, ◌==◌, drop}
use cliveserver.Kfifo.{Kfifo}
use cliveserver.Kfifo.Inv.{IsValid, contents}
use cliveserver.Http.{HttpTask, Writes}

-- the rings of the tasks, in their order
abbrev pub rings : List HttpTask → List ℕ
rings [] = []
rings (task ∷ tasks) = task.buffer ∷ rings tasks

abbrev pub ring_at : List ℕ → ℕ → Option ℕ
ring_at [] i = none
ring_at (b ∷ bs) zero = some b
ring_at (b ∷ bs) (suc i) = ring_at bs i

-- A round for a task, whatever its clients do, keeps the task's ring, takes up to 1024 bytes out of it
-- if it is valid, and changes no other.
record Round (fifos : ℕ → Kfifo) (task : HttpTask)
    (r : (ℕ → Kfifo) × HttpTask × List ℕ × List (ℕ × List ℕ)) : Type 0 where
  same : r.1.buffer ≡ task.buffer
  others : (q : ℕ) → (q == task.buffer) ≡ false → r.0 q ≡ fifos q
  taken :
      (k : ℕ)
      → IsValid k (fifos task.buffer)
      → IsValid k (r.0 task.buffer)
        × (contents (r.0 task.buffer) ≡ drop 1024 (contents (fifos task.buffer)))

-- The ring at `j` among the tasks' rings is that of no other task.
pub record Alone (bs : List ℕ) (j ring : ℕ) : Type 0 where
  pub listed : ring_at bs j ≡ some ring
  pub unshared : (i b : ℕ) → ring_at bs i ≡ some b → (i == j) ≡ false → (ring == b) ≡ false

module _ (writes : Writes) (bs : List ℕ) (j ring k : ℕ) (alone : Alone bs j ring) where
  -- the tasks have these rings, and in the valid one at `j` wait these bytes
  record Waiting (waiting : List ℕ) (s : (ℕ → Kfifo) × List HttpTask) : Type 0 where
    same : rings s.1 ≡ bs
    valid : IsValid k (s.0 ring)
    bytes : contents (s.0 ring) ≡ waiting

  abbrev Stage : Type 0
  Stage = (ℕ → Kfifo) × List HttpTask
