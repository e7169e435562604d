-- ===== src/Media/Turns.antt =====
-- What a round of the repacking thread does, by the place in its list of tasks.
use cliveserver.Base.{
  ℕ, zero, suc, ◌+◌, ◌<◌, ◌≤◌, ◌≡◌, refl, sym, ap, ◌∙◌, inl, inr, false, none, some, List, [], ◌∷◌,
  ◌==◌, if◌then◌else◌, length, arith, Bool-cases, ltb, ltb→lt,
}
use cliveserver.Kfifo.{Kfifo, len}
use cliveserver.Media.{Task, World, run_task, nth, entry_step}
use cliveserver.Media.Fanout.{has}
use cliveserver.Media.Round.{task_pads, run_task_busy}

pub nth-some : (tasks : List Task) (i : ℕ) → i < length tasks → (t : Task) × (nth tasks i ≡ some t)
nth-some [] i h = elim h [ ]
nth-some (t ∷ tasks) zero h = (t, refl)
nth-some (t ∷ tasks) (suc i) h = nth-some tasks i (omega arith)

pub nth-none : (tasks : List Task) (i : ℕ) → length tasks ≤ i → nth tasks i ≡ none
nth-none [] i h = refl
nth-none (t ∷ tasks) zero h = elim h [ ]
nth-none (t ∷ tasks) (suc i) h = nth-none tasks i (omega arith)

pub none-ne-some : (t : Task) → ¬ (none ≡ some t)
none-ne-some t e = ground (arith, e)

-- The ring of no task is a pad of a task, and the task `j` shares its ring with no other.
pub record Separate (w : World) (j : ℕ) (task : Task) : Type 0 where
  pub listed : nth w.tasks j ≡ some task
  pub own : (i : ℕ) (t : Task) → nth w.tasks i ≡ some t → has t.buffer (task_pads w t) ≡ false
  pub no_pad : (i : ℕ) (t : Task) → nth w.tasks i ≡ some t → has task.buffer (task_pads w t) ≡ false
  pub alone :
      (i : ℕ) (t : Task)
      → nth w.tasks i ≡ some t
      → (i == j) ≡ false
      → (task.buffer == t.buffer) ≡ false

abbrev pub with_rings : World → (ℕ → Kfifo) → World
with_rings w fifos = record w { fifos = fifos }

-- A round for a task changes only rings.
pub run_task-rings : (w : World) (t : Task) → run_task w t ≡ with_rings w (run_task w t).fifos
run_task-rings w t = elim (Bool-cases (ltb 0 (len (w.fifos t.buffer)))) [
  | inl e ↦ set_by (run_task_busy w t (ltb→lt 0 (len (w.fifos t.buffer)) e))
  | inr e ↦ set_by {fifos = w.fifos} (unfold run_task in rw e refl)
]
  where
    set_by :
        {fifos : ℕ → Kfifo}
        → run_task w t ≡ with_rings w fifos
        → run_task w t ≡ with_rings w (run_task w t).fifos
    set_by r = r ∙ ap (λ w'. with_rings w w'.fifos) (sym r)

pub entry_step-some :
    (w : World) (i : ℕ) (t : Task)
    → nth w.tasks i ≡ some t
    → entry_step (w, some i)
      ≡ (run_task w t, (if ltb (i + 1) (length w.tasks) then some (i + 1) else none))
unfolding entry_step
entry_step-some w i t e = rw (entry_step, e) refl

pub entry_step-none :
    (w : World) (i : ℕ) → nth w.tasks i ≡ none → entry_step (w, some i) ≡ (w, none)
unfolding entry_step
entry_step-none w i e = rw (entry_step, e) refl
