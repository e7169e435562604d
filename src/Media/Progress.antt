-- ===== src/Media/Progress.antt =====
-- The repacking thread comes round to every task, and so empties every ring that is not filled.
use cliveserver.Base.{
  ℕ, ◌+◌, ◌*◌, ◌<◌, ◌≤◌, ◌≡◌, refl, sym, ap, ◌∙◌, Option, none, some, List, [], length, drop, arith,
  lt→ltb,
}
use mathlib.Core.Path.{subst}
use native.Mathlib.Decide.{dec_lt}
use cliveserver.Base.Rotation.{steps, IsRotation, successor}
use cliveserver.Base.Draining.{Draws, drains}
use cliveserver.Kfifo.{Kfifo}
use cliveserver.Kfifo.Inv.{IsValid, contents}
use cliveserver.Media.{Task, World, run_task, nth, entry_step}
use cliveserver.Media.Round.{ring_lem, other_lem}
use cliveserver.Media.Turns.{
  nth-some, nth-none, none-ne-some, Separate, with_rings, run_task-rings, entry_step-some,
  entry_step-none,
}

module _ (w : World) (j : ℕ) (task : Task) (k : ℕ) (apart : Separate w j task) where
  -- only rings have changed since `w`, and in the task's valid ring wait these bytes
  record Waiting (waiting : List ℕ) (w' : World) : Type 0 where
    rings : w' ≡ with_rings w w'.fifos
    valid : IsValid k (w'.fifos task.buffer)
    bytes : contents (w'.fifos task.buffer) ≡ waiting

  j-lt : j < length w.tasks
  j-lt = elim (dec_lt j (length w.tasks)) [
    | yes h ↦ h
    | no h ↦ absurd (none-ne-some task (sym (nth-none w.tasks j (omega arith)) ∙ apart.listed))
  ]

  waits :
      (waiting : List ℕ) (f f' : ℕ → Kfifo)
      → f' task.buffer ≡ f task.buffer
      → Waiting waiting (with_rings w f)
      → Waiting waiting (with_rings w f')
  waits waiting f f' same p = record {
    rings = refl;
    valid = subst (IsValid k) (sym same) p.valid;
    bytes = ap contents same ∙ p.bytes;
  }

  -- a round of the thread on a task, over worlds that differ from `w` in rings
  visit :
      (i : ℕ) (t : Task) (f : ℕ → Kfifo)
      → nth w.tasks i ≡ some t
      → entry_step (with_rings w f, some i)
        ≡ (with_rings w (run_task (with_rings w f) t).fifos, successor (length w.tasks) i)
  visit i t f e =
      entry_step-some (with_rings w f) i t e
      ∙ ap (λ w'. (w', successor (length w.tasks) i)) (run_task-rings (with_rings w f) t)

  over :
      (waiting : List ℕ) (Q : World → Type 0)
      → ((f : ℕ → Kfifo) → Waiting waiting (with_rings w f) → Q (with_rings w f))
      → (s : World) → Waiting waiting s
      → Q s
  over waiting Q h s p = subst Q (sym p.rings) (h s.fifos (subst (Waiting waiting) p.rings p))

  rotation : (waiting : List ℕ) → IsRotation entry_step (length w.tasks) j (Waiting waiting)
  unfolding entry_step
  rotation waiting = record {
    listed = j-lt;
    begins =
        over waiting (λ s. entry_step (s, none) ≡ (s, some 0))
          (λ f p. rw (lt→ltb 0 (length w.tasks) (omega (arith, j-lt))) refl);
    ends = λ i h.
        over waiting (λ s. entry_step (s, some i) ≡ (s, none))
          (λ f p. entry_step-none (with_rings w f) i (nth-none w.tasks i h));
    others = λ i h ne.
        over waiting
          (λ s.
            (s' : World) × (entry_step (s, some i) ≡ (s', successor (length w.tasks) i))
            × Waiting waiting s')
          (λ f p.
            let (t, e) = nth-some w.tasks i h in
            let f' = (run_task (with_rings w f) t).fifos in
            (
              with_rings w f',
              visit i t f e,
              waits waiting f f'
                  (other_lem (with_rings w f) t (apart.own i t e) task.buffer (apart.no_pad i t e)
                    (apart.alone i t e ne))
                  p,
            ));
  }

  takes : Draws entry_step (length w.tasks) j Waiting
  takes waiting =
      over waiting
        (λ s.
          (s' : World) × (c : Option ℕ) × (entry_step (s, some j) ≡ (s', c))
          × Waiting (drop 1024 waiting) s')
        (λ f p.
          let (rest, valid) =
            ring_lem (with_rings w f) task (apart.own j task apart.listed) k p.valid in
          (
            with_rings w (run_task (with_rings w f) task).fifos,
            successor (length w.tasks) j,
            visit j task f apart.listed,
            record { rings = refl; valid = valid; bytes = rest ∙ ap (drop 1024) p.bytes },
          ))

-- While no ring of a task is a pad and the task `j` shares its valid ring with no other task, and while
-- nothing is put into that ring and no task is added: if the ring holds at most `turns` pieces of 1024
-- bytes, it is empty behind some number of rounds, from wherever the repacking thread is in its list:
-- at most `turns` times two more than there are tasks.
pub rounds-drain :
    (w : World) (j : ℕ) (task : Task) (turns k : ℕ) (c : Option ℕ)
    → Separate w j task
    → IsValid k (w.fifos task.buffer)
    → length (contents (w.fifos task.buffer)) ≤ turns * 1024
    → (n : ℕ) × (n ≤ turns * (length w.tasks + 2))
      × (contents ((steps entry_step n (w, c)).0.fifos task.buffer) ≡ [])
rounds-drain w j task turns k c apart v le =
    let start : Waiting w j task k apart (contents (w.fifos task.buffer)) w = record {
      rings = refl;
      valid = v;
      bytes = refl;
    } in
    let (n, w', c', small, run, empty) =
      drains entry_step (length w.tasks) j (Waiting w j task k apart) turns
        (contents (w.fifos task.buffer)) c w (rotation w j task k apart) (takes w j task k apart)
        start le in
    (n, small, ap (λ (s : World × Option ℕ). contents (s.0.fifos task.buffer)) run ∙ empty.bytes)
