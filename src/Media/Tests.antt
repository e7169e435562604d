-- ===== src/Media/Tests.antt =====
-- A round of the repacking thread with two outputs.
use mathlib.Core.Path.{subst}
use cliveserver.Base.Rotation.{steps}
use cliveserver.Media.{entry_step}
use cliveserver.Media.Turns.{Separate}
use cliveserver.Media.Progress.{rounds-drain}
use cliveserver.Base.{
  ℕ, zero, suc, false, ◌≤◌, ◌*◌, ap, ◌≡◌, refl, none, some, [], ◌∷◌, ◌==◌, if◌then◌else◌, length,
  arith,
}
use cliveserver.Kfifo.{Kfifo, len, get, put, raw_get, reset_if_empty}
use cliveserver.Kfifo.Word.{add32, sub32}
use cliveserver.Kfifo.Copy.{copy_to, copy_from}
use cliveserver.Kfifo.Window.{window}
use cliveserver.Kfifo.Inv.{IsValid, contents}
use cliveserver.Media.{
  ts2ts, ts, Task, World, run_task, nth, pack_pads, do_pack_ts2ts, clive_media_consume_data,
}
use cliveserver.Media.Round.{task_pads}
use cliveserver.Media.Fanout.{has}

abbrev idle : Kfifo
idle = record { buffer = 0 ∷ 0 ∷ 0 ∷ 0 ∷ []; size = 4; in_offset = 0; out_offset = 0 }

-- 1, 2 and 3, across the end of the buffer
abbrev busy : Kfifo
busy = record { buffer = 3 ∷ 0 ∷ 1 ∷ 2 ∷ []; size = 4; in_offset = 5; out_offset = 2 }

abbrev room : World
room = record {
  fifos = λ p. if p == 1 then busy else idle;
  medias = λ m. record { pack_type = ts2ts; input_media_type = ts; output_pads = 4 ∷ 5 ∷ [] };
  tasks = [];
}

abbrev job : Task
job = record { buffer = 1; flv_media = none; ts_media = some 3 }

busy-IsValid : IsValid 2 busy
unfolding len sub32
busy-IsValid = omega arith

idle-IsValid : IsValid 2 idle
unfolding len sub32
idle-IsValid = omega arith

second_pad : (get ((run_task room job).fifos 5) 9).0 ≡ 1 ∷ 2 ∷ 3 ∷ []
unfolding run_task clive_media_consume_data do_pack_ts2ts pack_pads get put raw_get reset_if_empty
    copy_to copy_from add32 sub32 len
second_pad = refl

abbrev other_job : Task
other_job = record { buffer = 2; flv_media = some 3; ts_media = none }

abbrev both : World
both = record room { tasks = job ∷ other_job ∷ [] }

some_inj : {t u : Task} → some t ≡ some u → t ≡ u
some_inj {t} e = ap (λ o. elim o [ none ↦ t | some v ↦ v ]) e

each :
    (P : ℕ → Task → Type 0)
    → P 0 job
    → P 1 other_job
    → (i : ℕ) (t : Task) → nth both.tasks i ≡ some t
    → P i t
each P p q zero t e = subst (P 0) (some_inj e) p
each P p q (suc zero) t e = subst (P 1) (some_inj e) q
each P p q (suc (suc i)) t e = ground (arith, e)

both-Separate : Separate both 0 job
both-Separate = record {
  listed = refl;
  own = each (λ i t. has t.buffer (task_pads both t) ≡ false) refl refl;
  no_pad = each (λ i t. has 1 (task_pads both t) ≡ false) refl refl;
  alone =
      each (λ i t. (i == 0) ≡ false → (1 == t.buffer) ≡ false) (λ e. ground (arith, e)) (λ e. refl);
}

few_bytes : length (contents busy) ≤ 1 * 1024
unfolding window len sub32
few_bytes = omega arith

rounds-drain_example :
    (n : ℕ) × (n ≤ 1 * 4) × (contents ((steps entry_step n (both, some 1)).0.fifos 1) ≡ [])
rounds-drain_example = rounds-drain both 0 job 1 2 (some 1) both-Separate busy-IsValid few_bytes
