-- ===== src/Media/Round.antt =====
-- One round of the repacking thread for a task: what leaves the channel's ring reaches the pads.
use cliveserver.Base.{
  ℕ, ◌<◌, ◌≡◌, refl, sym, ap, ◌∙◌, inl, inr, true, false, Option, none, some, List, [], ◌∷◌, ◌++◌,
  ◌==◌, if◌then◌else◌, length, take, drop, take-append-drop, arith, Bool-cases, ==_self, ltb,
  ltb→lt, lt→ltb, ==_iff, drop-nil, take-nil, append-nil,
}
use cliveserver.Kfifo.{Kfifo, len, put, get}
use cliveserver.Kfifo.Inv.{IsValid, contents}
use cliveserver.Kfifo.Window.{window}
use cliveserver.Kfifo.Get.{get_lem}
use cliveserver.Media.{
  Task, World, update, is_ts2ts, pack_pads, do_pack_ts2ts, clive_media_consume_data, run_task,
}
use cliveserver.Media.Fanout.{has, Distinct, fitting, pack_pads_other, pack_pads_pad}

-- the pads that a media passes bytes on to: those of a TS-to-TS media, none otherwise
abbrev pub active_pads : World → Option ℕ → List ℕ
active_pads w none = []
active_pads w (some media) =
    if is_ts2ts (w.medias media).pack_type then (w.medias media).output_pads else []

consume_lem :
    (w : World) (media : Option ℕ) (bytes : List ℕ)
    → clive_media_consume_data w media bytes
      ≡ record w { fifos = pack_pads w.fifos (active_pads w media) bytes }
unfolding clive_media_consume_data do_pack_ts2ts pack_pads
consume_lem w none bytes = refl
consume_lem w (some media) bytes = elim (Bool-cases (is_ts2ts (w.medias media).pack_type)) [
  | inl e ↦ rw e refl
  | inr e ↦ rw e refl
]

pack_pads-append :
    (fifos : ℕ → Kfifo) (xs ys bytes : List ℕ)
    → pack_pads (pack_pads fifos xs bytes) ys bytes ≡ pack_pads fifos (xs ++ ys) bytes
unfolding pack_pads
pack_pads-append fifos [] ys bytes = refl
pack_pads-append fifos (x ∷ xs) ys bytes =
    pack_pads-append (update fifos x (put (fifos x) bytes (length bytes)).1) xs ys bytes

-- all pads of a task
abbrev pub task_pads : World → Task → List ℕ
task_pads w task = active_pads w task.flv_media ++ active_pads w task.ts_media

-- the up to 1024 oldest bytes of the task's ring
abbrev pub batch : World → Task → List ℕ
batch w task = take 1024 (contents (w.fifos task.buffer))

-- With bytes in the task's valid ring, run_task is a `kfifo_get` and a fan-out.
pub run_task_busy :
    (w : World) (task : Task)
    → 0 < len (w.fifos task.buffer)
    → run_task w task ≡ record w {
      fifos =
          pack_pads
            (update w.fifos task.buffer (get (w.fifos task.buffer) 1024).1)
            (task_pads w task)
            (get (w.fifos task.buffer) 1024).0;
    }
unfolding run_task
run_task_busy w task h =
    let fifo = (get (w.fifos task.buffer) 1024).1 in
    let bytes = (get (w.fifos task.buffer) 1024).0 in
    let emptied = update w.fifos task.buffer fifo in
    let w' : World = record w { fifos = emptied } in
    rw (lt→ltb 0 (len (w.fifos task.buffer)) h) (
      ap (λ w''. clive_media_consume_data w'' task.ts_media bytes)
        (consume_lem w' task.flv_media bytes)
      ∙ consume_lem (record w { fifos = pack_pads emptied (active_pads w task.flv_media) bytes })
          task.ts_media bytes
      ∙ ap (λ f. record w { fifos = f })
          (pack_pads-append emptied (active_pads w task.flv_media) (active_pads w task.ts_media)
            bytes))

pub has-ne : (p q : ℕ) (ps : List ℕ) → has p ps ≡ true → has q ps ≡ false → (p == q) ≡ false
has-ne p q ps h n = elim (Bool-cases (p == q)) [
  | inl e ↦ let same : p ≡ q = (==_iff p q).0 e in cc (ap (λ r. has r ps) same)
  | inr e ↦ e
]

pub contents_idle : (fifo : Kfifo) → len fifo ≡ 0 → contents fifo ≡ []
contents_idle fifo e = rw e (unfold window in refl)

module _ (w : World) (task : Task) (apart : has task.buffer (task_pads w task) ≡ false) where
  idle : (ltb 0 (len (w.fifos task.buffer)) ≡ false) → run_task w task ≡ w
  unfolding run_task
  idle e = rw e refl

  no_batch : (ltb 0 (len (w.fifos task.buffer)) ≡ false) → contents (w.fifos task.buffer) ≡ []
  no_batch e = contents_idle (w.fifos task.buffer) (ground arith)

  -- A round takes the up to 1024 oldest bytes out of the task's ring, which stays valid.
  pub ring_lem :
      (k : ℕ)
      → IsValid k (w.fifos task.buffer)
      → (contents ((run_task w task).fifos task.buffer)
          ≡ drop 1024 (contents (w.fifos task.buffer)))
        × IsValid k ((run_task w task).fifos task.buffer)
  ring_lem k v = elim (Bool-cases (ltb 0 (len (w.fifos task.buffer)))) [
    | inr e ↦ rw (idle e) (rw (no_batch e) (sym (drop-nil 1024)), v)
    | inl e ↦
        let (_, rest, valid) = get_lem 1024 v in
        let emptied = update w.fifos task.buffer (get (w.fifos task.buffer) 1024).1 in
        let bytes = (get (w.fifos task.buffer) 1024).0 in
        rw
          (
            run_task_busy w task (ltb→lt 0 _ e),
            pack_pads_other emptied (task_pads w task) bytes task.buffer apart,
            ==_self task.buffer,
          )
          (rest, valid)
  ]

  -- Each pad, a valid ring, gets what fits of them behind its bytes.
  pub pad_lem :
      (k j p : ℕ)
      → Distinct (task_pads w task)
      → IsValid k (w.fifos task.buffer)
      → has p (task_pads w task) ≡ true
      → IsValid j (w.fifos p)
      → (contents ((run_task w task).fifos p)
          ≡ contents (w.fifos p) ++ fitting (w.fifos p) (batch w task))
        × IsValid j ((run_task w task).fifos p)
  pad_lem k j p d v h vp =
      let ne = has-ne p task.buffer (task_pads w task) h apart in
      elim (Bool-cases (ltb 0 (len (w.fifos task.buffer)))) [
        | inr e ↦
            rw (idle e, no_batch e) (sym (rw take-nil (append-nil (contents (w.fifos p)))), vp)
        | inl e ↦
            let (taken, _, _) = get_lem 1024 v in
            let emptied = update w.fifos task.buffer (get (w.fifos task.buffer) 1024).1 in
            let bytes = (get (w.fifos task.buffer) 1024).0 in
            let done = pack_pads_pad j emptied (task_pads w task) bytes p d h (rw ne vp) in
            rw (run_task_busy w task (ltb→lt 0 _ e), ← taken) (rw ne at done)
      ]

  -- Any other ring is untouched.
  pub other_lem :
      (p : ℕ)
      → has p (task_pads w task) ≡ false
      → (p == task.buffer) ≡ false
      → (run_task w task).fifos p ≡ w.fifos p
  other_lem p out ne = elim (Bool-cases (ltb 0 (len (w.fifos task.buffer)))) [
    | inr e ↦ rw (idle e) refl
    | inl e ↦ rw (run_task_busy w task (ltb→lt 0 _ e)) (
        pack_pads_other (update w.fifos task.buffer (get (w.fifos task.buffer) 1024).1)
          (task_pads w task) (get (w.fifos task.buffer) 1024).0 p out
        ∙ rw ne refl)
  ]

-- One round of the repacking thread for a task whose valid ring is none of its pads takes the up to
-- 1024 oldest bytes out of that ring, which stays valid, and any ring but that one and the pads is
-- untouched.
pub run_task-ring :
    (w : World) (task : Task) (k p : ℕ)
    → has task.buffer (task_pads w task) ≡ false
    → IsValid k (w.fifos task.buffer)
    → has p (task_pads w task) ≡ false
    → (p == task.buffer) ≡ false
    → (contents ((run_task w task).fifos task.buffer) ≡ drop 1024 (contents (w.fifos task.buffer)))
      × IsValid k ((run_task w task).fifos task.buffer)
      × ((run_task w task).fifos p ≡ w.fifos p)
run_task-ring w task k p apart v out ne =
    let (rest, valid) = ring_lem w task apart k v in (rest, valid, other_lem w task apart p out ne)

-- One round of the repacking thread for a task whose pads are distinct and are not its own ring: the
-- up to 1024 oldest bytes of the task's valid ring leave it, and a pad of the task's TS-to-TS medias
-- that is a valid ring holds behind its bytes what fits of them; both rings stay valid.
pub run_task_lem :
    (w : World) (task : Task) (k j p : ℕ)
    → has task.buffer (task_pads w task) ≡ false
    → Distinct (task_pads w task)
    → IsValid k (w.fifos task.buffer)
    → has p (task_pads w task) ≡ true
    → IsValid j (w.fifos p)
    → (batch w task ++ contents ((run_task w task).fifos task.buffer)
        ≡ contents (w.fifos task.buffer))
      × (contents ((run_task w task).fifos p)
          ≡ contents (w.fifos p) ++ fitting (w.fifos p) (batch w task))
      × IsValid k ((run_task w task).fifos task.buffer)
      × IsValid j ((run_task w task).fifos p)
run_task_lem w task k j p apart d v h vp =
    let (rest, valid) = ring_lem w task apart k v in
    let (gained, valid_pad) = pad_lem w task apart k j p d v h vp in
    (rw rest (take-append-drop 1024 (contents (w.fifos task.buffer))), gained, valid, valid_pad)
