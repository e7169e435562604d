-- ===== src/Media.antt =====
-- media/media.c, media.h and ts2ts.c: the repacking of what the channels receive into the rings of
-- the outputs. Rings and medias are objects behind pointers: `World` keeps them by address, so that
-- a task and a channel that hold one pointer see one object.
pub mod Fanout
pub mod Round
pub mod Turns
pub mod Progress
mod Tests
use cliveserver.Base.{
  ℕ, zero, suc, ◌+◌, ◌≡◌, Bool, true, false, Option, none, some, List, [], ◌∷◌, ◌++◌, ltb, ◌==◌,
  if◌then◌else◌, length,
}
use cliveserver.Base.Int.{ℤ, pos, negsuc}
use cliveserver.Kfifo.{Kfifo, len, put, get}

-- `enum Pack_Type`
pub data PackType : Type 0 where
  ts2ts ts2flv flv2flv flv2ts unknown : PackType

-- `enum MediaType` of channel.h, with the -1 of a channel that has received nothing
pub data MediaType : Type 0 where
  ts flv undetected : MediaType

-- `sMedia`; the fields for PSI and headers are never used
pub record Media : Type 0 where
  pub pack_type : PackType
  pub input_media_type : MediaType
  pub output_pads : List ℕ

-- `Task`: a channel's ring and its two medias, each of which may be NULL
pub record Task : Type 0 where
  pub buffer : ℕ
  pub flv_media : Option ℕ
  pub ts_media : Option ℕ

pub record World : Type 0 where
  pub fifos : ℕ → Kfifo
  pub medias : ℕ → Media
  pub tasks : List Task

abbrev pub update : {A : Type 0} → (ℕ → A) → ℕ → A → ℕ → A
update f p v q = if q == p then v else f q

-- The address is the one that `calloc` returned: the code asserts that it is not NULL.
pub clive_media_create : World → ℕ → PackType → MediaType → World
clive_media_create w address pack input = record w {
  medias =
      update w.medias address
        (record { pack_type = pack; input_media_type = input; output_pads = [] });
}

-- `allocated` says whether `ListAdd` got its entry.
unfoldable pub clive_media_add_output : World → ℕ → ℕ → Bool → ℤ × World
clive_media_add_output w media fifo allocated =
    if allocated
    then (
      pos 1,
      record w {
        medias =
            update w.medias media (record (w.medias media) {
              output_pads = (w.medias media).output_pads ++ (fifo ∷ []);
            });
      },
    )
    else (pos 0, w)

unfoldable pub clive_media_setype : World → Option ℕ → PackType → MediaType → World
clive_media_setype w none pack input = w
clive_media_setype w (some media) pack input = record w {
  medias =
      update w.medias media
        (record (w.medias media) { pack_type = pack; input_media_type = input });
}

-- `task_allocated` and `entry_allocated` are the two allocations. A task whose list entry cannot be
-- allocated is lost, and the result is 0 all the same.
unfoldable pub clive_media_attach : World → Option ℕ → Option ℕ → ℕ → Bool → Bool → ℤ × World
clive_media_attach w flv_media ts_media buffer task_allocated entry_allocated =
    if task_allocated
    then (
      pos 0,
      if entry_allocated
          then record w {
            tasks =
                w.tasks
                ++ (record { buffer = buffer; flv_media = flv_media; ts_media = ts_media } ∷ []);
          }
          else w,
    )
    else (negsuc 0, w)

-- the loop of `do_pack_ts2ts`; the counts that `kfifo_put` returns are dropped
pub pack_pads : (ℕ → Kfifo) → List ℕ → List ℕ → (ℕ → Kfifo)
pack_pads fifos [] bytes = fifos
pack_pads fifos (pad ∷ pads) bytes =
    pack_pads (update fifos pad (put (fifos pad) bytes (length bytes)).1) pads bytes

pub do_pack_ts2ts : World → ℕ → List ℕ → World
unfolding pack_pads
do_pack_ts2ts w media bytes = record w {
  fifos = pack_pads w.fifos (w.medias media).output_pads bytes;
}

abbrev pub is_ts2ts : PackType → Bool
is_ts2ts ts2ts = true
is_ts2ts _ = false

-- Only TS to TS is implemented: for any other packing the bytes are dropped.
pub clive_media_consume_data : World → Option ℕ → List ℕ → World
clive_media_consume_data w none bytes = w
clive_media_consume_data w (some media) bytes =
    if is_ts2ts (w.medias media).pack_type then do_pack_ts2ts w media bytes else w

-- the work of the repacking thread on one task
pub run_task : World → Task → World
run_task w task =
    if ltb 0 (len (w.fifos task.buffer))
    then (let (bytes, fifo) = get (w.fifos task.buffer) 1024 in
        let w' = record w { fifos = update w.fifos task.buffer fifo } in
        clive_media_consume_data (clive_media_consume_data w' task.flv_media bytes) task.ts_media
          bytes)
    else w

abbrev pub nth : List Task → ℕ → Option Task
nth [] i = none
nth (task ∷ rest) zero = some task
nth (task ∷ rest) (suc i) = nth rest i

-- One round of `Entry`: its current entry, by its place in the list, to which tasks are only
-- appended. With none it starts again at the head.
unfoldable pub entry_step : World × Option ℕ → World × Option ℕ
entry_step (w, none) = (w, (if ltb 0 (length w.tasks) then some 0 else none))
entry_step (w, some i) = elim (nth w.tasks i) [
  | none ↦ (w, none)
  | some task ↦ (run_task w task, (if ltb (i + 1) (length w.tasks) then some (i + 1) else none))
]
