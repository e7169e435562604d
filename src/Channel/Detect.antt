-- ===== src/Channel/Detect.antt =====
-- The first datagram of a channel: what it starts.
use cliveserver.Base.{
  ℕ, ◌≡◌, refl, ap, ◌∙◌, true, Option, none, some, List, [], ◌∷◌, ◌++◌, ◌==◌, length, ==_self,
  ==_iff, sym, inl, inr, Bool-cases, arith,
}
use cliveserver.Kfifo.{put}
use cliveserver.Kfifo.Inv.{IsValid, contents}
use cliveserver.Kfifo.Put.{contents-put, put-IsValid}
use cliveserver.Media.{
  Task, PackType, ts2ts, ts2flv, MediaType, ts, World, update, clive_media_setype,
  clive_media_attach,
}
use cliveserver.Media.Fanout.{fitting}
use cliveserver.Channel.{Channel}
use cliveserver.Channel.Receive.{detect, set_types, first_datagram}

-- setting the types of a media changes nothing but types
pub record OnlyTypes (w w' : World) : Type 0 where
  pub fifos : w'.fifos ≡ w.fifos
  pub tasks : w'.tasks ≡ w.tasks
  pub pads : (m : ℕ) → (w'.medias m).output_pads ≡ (w.medias m).output_pads

pub setype-OnlyTypes :
    (w : World) (media : Option ℕ) (pack : PackType) (input : MediaType)
    → OnlyTypes w (clive_media_setype w media pack input)
unfolding clive_media_setype
setype-OnlyTypes w none pack input = record { fifos = refl; tasks = refl; pads = λ m. refl }
setype-OnlyTypes w (some media) pack input = record {
  fifos = refl;
  tasks = refl;
  pads = λ m. elim (Bool-cases (m == media)) [
    | inl e ↦
        let same : m ≡ media = (==_iff m media).0 e in
        rw e (ap (λ n. (w.medias n).output_pads) (sym same))
    | inr e ↦ rw e refl
  ];
}

set_pack :
    (w : World) (media : ℕ) (pack : PackType) (input : MediaType)
    → ((clive_media_setype w (some media) pack input).medias media).pack_type ≡ pack
unfolding clive_media_setype
set_pack w media pack input = rw (==_self media) refl

-- the task of a channel
abbrev pub task_of : Channel → Task
task_of channel = record {
  buffer = channel.buffer;
  flv_media = channel.flv_media;
  ts_media = channel.ts_media;
}

-- The first datagram of a channel with a valid ring and a TS media, if it begins with the sync byte
-- 0x47 and memory is not short, is recognised as TS: what fits of it is in the ring, the ring stays
-- valid, the TS media passes on TS as it is to the pads that it had, and the repacking thread has
-- the channel's task as its last.
pub first_datagram-ts :
    (k : ℕ) (w : World) (channel : Channel) (media : ℕ) (bytes : List ℕ)
    → IsValid k (w.fifos channel.buffer)
    → channel.ts_media ≡ some media
    → let (channel', w') = first_datagram true true 0x47 bytes channel w in
      (channel'.input_media_type ≡ ts)
      × (contents (w'.fifos channel.buffer)
          ≡ contents (w.fifos channel.buffer) ++ fitting (w.fifos channel.buffer) (0x47 ∷ bytes))
      × IsValid k (w'.fifos channel.buffer)
      × ((w'.medias media).pack_type ≡ ts2ts)
      × ((w'.medias media).output_pads ≡ (w.medias media).output_pads)
      × (w'.tasks ≡ w.tasks ++ (task_of channel ∷ []))
unfolding first_datagram set_types detect clive_media_attach
first_datagram-ts k w channel media bytes v h =
    let fifo = (put (w.fifos channel.buffer) (0x47 ∷ bytes) (length (0x47 ∷ bytes))).1 in
    let stored : World = record w { fifos = update w.fifos channel.buffer fifo } in
    let flv_set = clive_media_setype stored channel.flv_media ts2flv ts in
    let one = setype-OnlyTypes stored channel.flv_media ts2flv ts in
    let two = setype-OnlyTypes flv_set (some media) ts2ts ts in
    let held : (clive_media_setype flv_set (some media) ts2ts ts).fifos channel.buffer ≡ fifo =
      ap (λ f. f channel.buffer) (two.fifos ∙ one.fifos) ∙ rw (==_self channel.buffer) refl in
    rw h (
      refl,
      rw held (contents-put v (0x47 ∷ bytes) (length (0x47 ∷ bytes)) (omega arith)),
      rw held (put-IsValid v (0x47 ∷ bytes) (length (0x47 ∷ bytes)) (omega arith)),
      set_pack flv_set media ts2ts ts,
      two.pads media ∙ one.pads media,
      ap
          (λ l.
            l
            ++ (record {
              buffer = channel.buffer;
              flv_media = channel.flv_media;
              ts_media = some media;
            }
                ∷ []))
          (two.tasks ∙ one.tasks),
    )
