-- ===== src/Pipeline/Tests.antt =====
-- Three bytes on their way to two clients.
use cliveserver.Base.{◌^◌, ◌≡◌, refl, none, some, [], ◌∷◌, ◌==◌, if◌then◌else◌, arith}
use cliveserver.Kfifo.{Kfifo, len, alloc}
use cliveserver.Kfifo.Word.{sub32}
use cliveserver.Kfifo.Inv.{IsValid, contents}
use cliveserver.Kfifo.Window.{window}
use cliveserver.Kfifo.Size.{alloc-IsValid}
use cliveserver.Media.{ts2ts, ts, World, Task}
use cliveserver.Http.Writer.{NoneFails}
use cliveserver.Http.{HttpTask, Writes, wrote, would_block}
use cliveserver.Base.{length, ◌++◌, ◌+◌}
use cliveserver.Base.Sublists.{Sublist}
use cliveserver.Pipeline.Schedule.{
  Flow, at_rest, store, repack, write, Scheduled, at_first, later, storing, repacking, writing,
}
use cliveserver.Pipeline.Moves.{Wired, on_the_way, repack_roomy}
use cliveserver.Pipeline.History.{scheduled-history, scheduled-whole, scheduled-Wired, write_whole}
use cliveserver.Base.{ap, length-take}
use cliveserver.Kfifo.Refine.{length-contents}
use cliveserver.Pipeline.{deliver}
use cliveserver.Pipeline.Delivery.{Ready, deliver-contents}

abbrev busy : Kfifo
busy = record { buffer = 3 ∷ 0 ∷ 1 ∷ 2 ∷ []; size = 4; in_offset = 5; out_offset = 2 }

abbrev relay : World
relay = record {
  fifos = λ p. if p == 1 then busy else alloc (2 ^ 10);
  medias = λ m. record { pack_type = ts2ts; input_media_type = ts; output_pads = 4 ∷ [] };
  tasks = [];
}

abbrev job : Task
job = record { buffer = 1; flv_media = none; ts_media = some 3 }

abbrev viewers : HttpTask
viewers = record { clients = 7 ∷ 8 ∷ []; buffer = 4; channel_name = [] }

busy-IsValid : IsValid 2 busy
unfolding len sub32
busy-IsValid = omega arith

relay-Ready : Ready 2 10 relay job viewers 7
relay-Ready = record {
  apart = refl;
  distinct = (refl, tt);
  connected = refl;
  ring_ok = busy-IsValid;
  pad_ok = (alloc-IsValid 10 (omega arith) (omega arith)).0;
  wide = omega arith;
  nothing = (alloc-IsValid 10 (omega arith) (omega arith)).1;
  once = refl;
}

contents-busy : contents busy ≡ 1 ∷ 2 ∷ 3 ∷ []
unfolding window len sub32
contents-busy = refl

deliver-contents_example :
    deliver 1 relay job viewers (λ n d length. wrote length) 7 ≡ contents busy
deliver-contents_example =
    deliver-contents 1 2 10 relay job viewers 7 (λ n d length. wrote length) (λ n d length. refl)
      relay-Ready (rw contents-busy (omega arith))

relay-Wired : Wired 2 10 job 7 relay viewers
relay-Wired = record {
  apart = refl;
  distinct = (refl, tt);
  connected = refl;
  ring_ok = busy-IsValid;
  pad_ok = (alloc-IsValid 10 (omega arith) (omega arith)).0;
  once = refl;
}

abbrev stored_flow : Flow
stored_flow = store job 7 (at_rest relay viewers) (9 ∷ 8 ∷ [])

abbrev repacked_flow : Flow
repacked_flow = repack job 7 stored_flow

-- the first client takes all, the second nothing
abbrev some_take : Writes
some_take c length = if c == 7 then wrote length else would_block

some_alive : NoneFails some_take repacked_flow.http.clients
unfolding repack store
some_alive n = (refl, (refl, tt))

abbrev written_flow : Flow
written_flow = write job 7 repacked_flow some_take

relay_run : Scheduled job 7 (at_rest relay viewers) written_flow
relay_run =
    later (later (later at_first (storing (9 ∷ 8 ∷ []))) repacking) (writing some_take some_alive)

scheduled-history_example :
    Sublist
      (on_the_way job written_flow)
      (on_the_way job (at_rest relay viewers) ++ written_flow.stored)
    × (length (on_the_way job written_flow) + (written_flow.dropped + written_flow.unsent)
        ≡ length (on_the_way job (at_rest relay viewers) ++ written_flow.stored))
scheduled-history_example =
    scheduled-history 2 10 job 7 relay viewers written_flow relay-Wired relay_run

dropped_none : written_flow.dropped ≡ 0
unfolding store write
dropped_none =
    let pad = alloc-IsValid 10 (omega arith) (omega arith) in
    repack_roomy 2 10 job 7 stored_flow (
      omega (
        arith,
        pad.0.sized,
        length-contents (alloc (2 ^ 10)),
        ap length pad.1,
        length-take 1024 (contents (stored_flow.world.fifos job.buffer)),
      ))

unsent_none : written_flow.unsent ≡ 0
unfolding store repack
unsent_none =
    write_whole 2 10 job 7 repacked_flow some_take some_alive (λ n. refl)
      (scheduled-Wired 2 10 job 7 (at_rest relay viewers) repacked_flow relay-Wired
        (later (later at_first (storing (9 ∷ 8 ∷ []))) repacking))

scheduled-whole_example :
    on_the_way job written_flow ≡ on_the_way job (at_rest relay viewers) ++ written_flow.stored
scheduled-whole_example =
    scheduled-whole 2 10 job 7 relay viewers written_flow relay-Wired relay_run dropped_none
      unsent_none
