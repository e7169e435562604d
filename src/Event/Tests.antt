-- ===== src/Event/Tests.antt =====
-- The theorems of the event interface over a small epoll.
use cliveserver.Base.{ℕ, ◌≡◌, refl, ◌↔◌, true, false, none, some, arith, ◌==◌, if◌then◌else◌}
use cliveserver.Base.Int.{is_neg}
use cliveserver.Event.{Ready, Con, both, ctl_add, aborted}
use cliveserver.Base.{Option, ltb, replicate}
use cliveserver.Base.Int.{pos}
use cliveserver.Run.{returned}
use cliveserver.Memory.{SameBlocks, clive_alloc, clive_zalloc, clive_calloc, zeroed}
use cliveserver.Memory.Small.{SmallHeap, small_allocator, allot, overwrite, no_blocks}
use cliveserver.Event.Create.{
  SameOpen, EventBase, event_base_create, event_base_destroy, with_epoll, with_events,
}
use cliveserver.Event.Released.{Created, create-Created, destroy-create}
use cliveserver.Event.TinyFiles.{OpenFiles, open_next, tiny_files}
use cliveserver.Event.Tiny.{Entries, tiny}
use cliveserver.Event.Flags.{
  Kept, del_out, call, call-Kept, register_client, register_client-aborts,
}

abbrev entries : Entries
entries s = if s == 7 then some both else none

abbrev fresh : ℕ → Con
fresh skt = record {
  skt = skt;
  recv_active = false;
  send_active = false;
  events = 0;
  done = false;
  err = 0;
}

abbrev client : Con
client = record (fresh 7) { recv_active = true; send_active = true }

call-Kept_example : Kept tiny entries client (call tiny del_out entries client)
call-Kept_example =
    call-Kept tiny del_out (record { sends_receives = λ _. refl; known = refl }) (omega arith)
      (omega arith) (λ _. refl)

register_client-aborts_example :
    (register_client tiny entries (fresh 9) ≡ aborted)
    ↔ (is_neg (tiny.ctl entries 9 (ctl_add both)).0 ≡ true)
register_client-aborts_example =
    register_client-aborts tiny entries (fresh 9) (omega arith) (omega arith) refl

abbrev hung : Ready
hung = record { readable = false; hung_up = true; writable = false; failed = false }

abbrev standard_files : OpenFiles
standard_files = record { next = 3; open_ones = λ s. ltb s 3 }

create-Created_example :
    (a : Option EventBase × SmallHeap × OpenFiles) × (event_base_create tiny_files small_allocator
        no_blocks standard_files
        (pos 2)
      ≡ returned a)
    × Created tiny_files small_allocator no_blocks standard_files 2 a
create-Created_example =
    create-Created tiny_files small_allocator no_blocks standard_files 2 (omega arith) (omega arith)

abbrev new_base : EventBase
new_base = record { address = 2; ep = 3; event = 1; nevent = 2 }

abbrev base_heap : SmallHeap
base_heap = (allot (overwrite (allot no_blocks 24 none).1 1 0 24 (some (replicate 24 7))) 32 none).1

abbrev base_files : OpenFiles
base_files = (open_next standard_files false).1

base_made :
    event_base_create tiny_files small_allocator no_blocks standard_files (pos 2)
    ≡ returned (some new_base, base_heap, base_files)
unfolding event_base_create with_epoll with_events clive_calloc clive_zalloc clive_alloc zeroed
base_made = refl

destroy-create_example :
    (a : SmallHeap × OpenFiles) × (event_base_destroy tiny_files small_allocator base_heap
        base_files
        (some new_base)
      ≡ returned a)
    × SameBlocks (λ (h : SmallHeap). h.blocks) no_blocks a.0
    × SameOpen (λ (k : OpenFiles). k.open_ones) standard_files a.1
destroy-create_example =
    destroy-create tiny_files small_allocator no_blocks standard_files 2 new_base base_heap
      base_files (omega arith) (omega arith) base_made (omega arith)
