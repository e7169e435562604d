-- ===== src/Event/TinyFiles.antt =====
-- A process that may open one more descriptor, for the tests.
use cliveserver.Base.{ℕ, ◌≡◌, refl, Bool, true, false, ◌==◌, if◌then◌else◌}
use cliveserver.Base.Int.{ℤ, pos, negsuc}
use cliveserver.Event.Create.{Opened, Descriptors}

pub record OpenFiles : Type 0 where
  pub next : ℕ
  pub open_ones : ℕ → Bool

abbrev pub open_next : OpenFiles → Bool → ℤ × OpenFiles
open_next k true = (negsuc 0, k)
open_next k false =
    (pos k.next, record k { open_ones = λ s. if s == k.next then true else k.open_ones s })

pub open_next-Opened :
    (k : OpenFiles) (b : Bool)
    → k.open_ones k.next ≡ b
    → Opened (λ (f : OpenFiles). f.open_ones) k (open_next k b)
open_next-Opened k true e = λ s. refl
open_next-Opened k false e = (e, λ s. refl)

abbrev pub tiny_files : Descriptors
tiny_files = record {
  Kernel = OpenFiles;
  is_open = λ k. k.open_ones;
  epoll_create = λ k n. open_next k (k.open_ones k.next);
  timerfd_create = λ k. open_next k (k.open_ones k.next);
  close = λ k fd. (pos 0, record k { open_ones = λ s. if s == fd then false else k.open_ones s });
  created = λ k n. open_next-Opened k (k.open_ones k.next) refl;
  timer_created = λ k. open_next-Opened k (k.open_ones k.next) refl;
  closed = λ k fd s. refl;
}
