-- ===== src/Event/Tiny.antt =====
-- A small epoll that meets the laws of the interface, for tests.
use cliveserver.Base.{ℕ, ◌≡◌, true, false, Option, arith, ◌==◌, if◌then◌else◌}
use cliveserver.Base.Int.{ℤ, pos, negsuc, is_neg}
use cliveserver.Event.{Interest, Ctl, registered, Epoll}

-- the registered interests, by descriptor
abbrev pub Entries : Type 0
Entries = ℕ → Option Interest

-- descriptor 9 is refused
abbrev pub tiny_ctl : Entries → ℕ → Ctl → ℤ × Entries
tiny_ctl k skt c =
    if skt == 9 then (negsuc 0, k) else (pos 0, λ s. if s == skt then registered c else k s)

pub tiny_done :
    (k : Entries) (skt : ℕ) (c : Ctl) (s : ℕ)
    → is_neg (tiny_ctl k skt c).0 ≡ false
    → (tiny_ctl k skt c).1 s ≡ (if s == skt then registered c else k s)
tiny_done k skt c s h = ground arith

pub tiny_failed :
    (k : Entries) (skt : ℕ) (c : Ctl) (s : ℕ)
    → is_neg (tiny_ctl k skt c).0 ≡ true
    → (tiny_ctl k skt c).1 s ≡ k s
tiny_failed k skt c s h = ground arith

abbrev pub tiny : Epoll
tiny = record {
  ep = 5;
  Kernel = Entries;
  ctl = tiny_ctl;
  interest = λ k s. k s;
  ctl_done = tiny_done;
  ctl_failed = tiny_failed;
}
