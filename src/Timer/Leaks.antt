-- ===== src/Timer/Leaks.antt =====
-- What a timer leaves behind that could not be started, or that is closed.
use cliveserver.Base.{
  ℕ, ◌*◌, ◌^◌, ◌<◌, ◌≡◌, ◌≢◌, refl, sym, ap, ◌∙◌, inl, inr, Bool, true, false, none, some, ◌==◌,
  replicate, arith, Bool-cases, ==_self, ==_iff,
}
use mathlib.Core.Path.{subst}
use cliveserver.Base.Int.{pos}
use cliveserver.Run.{returned, returned-injective}
use cliveserver.Memory.{NewBlock, Zeroed, Allocator, clive_calloc, clive_free}
use cliveserver.Memory.Blocks.{clive_calloc_lem}
use cliveserver.Event.Create.{Opened, Descriptors}
use cliveserver.Timer.{Timespec}
use cliveserver.Timer.Memory.{start_or_free, with_handle, with_timer, timer_new}

some-ne-none : {A : Type 0} (a : A) → some a ≢ none
some-ne-none a e = cc

module _ (descriptors : Descriptors) (allocator : Allocator) (timer_size handle_size : ℕ) where
  open descriptors use {Kernel, is_open, timerfd_create, timer_created}
  open allocator use {Heap, block, free, free_done}

  given_block :
      (h : Heap) (size p : ℕ) (h' : Heap)
      → 0 < size
      → size < 2 ^ 64
      → clive_calloc allocator h 1 size ≡ returned (some p, h')
      → NewBlock block h p (replicate size 0) h'
  given_block h size p h' positive small e =
      let (r, done, zeros) =
        clive_calloc_lem allocator h 1 size (omega (arith, positive)) (omega (arith, small)) in
      let same : r ≡ (some p, h') = returned-injective r (some p, h') (sym done ∙ e) in
      let one : 1 * size ≡ size = omega arith in
      subst (λ n. NewBlock block h p (replicate n 0) h') one
        (subst (Zeroed block h (1 * size)) same zeros)

  -- Where memory and a descriptor are to be had but the clock cannot be read, `clive_timer_new`
  -- returns NULL and gives back the timer's block, but not that of its handle, and its descriptor stays
  -- open: neither was there before.
  pub timer_new-leaks :
      (settime : Timespec → Bool) (msecs : ℕ) (h h1 h2 : Heap) (k k' : Kernel)
      (address handle fd : ℕ)
      → 0 < timer_size
      → timer_size < 2 ^ 64
      → 0 < handle_size
      → handle_size < 2 ^ 64
      → clive_calloc allocator h 1 timer_size ≡ returned (some address, h1)
      → clive_calloc allocator h1 1 handle_size ≡ returned (some handle, h2)
      → timerfd_create k ≡ (pos fd, k')
      → (h' : Heap) × (timer_new descriptors allocator timer_size handle_size none settime msecs h k
          ≡ returned (none, h', k'))
        × (block h' address ≡ none)
        × (block h handle ≡ none)
        × (block h' handle ≢ none)
        × (is_open k fd ≡ false)
        × (is_open k' fd ≡ true)
  unfolding timer_new with_timer with_handle start_or_free clive_free
  timer_new-leaks settime msecs h h1 h2 k k' address handle fd p1 s1 p2 s2 first second opened =
      let (fresh, new) = given_block h timer_size address h1 p1 s1 first in
      let (fresh', new') = given_block h1 handle_size handle h2 p2 s2 second in
      let held : block h1 address ≡ some (replicate timer_size 0) =
        new address ∙ rw (==_self address) refl in
      let apart : (handle == address) ≡ false = elim (Bool-cases (handle == address)) [
        | inr e ↦ e
        | inl e ↦
            let same : handle ≡ address = (==_iff handle address).0 e in
            absurd
              (some-ne-none (replicate timer_size 0) (sym held ∙ sym (ap (block h1) same) ∙ fresh'))
      ] in
      let (closed_before, now_open) = subst (Opened is_open k) opened (timer_created k) in
      (
        free h2 address,
        rw (first, second, opened) refl,
        free_done h2 address address ∙ rw (==_self address) refl,
        sym (new handle ∙ rw apart refl) ∙ fresh',
        λ e. some-ne-none (replicate handle_size 0) (
            sym (free_done h2 address handle ∙ rw apart (new' handle ∙ rw (==_self handle) refl))
            ∙ e),
        closed_before,
        now_open fd ∙ rw (==_self fd) refl,
      )
