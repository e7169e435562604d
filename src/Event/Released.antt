-- ===== src/Event/Released.antt =====
-- What `event_base_create` leaves open or allocated, and that `event_base_destroy` gives it back.
use cliveserver.Base.{
  ℕ, ◌*◌, ◌^◌, ◌<◌, ◌≡◌, refl, sym, ap, ◌∙◌, inl, inr, Option, none, some, List, ◌==◌,
  if◌then◌else◌, arith, lt→ltb, Bool-cases, ==_iff, replicate,
}
use mathlib.Core.Path.{subst}
use cliveserver.Base.Int.{ℤ, pos, negsuc}
use cliveserver.Run.{returned, returned-injective}
use cliveserver.Memory.{SameBlocks, NewBlock, Allotted, Zeroed, Allocator, clive_alloc, clive_free}
use cliveserver.Memory.Blocks.{clive_alloc_lem, clive_calloc_lem, freed}
use cliveserver.Event.Create.{
  SameOpen, Opened, Descriptors, EventBase, event_size, base_size, with_events, with_epoll,
  event_base_create, event_base_destroy,
}

module _ (descriptors : Descriptors) (allocator : Allocator) where
  open descriptors use {Kernel, is_open, epoll_create, close, created, closed}
  open allocator use {Heap, block, free, free_done}

  -- what a new event base holds: a descriptor and two blocks that were not there
  pub record Held (h : Heap) (k : Kernel) (nevent : ℕ) (evb : EventBase) (h' : Heap) (k' : Kernel)
      : Type 0 where
    pub size : evb.nevent ≡ nevent
    pub opened : Opened is_open k (pos evb.ep, k')
    pub between : Heap
    pub events : NewBlock block h evb.event (replicate (nevent * event_size) 0) between
    pub bytes : List ℕ
    pub base : NewBlock block between evb.address bytes h'

  -- nothing, or an event base with what it holds
  abbrev pub Created : Heap → Kernel → ℕ → Option EventBase × Heap × Kernel → Type 0
  Created h k nevent (none, h', k') = SameBlocks block h h' × SameOpen is_open k k'
  Created h k nevent (some evb, h', k') = Held h k nevent evb h' k'

  closed_again :
      (k : Kernel) (ep : ℕ) (k' : Kernel)
      → Opened is_open k (pos ep, k')
      → SameOpen is_open k (close k' ep).1
  closed_again k ep k' (fresh, new) s = closed k' ep s ∙ elim (Bool-cases (s == ep)) [
    | inl e ↦ let same : s ≡ ep = (==_iff s ep).0 e in rw e (sym (ap (is_open k) same ∙ fresh))
    | inr e ↦ rw e (new s ∙ rw e refl)
  ]

  -- with the array of events, after the attempt to allocate the base itself
  with_base_lem :
      (h : Heap) (k : Kernel) (nevent ep : ℕ) (k' : Kernel) (event : ℕ) (h1 : Heap)
      (r : Option ℕ × Heap)
      → Opened is_open k (pos ep, k')
      → NewBlock block h event (replicate (nevent * event_size) 0) h1
      → clive_alloc allocator h1 base_size ≡ returned r
      → Allotted block h1 base_size r
      → (a : Option EventBase × Heap × Kernel) × (with_events descriptors allocator nevent k' ep
            (some event, h1)
          ≡ returned a)
        × Created h k nevent a
  unfolding with_events clive_free
  with_base_lem h k nevent ep k' event h1 (none, h2) opened (fresh, new) done same = (
    (none, free h2 event, (close k' ep).1),
    rw done refl,
    (
      freed allocator h event (replicate (nevent * event_size) 0) h2 (fresh, λ q. same q ∙ new q),
      closed_again k ep k' opened,
    ),
  )
  with_base_lem h k nevent ep k' event h1 (some address, h2) opened new done (bytes, (size, base)) =
      (
        (some (record { address = address; ep = ep; event = event; nevent = nevent }), h2, k'),
        rw done refl,
        record {
          size = refl;
          opened = opened;
          between = h1;
          events = new;
          bytes = bytes;
          base = base;
        },
      )

  with_events_lem :
      (h : Heap) (k : Kernel) (nevent ep : ℕ) (k' : Kernel) (r : Option ℕ × Heap)
      → Opened is_open k (pos ep, k')
      → Zeroed block h (nevent * event_size) r
      → (a : Option EventBase × Heap × Kernel) × (with_events descriptors allocator nevent k' ep r
          ≡ returned a)
        × Created h k nevent a
  unfolding with_events clive_free
  with_events_lem h k nevent ep k' (none, h1) opened same =
      ((none, h1, (close k' ep).1), refl, (same, closed_again k ep k' opened))
  with_events_lem h k nevent ep k' (some event, h1) opened new =
      let (r, done, allotted) = clive_alloc_lem allocator h1 base_size (omega arith) in
      with_base_lem h k nevent ep k' event h1 r opened new done allotted

  with_epoll_lem :
      (h : Heap) (k : Kernel) (nevent : ℕ) (r : ℤ × Kernel)
      → 0 < nevent
      → nevent < 2 ^ 31
      → Opened is_open k r
      → (a : Option EventBase × Heap × Kernel) × (with_epoll descriptors allocator nevent h r
          ≡ returned a)
        × Created h k nevent a
  unfolding with_epoll
  with_epoll_lem h k nevent (negsuc e, k') positive small same =
      ((none, h, k'), refl, ((λ q. refl), same))
  with_epoll_lem h k nevent (pos ep, k') positive small opened =
      let (r, done, zeros) =
        clive_calloc_lem allocator h nevent event_size (omega (arith, positive))
          (omega (arith, small)) in
      let (a, done', ok) = with_events_lem h k nevent ep k' r opened zeros in (a, rw done done', ok)

  -- For a positive `int`, `event_base_create` returns. Either it fails, wherever it does, and the
  -- blocks of the heap and the open descriptors are those from before; or there is an event base with
  -- this count, which holds a new descriptor, a new block of zeros for the events and a new block for
  -- itself, and nothing else has changed.
  pub create-Created :
      (h : Heap) (k : Kernel) (nevent : ℕ)
      → 0 < nevent
      → nevent < 2 ^ 31
      → (a : Option EventBase × Heap × Kernel) × (event_base_create descriptors allocator h k
            (pos nevent)
          ≡ returned a)
        × Created h k nevent a
  unfolding event_base_create
  create-Created h k nevent positive small =
      rw (lt→ltb 0 nevent positive)
        (with_epoll_lem h k nevent (epoll_create k nevent) positive small (created k nevent))

  both_freed :
      (h : Heap) (k : Kernel) (nevent : ℕ) (evb : EventBase) (h' : Heap) (k' : Kernel)
      → Held h k nevent evb h' k'
      → SameBlocks block h (free (free h' evb.event) evb.address)
  both_freed h k nevent evb h' k' held q =
      let (fresh, new) = held.events in
      let (fresh', new') = held.base in
      free_done (free h' evb.event) evb.address q
      ∙ ap (λ b. if q == evb.address then none else b) (free_done h' evb.event q)
      ∙ elim (Bool-cases (q == evb.address)) [
        | inl e ↦
            let same : q ≡ evb.address = (==_iff q evb.address).0 e in
            rw e (elim (Bool-cases (q == evb.event)) [
              | inl e' ↦
                  let same' : q ≡ evb.event = (==_iff q evb.event).0 e' in
                  sym (ap (block h) same' ∙ fresh)
              | inr e' ↦ sym (sym (new q ∙ rw e' refl) ∙ ap (block held.between) same ∙ fresh')
            ])
        | inr e ↦ rw e (elim (Bool-cases (q == evb.event)) [
          | inl e' ↦
              let same' : q ≡ evb.event = (==_iff q evb.event).0 e' in
              rw e' (sym (ap (block h) same' ∙ fresh))
          | inr e' ↦ rw e' (new' q ∙ rw e (new q ∙ rw e' refl))
        ])
      ]

  -- An event base whose descriptor is not 0 is destroyed without a trace: after
  -- `event_base_destroy` the blocks of the heap and the open descriptors are those from before
  -- `event_base_create`.
  pub destroy-create :
      (h : Heap) (k : Kernel) (nevent : ℕ) (evb : EventBase) (h' : Heap) (k' : Kernel)
      → 0 < nevent
      → nevent < 2 ^ 31
      → event_base_create descriptors allocator h k (pos nevent) ≡ returned (some evb, h', k')
      → 0 < evb.ep
      → (a : Heap × Kernel) × (event_base_destroy descriptors allocator h' k' (some evb)
          ≡ returned a)
        × SameBlocks block h a.0
        × SameOpen is_open k a.1
  unfolding event_base_destroy clive_free
  destroy-create h k nevent evb h' k' positive small e usable =
      let (a, done, ok) = create-Created h k nevent positive small in
      let same : a ≡ (some evb, h', k') = returned-injective a (some evb, h', k') (sym done ∙ e) in
      let held : Held h k nevent evb h' k' = subst (Created h k nevent) same ok in
      (
        (free (free h' evb.event) evb.address, (close k' evb.ep).1),
        rw (lt→ltb 0 evb.ep usable) refl,
        both_freed h k nevent evb h' k' held,
        closed_again k evb.ep k' held.opened,
      )
