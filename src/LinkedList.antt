-- ===== src/LinkedList.antt =====
-- common/list.c and list.h: doubly linked lists on a store of entries. A `List_t` lives outside the
-- store, so a function that changes one returns the new value.
pub mod Linked
pub mod Relink
pub mod Link
pub mod Walk
pub mod IsList
pub mod Insert
pub mod Loops
pub mod Clients
pub mod Spec
pub mod Places
pub mod Refine
mod Tests
use cliveserver.Base.{
  ℕ, zero, suc, ◌+◌, ◌-◌, Bool, true, false, Option, none, some, ◌==◌, if◌then◌else◌,
}

abbrev pub Ptr : Type 0
Ptr = ℕ

abbrev pub null : Ptr
null = 0

-- `ListEntry_t`; the data is the caller's pointer
pub record Entry : Type 0 where
  pub item : ℕ
  pub next : Ptr
  pub prev : Ptr

abbrev pub entry : ℕ → Ptr → Ptr → Entry
entry item next prev = record { item = item; next = next; prev = prev }

-- `List_t`; `count` counts allocated entries, so it cannot overflow
pub record Header : Type 0 where
  pub count : ℕ
  pub head : Ptr
  pub tail : Ptr

abbrev pub Heap : Type 0
Heap = Ptr → Option Entry

abbrev pub write : Heap → Ptr → Option Entry → Heap
write h p c a = if a == p then c else h a

-- What a function does to the store; `none` is an access through NULL or to an entry that is not
-- allocated.
abbrev pub Command : Type 0 → Type 0
Command A = Heap → Option (A × Heap)

abbrev pub abort : {A : Type 0} → Command A
abort heap = none

abbrev pub pure : {A : Type 0} → A → Command A
pure result = λ heap. some (result, heap)

infixl 5 ◌>>=◌ ◌>>◌
abbrev pub ◌>>=◌ : {A B : Type 0} → Command A → (A → Command B) → Command B
◌>>=◌ command next heap = elim (command heap) [
  | some (result, heap') ↦ next result heap'
  | none ↦ none
]

abbrev pub ◌>>◌ : {A B : Type 0} → Command A → Command B → Command B
command >> second = command >>= λ ignored. second

abbrev pub store : Ptr → Option Entry → Command (Unit {0})
store p c h = some (tt, write h p c)

unfoldable pub load : Ptr → Command Entry
load p h = if p == null then none else elim (h p) [ none ↦ none | some e ↦ some (e, h) ]

unfoldable pub set_next : Ptr → Ptr → Command (Unit {0})
set_next p q = do e ← load p; store p (some (record e { next = q }))

unfoldable pub set_prev : Ptr → Ptr → Command (Unit {0})
set_prev p q = do e ← load p; store p (some (record e { prev = q }))

unfoldable pub free : Ptr → Command (Unit {0})
free p = load p >> store p none

-- `if (p) p->next = q;`, and the same for `prev`
unfoldable pub next_if : Ptr → Ptr → Command (Unit {0})
next_if p q = if p == null then pure tt else set_next p q

unfoldable pub prev_if : Ptr → Ptr → Command (Unit {0})
prev_if p q = if p == null then pure tt else set_prev p q

-- what both insertions do last to the list: an entry before NULL is the last one
abbrev pub grown : Header → Ptr → Ptr → Header
grown l head tail = record { count = l.count + 1; head = head; tail = tail }

-- `fresh` is what `calloc` returns.
unfoldable pub insert_after_current : Ptr → Header → Ptr → ℕ → Command (Bool × Header)
insert_after_current fresh l current item =
    if fresh == null
    then pure (false, l)
    else if current == null
    then (do
      store fresh (some (entry item null l.tail))
      next_if l.tail fresh
      pure (true, grown l (if l.head == null then fresh else l.head) fresh))
    else (do
      cur ← load current
      store fresh (some (entry item cur.next current))
      set_next current fresh
      prev_if cur.next fresh
      pure (
        true,
        grown l (if l.head == null then fresh else l.head)
            (if cur.next == null then fresh else l.tail),
      ))

unfoldable pub insert_before_current : Ptr → Header → Ptr → ℕ → Command (Bool × Header)
insert_before_current fresh l current item =
    if fresh == null
    then pure (false, l)
    else if current == null
    then (do
      store fresh (some (entry item null l.tail))
      next_if l.tail fresh
      pure (true, grown l (if l.head == null then fresh else l.head) fresh))
    else (do
      cur ← load current
      store fresh (some (entry item current cur.prev))
      set_prev current fresh
      next_if cur.prev fresh
      pure (true, grown l (if current == l.head then fresh else l.head) l.tail))

unfoldable pub add : Ptr → Header → ℕ → Command (Bool × Header)
add fresh l item = insert_after_current fresh l l.tail item

-- the list, and the iterator's new current entry
unfoldable pub remove_current : Header → Ptr → Command (Header × Ptr)
remove_current l current = do
  e ← load current
  next_if e.prev e.next
  prev_if e.next e.prev
  free current
  pure (
    record {
      count = l.count - 1;
      head = if current == l.head then e.next else l.head;
      tail = if current == l.tail then e.prev else l.tail;
    },
    e.next,
  )
