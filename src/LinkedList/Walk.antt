-- ===== src/LinkedList/Walk.antt =====
-- The iterator of common/list.h and the loops over it: ListRemove, ListFree and the loop of
-- http/http.c that writes to the clients of a task. Each round of a loop costs one unit of fuel.
use cliveserver.Base.{ℕ, zero, suc, Bool, true, false, List, [], ◌∷◌, ◌==◌, if◌then◌else◌}
use cliveserver.LinkedList.{
  Ptr, null, Header, Command, ◌>>=◌, ◌>>◌, pure, abort, load, free, remove_current,
}

-- `ListIterator_Next`
unfoldable pub move : Ptr → Command Ptr
move current = if current == null then pure null else (load current >>= λ e. pure e.next)

-- an iterator after `ListIterator_Init` and `n` moves
unfoldable pub seek : ℕ → Ptr → Command Ptr
seek zero current = pure current
seek (suc n) current = move current >>= λ next. seek n next

unfoldable pub remove_loop : ℕ → Header → Ptr → ℕ → Command (Bool × Header)
remove_loop zero l current item = abort
remove_loop (suc n) l current item = if current == null then pure (false, l) else (do
  e ← load current
  if item == e.item
      then (do (l', next) ← remove_current l current; pure (true, l'))
      else (do next ← move current; remove_loop n l next item))

unfoldable pub remove : Header → ℕ → Command (Bool × Header)
remove l item = remove_loop (suc l.count) l l.head item

-- the data handed to the destructor, where there is one
unfoldable pub free_loop : ℕ → Bool → Ptr → Command (List ℕ)
free_loop zero destructor current = abort
free_loop (suc n) destructor current = if current == null then pure [] else (do
  e ← load current
  free current
  items ← free_loop n destructor e.next
  pure (if destructor then e.item ∷ items else items))

unfoldable pub free_all : Header → Bool → Command (Header × List ℕ)
free_all l destructor = do
  items ← free_loop (suc l.count) destructor l.head
  pure (record { count = 0; head = null; tail = null }, items)

-- `Entry` of http/http.c on the clients of a task: the clients for which `clive_write` is
-- called, where `gone` are those on which it fails with an error other than EAGAIN
unfoldable pub write_loop : ℕ → (ℕ → Bool) → Header → Ptr → Command (Header × List ℕ)
write_loop zero gone l current = abort
write_loop (suc n) gone l current = if current == null then pure (l, []) else (do
  e ← load current
  (l', at) ← if gone e.item then remove_current l current else pure (l, current)
  next ← move at
  (l'', written) ← write_loop n gone l' next
  pure (l'', e.item ∷ written))

unfoldable pub write_all : (ℕ → Bool) → Header → Command (Header × List ℕ)
write_all gone l = write_loop (suc l.count) gone l l.head
