-- ===== src/LinkedList/Tests.antt =====
-- A list of three entries, two with the same data, in a store with room for one entry more.
use cliveserver.Base.{
  ◌≡◌, refl, Bool, true, false, Option, none, some, List, [], ◌∷◌, ◌==◌, if◌then◌else◌, length,
  arith,
}
use cliveserver.LinkedList.{
  Ptr, null, Entry, entry, Header, Heap, load, set_next, set_prev, next_if, prev_if, free,
  insert_after_current, insert_before_current, add, remove_current,
}
use cliveserver.LinkedList.Linked.{Chain, holds_at, OnlyAt}
use cliveserver.LinkedList.IsList.{IsList}
use cliveserver.LinkedList.Walk.{move, seek, remove_loop, remove, free_all, write_all}
use cliveserver.LinkedList.Loops.{items, free_all-items}
use cliveserver.LinkedList.Clients.{write_all-write_clients}
use cliveserver.LinkedList.Spec.{
  Op, append, before, delete, delete_at, perform, perform_all, expected_all,
}
use cliveserver.LinkedList.Refine.{GivesNew, perform_all-expected_all}
use cliveserver.Http.{write_clients}

abbrev three : Chain
three = (1, 10) ∷ (2, 20) ∷ (3, 10) ∷ []

abbrev heap : Heap
heap a =
    if a == 1
    then some (entry 10 2 0)
    else if a == 2
    then some (entry 20 3 1)
    else if a == 3
    then some (entry 10 0 2)
    else none

abbrev list : Header
list = record { count = 3; head = 1; tail = 3 }

list-IsList : IsList heap list three
list-IsList = record {
  linked = (refl, refl, refl, (refl, refl, refl, (refl, refl, refl, tt)));
  head_first = refl;
  tail_last = refl;
  counted = refl;
}

abbrev room : Option Entry → Ptr
room none = 4
room (some e) = null

-- the address 4, while it is free
abbrev calloc : Heap → Ptr
calloc h = room (h 4)

room-new : (h : Heap) (c : Option Entry) → h 4 ≡ c → (room c == null) ≡ false → h (room c) ≡ none
room-new h none held e = held
room-new h (some c) held e = ground (arith, e)

calloc-GivesNew : GivesNew calloc
calloc-GivesNew h = room-new h (h 4) refl

abbrev script : List Op
script = before 1 30 ∷ append 40 ∷ delete 10 ∷ delete_at 5 ∷ delete_at 1 ∷ []

perform_all-expected_all_example :
    (memory : List Bool) × (h' : Heap) × (l' : Header) × (ys : Chain) × (length memory ≡ 5)
    × (perform_all calloc list script heap
        ≡ some (((expected_all script memory (10 ∷ 20 ∷ 10 ∷ [])).0, l'), h'))
    × IsList h' l' ys
    × (items ys ≡ (expected_all script memory (10 ∷ 20 ∷ 10 ∷ [])).1)
unfolding items
perform_all-expected_all_example =
    perform_all-expected_all calloc calloc-GivesNew heap list three script list-IsList

-- the answers of the run
script_results :
    elim (perform_all calloc list script heap) [ none ↦ [] | some ((answers, l'), h') ↦ answers ]
    ≡ true ∷ false ∷ true ∷ false ∷ true ∷ []
unfolding perform_all perform add insert_after_current insert_before_current remove_current seek
    move remove remove_loop load set_next set_prev next_if prev_if free
script_results = refl

free_all-items_example :
    (h' : Heap) × (l' : Header) × (free_all list true heap ≡ some ((l', 10 ∷ 20 ∷ 10 ∷ []), h'))
    × IsList h' l' []
    × ((a : Ptr) → holds_at a three ≡ true → h' a ≡ none)
    × OnlyAt three heap h'
unfolding items
free_all-items_example = free_all-items heap list three true list-IsList

write_all-write_clients_example :
    (h' : Heap) × (l' : Header) × (ys : Chain) × (write_all (λ c. c == 10) list heap
      ≡ some ((l', 10 ∷ 10 ∷ []), h'))
    × IsList h' l' ys
    × (items ys ≡ 20 ∷ [])
unfolding items write_clients
write_all-write_clients_example = write_all-write_clients (λ c. c == 10) heap list three list-IsList
