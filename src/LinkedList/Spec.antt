-- ===== src/LinkedList/Spec.antt =====
-- What common/list.c promises of the data in a list, and the calls that a client makes: directly or
-- through an iterator that holds_at been initialised and moved a number of times.
use cliveserver.Base.{
  ℕ, suc, Bool, true, false, List, [], ◌∷◌, ◌++◌, ◌==◌, if◌then◌else◌, ltb, length, take, drop,
}
use cliveserver.LinkedList.{
  Ptr, null, Header, Heap, Command, ◌>>=◌, pure, add, insert_after_current, insert_before_current,
  remove_current,
}
use cliveserver.LinkedList.Walk.{seek, remove}

pub data Op : Type 0 where
  append : ℕ → Op
  before : ℕ → ℕ → Op
  behind : ℕ → ℕ → Op
  delete : ℕ → Op
  delete_at : ℕ → Op

-- `calloc` gives an address by the store. A client tests `ListIterator_MoreEntries` before
-- `ListRemoveCurrent`.
unfoldable pub perform : (Heap → Ptr) → Header → Op → Command (Bool × Header)
perform calloc l (append x) h = add (calloc h) l x h
perform calloc l (before n x) h =
    (seek n l.head >>= λ current. insert_before_current (calloc h) l current x) h
perform calloc l (behind n x) h =
    (seek n l.head >>= λ current. insert_after_current (calloc h) l current x) h
perform calloc l (delete x) h = remove l x h
perform calloc l (delete_at n) h =
    (seek n l.head >>= λ current.
    if current == null
    then pure (false, l)
    else (remove_current l current >>= λ (l', next). pure (true, l')))
      h

unfoldable pub perform_all : (Heap → Ptr) → Header → List Op → Command (List Bool × Header)
perform_all calloc l [] = pure ([], l)
perform_all calloc l (op ∷ ops) = perform calloc l op >>= λ (done, l').
    perform_all calloc l' ops >>= λ (dones, l''). pure (done ∷ dones, l'')

unfoldable pub without : ℕ → List ℕ → List ℕ
without x [] = []
without x (v ∷ vs) = if x == v then vs else v ∷ without x vs

unfoldable pub holds : ℕ → List ℕ → Bool
holds x [] = false
holds x (v ∷ vs) = if x == v then true else holds x vs

-- the result of a call and the data it leaves, by whether there is memory for an entry
unfoldable pub expected : Op → Bool → List ℕ → Bool × List ℕ
expected (append x) memory xs = (memory, if memory then xs ++ x ∷ [] else xs)
expected (before n x) memory xs = (memory, if memory then take n xs ++ x ∷ drop n xs else xs)
expected (behind n x) memory xs =
    (memory, if memory then take (suc n) xs ++ x ∷ drop (suc n) xs else xs)
expected (delete x) memory xs = (holds x xs, without x xs)
expected (delete_at n) memory xs = (ltb n (length xs), take n xs ++ drop (suc n) xs)

unfoldable pub expected_all : List Op → List Bool → List ℕ → List Bool × List ℕ
expected_all [] memory xs = ([], xs)
expected_all (op ∷ ops) [] xs = ([], xs)
expected_all (op ∷ ops) (m ∷ memory) xs =
    let (done, after) = expected op m xs in
    let (dones, last) = expected_all ops memory after in (done ∷ dones, last)
