-- ===== src/Http/Writer.antt =====
-- The writing thread: what the clients get of the bytes of a task's ring.
use cliveserver.Base.{
  ℕ, ◌≡◌, refl, ap, ◌∙◌, ◌<◌, map, length, Bool, true, false, List, [], ◌∷◌, ◌++◌, lt→ltb, take,
  take-append-drop, ==_self,
}
use cliveserver.Kfifo.{Kfifo, len, get}
use cliveserver.Kfifo.Inv.{IsValid, contents}
use cliveserver.Kfifo.Get.{get_lem}
use mathlib.Core.Path.{ap₂}
use cliveserver.Http.{
  HttpTask, WriteResult, write_error, fails, taken_count, Writes, write_clients, deliveries,
  send_bytes, http_round,
}

-- no write to these clients fails with an error other than EAGAIN
abbrev AllAlive : (ℕ → Bool) → List ℕ → Type 0
AllAlive gone [] = Unit {0}
AllAlive gone (c ∷ clients) = (gone c ≡ false) × AllAlive gone clients

write_clients-skip :
    (gone : ℕ → Bool) (before : List ℕ) (c d : ℕ) (after : List ℕ)
    → AllAlive gone before
    → gone c ≡ true
    → write_clients gone (before ++ c ∷ d ∷ after)
      ≡ (before ++ d ∷ (write_clients gone after).0, before ++ c ∷ (write_clients gone after).1)
unfolding write_clients
write_clients-skip gone [] c d after alive e = rw e refl
write_clients-skip gone (b ∷ []) c d after alive e = rw (alive.0, e) refl
write_clients-skip gone (b ∷ b' ∷ before) c d after alive e =
    rw (alive.0, write_clients-skip gone (b' ∷ before) c d after alive.1 e) refl

write_clients-alive :
    (gone : ℕ → Bool) (clients : List ℕ)
    → AllAlive gone clients
    → write_clients gone clients ≡ (clients, clients)
unfolding write_clients
write_clients-alive gone [] alive = refl
write_clients-alive gone (c ∷ []) alive = rw alive.0 refl
write_clients-alive gone (c ∷ d ∷ clients) alive =
    rw (alive.0, write_clients-alive gone (d ∷ clients) alive.1) refl

deliveries-append :
    (results : ℕ → WriteResult) (bytes xs ys : List ℕ)
    → deliveries results bytes (xs ++ ys)
      ≡ deliveries results bytes xs ++ deliveries results bytes ys
unfolding deliveries
deliveries-append results bytes [] ys = refl
deliveries-append results bytes (x ∷ xs) ys =
    ap (λ l. (x, take (taken_count (results x)) bytes) ∷ l) (deliveries-append results bytes xs ys)

deliveries-map :
    (results : ℕ → WriteResult) (bytes clients : List ℕ)
    → deliveries results bytes clients
      ≡ map (λ b. (b, take (taken_count (results b)) bytes)) clients
unfolding deliveries
deliveries-map results bytes [] = refl
deliveries-map results bytes (c ∷ clients) =
    ap (λ l. (c, take (taken_count (results c)) bytes) ∷ l) (deliveries-map results bytes clients)

-- Of the clients in front of one whose write fails with an error other than EAGAIN, themselves without
-- such a write, each stays, and its socket has taken as many of the bytes, from the first on, as its
-- write returned, and none on EAGAIN. The failing client has taken none and goes, and the one behind it
-- stays without a write; those behind these two fare as if they were the whole list.
pub send_bytes_lem :
    (results : ℕ → WriteResult) (bytes before : List ℕ) (c d : ℕ) (after : List ℕ)
    → AllAlive (λ b. fails (results b)) before
    → results c ≡ write_error
    → let (kept, sent) = send_bytes results bytes (before ++ c ∷ d ∷ after) in
      let (kept', sent') = send_bytes results bytes after in
      (kept ≡ before ++ d ∷ kept')
      × (sent ≡ map (λ b. (b, take (taken_count (results b)) bytes)) before ++ (c, []) ∷ sent')
unfolding send_bytes deliveries
send_bytes_lem results bytes before c d after alive e =
    let calls = (write_clients (λ b. fails (results b)) after).1 in
    let skip = write_clients-skip (λ b. fails (results b)) before c d after alive (ap fails e) in
    (
      ap (λ (r : List ℕ × List ℕ). r.0) skip,
      ap (λ (r : List ℕ × List ℕ). deliveries results bytes r.1) skip
          ∙ deliveries-append results bytes before (c ∷ calls)
          ∙ ap₂ ◌++◌ (deliveries-map results bytes before)
              (ap (λ r. (c, take (taken_count r) bytes) ∷ deliveries results bytes calls) e),
    )

-- no write of a round to these clients fails with an error other than EAGAIN
abbrev pub NoneFails : Writes → List ℕ → Type 0
NoneFails writes clients = (n : ℕ) → AllAlive (λ c. fails (writes c n)) clients

-- A round for a task with bytes in its valid ring, to none of whose clients a write fails with an error
-- other than EAGAIN, takes the up to 1024 oldest bytes out of the ring, which stays valid, and offers
-- exactly these to all the clients, who stay.
pub http_round_lem :
    (k : ℕ) (fifos : ℕ → Kfifo) (task : HttpTask) (writes : Writes)
    → IsValid k (fifos task.buffer)
    → 0 < len (fifos task.buffer)
    → NoneFails writes task.clients
    → let (fifos', task', bytes, sent) = http_round fifos task writes in
      (bytes ++ contents (fifos' task.buffer) ≡ contents (fifos task.buffer))
      × (bytes ≡ take 1024 (contents (fifos task.buffer)))
      × IsValid k (fifos' task.buffer)
      × (sent ≡ deliveries (λ c. writes c (length bytes)) bytes task.clients)
      × (task'.clients ≡ task.clients)
unfolding http_round send_bytes
http_round_lem k fifos task writes v h alive =
    let (taken, left, valid) = get_lem 1024 v in
    let n = length (get (fifos task.buffer) 1024).0 in
    rw
      (
        lt→ltb 0 (len (fifos task.buffer)) h,
        write_clients-alive (λ c. fails (writes c n)) task.clients (alive n),
        ==_self task.buffer,
      )
      (
        rw (taken, left) (take-append-drop 1024 (contents (fifos task.buffer))),
        taken,
        valid,
        refl,
        refl,
      )
