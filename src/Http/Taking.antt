-- ===== src/Http/Taking.antt =====
-- What a round of the writing thread does to the rings, with bytes in the task's ring or without.
use cliveserver.Base.{
  ℕ, ◌+◌, ◌≡◌, refl, sym, ap, ◌∙◌, [], ◌∷◌, append-nil, if◌then◌else◌, length, inl, inr, false,
  List, ◌++◌, ◌==◌, ltb, ltb→lt, take, take-nil, arith, Bool-cases,
}
use cliveserver.Kfifo.{Kfifo, len}
use cliveserver.Kfifo.Inv.{IsValid, contents}
use cliveserver.Media.Round.{contents_idle}
use cliveserver.Http.{HttpTask, Writes, WriteResult, taken_count, deliveries, http_round}
use cliveserver.Http.Writer.{NoneFails, http_round_lem}

-- how often a client stands among the clients
abbrev pub copies : ℕ → List ℕ → ℕ
copies c [] = 0
copies c (d ∷ clients) = (if d == c then 1 else 0) + copies c clients

-- what one client's socket took, of what all took
abbrev pub bytes_for : ℕ → List (ℕ × List ℕ) → List ℕ
bytes_for c [] = []
bytes_for c ((d, taken) ∷ sent) = (if d == c then taken else []) ++ bytes_for c sent

module _ (c : ℕ) (results : ℕ → WriteResult) (bytes : List ℕ) where
  bytes_for-absent :
      (clients : List ℕ)
      → copies c clients ≡ 0
      → bytes_for c (deliveries results bytes clients) ≡ []
  unfolding deliveries
  bytes_for-absent [] e = refl
  bytes_for-absent (d ∷ clients) e = elim (Bool-cases (d == c)) [
    | inl same ↦ absurd (omega (arith, rw same at e))
    | inr other ↦ rw other (bytes_for-absent clients (omega (arith, rw other at e)))
  ]

  bytes_for-once :
      (clients : List ℕ)
      → copies c clients ≡ 1
      → bytes_for c (deliveries results bytes clients) ≡ take (taken_count (results c)) bytes
  unfolding deliveries
  bytes_for-once [] e = absurd (omega (arith, e))
  bytes_for-once (d ∷ clients) e = elim (Bool-cases (d == c)) [
    | inl same ↦
        let eq : d ≡ c = ground (arith, same) in
        rw (same, bytes_for-absent clients (omega (arith, rw same at e)))
          (append-nil (take (taken_count (results d)) bytes)
            ∙ ap (λ x. take (taken_count (results x)) bytes) eq)
    | inr other ↦ rw other (bytes_for-once clients (omega (arith, rw other at e)))
  ]

pub record Took (j : ℕ) (fifos : ℕ → Kfifo) (task : HttpTask) (writes : Writes)
    (r : (ℕ → Kfifo) × HttpTask × List ℕ × List (ℕ × List ℕ)) : Type 0 where
  pub split : r.2 ++ contents (r.0 task.buffer) ≡ contents (fifos task.buffer)
  pub first : r.2 ≡ take 1024 (contents (fifos task.buffer))
  pub valid : IsValid j (r.0 task.buffer)
  pub clients_lem : r.1.clients ≡ task.clients
  pub sent_lem :
      (c : ℕ)
      → copies c task.clients ≡ 1
      → bytes_for c r.3 ≡ take (taken_count (writes c (length r.2))) r.2
  pub buffer_lem : r.1.buffer ≡ task.buffer
  pub others : (q : ℕ) → (q == task.buffer) ≡ false → r.0 q ≡ fifos q

-- A round for a task to none of whose clients a write fails with an error other than EAGAIN takes the
-- up to 1024 oldest bytes out of its valid ring, and changes no other; a client that is listed once has
-- taken as many of these, from the first on, as its write returned.
pub http_round-Took :
    (j : ℕ) (fifos : ℕ → Kfifo) (task : HttpTask) (writes : Writes)
    → IsValid j (fifos task.buffer)
    → NoneFails writes task.clients
    → Took j fifos task writes (http_round fifos task writes)
unfolding http_round
http_round-Took j fifos task writes v alive = elim (Bool-cases (ltb 0 (len (fifos task.buffer)))) [
  | inr e ↦
      let empty = contents_idle (fifos task.buffer) (ground (arith, e)) in
      rw e (record {
        split = refl;
        first = rw empty (sym (take-nil 1024));
        valid = v;
        clients_lem = refl;
        sent_lem = λ c once. sym (take-nil (taken_count (writes c 0)));
        buffer_lem = refl;
        others = λ q ne. refl;
      })
  | inl e ↦
      let (split, first, valid, sent, clients) =
        http_round_lem j fifos task writes v (ltb→lt 0 (len (fifos task.buffer)) e) alive in
      record {
        split = split;
        first = first;
        valid = valid;
        clients_lem = clients;
        sent_lem = λ c once.
            ap (bytes_for c) sent
            ∙ bytes_for-once c (λ d. writes d (length (http_round fifos task writes).2))
                (http_round fifos task writes).2 task.clients once;
        buffer_lem = rw e refl;
        others = λ q ne. rw (e, ne) refl;
      }
]
