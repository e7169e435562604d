-- ===== src/Channel/Flow.antt =====
-- No byte of a datagram is lost on its way into the ring.
use cliveserver.Base.{
  ℕ, ◌+◌, ◌-◌, ◌≤◌, ◌<◌, ◌≡◌, refl, sym, ap, ◌∙◌, inl, inr, true, Option, some, List, [], ◌∷◌, ◌++◌,
  min, arith, leb, length, take, drop, length-drop, length-append, length-take, take-length,
  take-append-drop, append_assoc, Bool-cases,
}
use mathlib.Core.Option.{some-injective}
use cliveserver.Kfifo.{Kfifo, len, put, get}
use cliveserver.Kfifo.Inv.{IsValid, contents, size_bounds}
use cliveserver.Kfifo.Put.{put-count, contents-put, put-IsValid}
use cliveserver.Kfifo.Get.{get_lem}
use cliveserver.Kfifo.Refine.{length-contents}
use cliveserver.Channel.Receive.{fill_loop}

module _ {k : ℕ} {fifo : Kfifo} (v : IsValid k fifo) (rest : List ℕ) where
  abbrev pub stored : Kfifo
  stored = (put fifo rest (length rest)).1

  abbrev pub count : ℕ
  count = (put fifo rest (length rest)).0

  pub stored-IsValid : IsValid k stored
  stored-IsValid = put-IsValid v rest (length rest) (omega arith)

  pub contents-stored : contents stored ≡ contents fifo ++ take count rest
  contents-stored =
      contents-put v rest (length rest) (omega arith)
      ∙ ap (λ n. contents fifo ++ take n rest) (sym (put-count v rest (length rest) (omega arith)))

  count_lem : count ≡ min (length rest) (fifo.size - len fifo)
  count_lem = put-count v rest (length rest) (omega arith)

  contents-whole : leb (length rest) count ≡ true → contents stored ≡ contents fifo ++ rest
  contents-whole e =
      contents-stored ∙ ap (λ l. contents fifo ++ l) (take-length count rest (ground arith))

  grows : len stored ≡ len fifo + count
  grows =
      sym (length-contents stored)
      ∙ ap length contents-stored
      ∙ length-append (contents fifo) (take count rest)
      ∙ rw (length-contents fifo, length-take count rest) (omega (arith, count_lem))

  -- when the rest did not fit, the ring is full, and the request makes room
  room :
      (request : ℕ) (requests : List ℕ)
      → length rest ≤ length (request ∷ requests) + (fifo.size - len fifo)
      → 0 < request
      → count < length rest
      → len (get stored request).1 ≡ len stored - request
      → length (drop count rest)
        ≤ length requests + ((get stored request).1.size - len (get stored request).1)
  room request requests h positive less after =
      let (bytes, kept, valid) = get_lem request stored-IsValid in
      let same : (get stored request).1.size ≡ fifo.size = valid.sized ∙ sym v.sized in
      let bounds = size_bounds v in
      rw (length-drop count rest, same, after, grows)
        (omega (arith, h, positive, less, count_lem, v.fits))

  -- a put and a get behind it, put together
  contents-cycle :
      (request : ℕ)
      → (get stored request).0 ++ (contents (get stored request).1 ++ drop count rest)
        ≡ contents fifo ++ rest
  contents-cycle request =
      let (bytes, kept, _) = get_lem request stored-IsValid in
      rw
        (
          bytes,
          kept,
          ← append_assoc,
          take-append-drop,
          contents-stored,
          append_assoc,
          take-append-drop,
        )
        refl

some_pair :
    {A B : Type 0} (a c : A) (b d : B)
    → ◌≡◌ {A = Option (A × B)} (some (a, b)) (some (c, d))
    → (a ≡ c) × (b ≡ d)
some_pair {A} {B} a c b d h =
    let e : ◌≡◌ {A = A × B} (a, b) (c, d) = some-injective (a, b) (c, d) h in
    (ap (λ (p : A × B). p.0) e, ap (λ (p : A × B). p.1) e)

-- Whatever the repacking thread takes meanwhile: when the loop ends, the bytes taken in order and
-- then the ring's are those taken before, the ring's bytes before and the datagram, and the ring is
-- valid.
pub fill_loop-contents :
    (k : ℕ) (requests : List ℕ) (fifo : Kfifo) (rest taken : List ℕ) (fifo' : Kfifo)
    (taken' : List ℕ)
    → IsValid k fifo
    → fill_loop requests fifo rest taken ≡ some (fifo', taken')
    → (taken' ++ contents fifo' ≡ taken ++ (contents fifo ++ rest)) × IsValid k fifo'
unfolding fill_loop
fill_loop-contents k [] fifo rest taken fifo' taken' v h =
    elim (Bool-cases (leb (length rest) (put fifo rest (length rest)).0)) [
      | inr e ↦ cc (rw e at h)
      | inl e ↦
          let same = some_pair (put fifo rest (length rest)).1 fifo' taken taken' (rw e at h) in
          rw (← same.0, ← same.1)
            (ap (λ l. taken ++ l) (contents-whole v rest e), stored-IsValid v rest)
    ]
fill_loop-contents k (request ∷ requests) fifo rest taken fifo' taken' v h =
    elim (Bool-cases (leb (length rest) (put fifo rest (length rest)).0)) [
      | inl e ↦
          let same = some_pair (put fifo rest (length rest)).1 fifo' taken taken' (rw e at h) in
          rw (← same.0, ← same.1)
            (ap (λ l. taken ++ l) (contents-whole v rest e), stored-IsValid v rest)
      | inr e ↦
          let fifo'' = (get (put fifo rest (length rest)).1 request).1 in
          let bytes = (get (put fifo rest (length rest)).1 request).0 in
          let left = drop (put fifo rest (length rest)).0 rest in
          let (_, _, valid) = get_lem request (stored-IsValid v rest) in
          let (whole, valid') =
            fill_loop-contents k requests fifo'' left (taken ++ bytes) fifo' taken' valid
              (rw e at h) in
          (
            whole
                ∙ append_assoc taken bytes (contents fifo'' ++ left)
                ∙ ap (λ l. taken ++ l) (contents-cycle v rest request),
            valid',
          )
    ]

-- every request is for at least one byte
abbrev pub AllPositive : List ℕ → Type 0
AllPositive [] = Unit {0}
AllPositive (request ∷ requests) = (0 < request) × AllPositive requests

-- The loop ends if what does not fit at once is at most as many bytes as the repacking thread makes
-- requests, each for at least one byte.
pub fill_loop-total :
    (k : ℕ) (requests : List ℕ) (fifo : Kfifo) (rest taken : List ℕ)
    → IsValid k fifo
    → AllPositive requests
    → length rest ≤ length requests + (fifo.size - len fifo)
    → (r : Kfifo × List ℕ) × (fill_loop requests fifo rest taken ≡ some r)
unfolding fill_loop
fill_loop-total k [] fifo rest taken v ok h =
    let fits : leb (length rest) (put fifo rest (length rest)).0 ≡ true =
      ground (arith, count_lem v rest) in
    (((put fifo rest (length rest)).1, taken), rw fits refl)
fill_loop-total k (request ∷ requests) fifo rest taken v ok h =
    elim (Bool-cases (leb (length rest) (put fifo rest (length rest)).0)) [
      | inl e ↦ (((put fifo rest (length rest)).1, taken), rw e refl)
      | inr e ↦
          let stored' = (put fifo rest (length rest)).1 in
          let left = drop (put fifo rest (length rest)).0 rest in
          let v' = stored-IsValid v rest in
          let (bytes, kept, valid) = get_lem request v' in
          let after : len (get stored' request).1 ≡ len stored' - request =
            sym (length-contents (get stored' request).1)
            ∙ ap length kept
            ∙ length-drop request (contents stored')
            ∙ ap (λ n. n - request) (length-contents stored') in
          let full : len stored' ≡ len fifo + (put fifo rest (length rest)).0 = grows v rest in
          rw e (
            fill_loop-total k requests (get stored' request).1 left
              (taken ++ (get stored' request).0) valid ok.1
              (room v rest request requests h ok.0 (ground (arith, e)) after))
    ]
