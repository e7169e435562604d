-- ===== src/Util/Messages.antt =====
-- `_clive_sendn` and `_clive_recvn`: what reaches the peer, and what is read.
use mathlib.Core.List.{append-nil, append_assoc}
use cliveserver.Base.{
  ℕ, zero, suc, ◌+◌, ◌-◌, ◌≤◌, ◌≡◌, refl, sym, ap, ◌∙◌, ◌⊎◌, inl, inr, some, List, [], ◌∷◌, ◌++◌,
  arith, length, take, drop, length-append, length-drop, take-append-drop,
}
use cliveserver.Base.Int.{ℤ, pos, negsuc}
use cliveserver.Util.{
  Sent, send_interrupted, send_failed, sent, sendn_loop, clive_sendn, Received, recv_interrupted,
  recv_failed, recv_end, received, recvn_loop, clive_recvn,
}

sendn_loop-prefix :
    (answers : List Sent) (left bytes out : List ℕ) {status : ℤ} {sent_bytes : List ℕ}
    → out ++ left ≡ bytes
    → sendn_loop answers left (length bytes) out ≡ some (status, sent_bytes)
    → (rest : List ℕ) × (sent_bytes ++ rest ≡ bytes)
      × (((status ≡ pos (length bytes)) × (rest ≡ [])) ⊎ (status ≡ negsuc 0))
unfolding sendn_loop
sendn_loop-prefix answers [] bytes out e h = ([], ground (arith), inl (ground arith, refl))
sendn_loop-prefix [] (b ∷ left) bytes out e h = cc
sendn_loop-prefix (send_interrupted ∷ answers) (b ∷ left) bytes out e h =
    sendn_loop-prefix answers (b ∷ left) bytes out e h
sendn_loop-prefix (send_failed ∷ answers) (b ∷ left) bytes out e h =
    (b ∷ left, ground arith, inr (ground arith))
sendn_loop-prefix (sent zero ∷ answers) (b ∷ left) bytes out e h =
    (b ∷ left, ground arith, inr (ground arith))
sendn_loop-prefix (sent (suc k) ∷ answers) (b ∷ left) bytes out e h =
    sendn_loop-prefix answers (drop k left) bytes (out ++ (b ∷ take k left))
      (append_assoc out (b ∷ take k left) (drop k left)
        ∙ ap (λ l. out ++ (b ∷ l)) (take-append-drop k left)
        ∙ e)
      h

-- When `clive_sendn` returns, what has reached the peer is a prefix of the message in order,
-- whatever errors and short counts `send` answered with; the whole of it if the result is the
-- length, and the only other result is -1.
pub clive_sendn-prefix :
    (answers : List Sent) (bytes : List ℕ) {status : ℤ} {out : List ℕ}
    → clive_sendn answers bytes ≡ some (status, out)
    → (rest : List ℕ) × (out ++ rest ≡ bytes)
      × (((status ≡ pos (length bytes)) × (rest ≡ [])) ⊎ (status ≡ negsuc 0))
unfolding clive_sendn
clive_sendn-prefix answers bytes h = sendn_loop-prefix answers bytes bytes [] refl h

-- the answers of a socket that takes something at every call that is not interrupted
abbrev pub progress : List Sent → ℕ
progress [] = 0
progress (sent (suc k) ∷ answers) = suc (progress answers)
progress (send_interrupted ∷ answers) = progress answers
progress (_ ∷ answers) = 0

-- no answer is an error or a count of 0
abbrev pub NoErrors : List Sent → Type 0
NoErrors [] = Unit {0}
NoErrors (send_interrupted ∷ answers) = NoErrors answers
NoErrors (sent (suc k) ∷ answers) = NoErrors answers
NoErrors (_ ∷ answers) = ⊥

sendn_loop-total :
    (answers : List Sent) (left : List ℕ) (n : ℕ) (out : List ℕ)
    → NoErrors answers
    → length left ≤ progress answers
    → sendn_loop answers left n out ≡ some (pos n, out ++ left)
unfolding sendn_loop
sendn_loop-total answers [] n out ok h = ap (λ l. some (pos n, l)) (sym (append-nil out))
sendn_loop-total [] (b ∷ left) n out ok h = absurd (omega arith)
sendn_loop-total (send_interrupted ∷ answers) (b ∷ left) n out ok h =
    sendn_loop-total answers (b ∷ left) n out ok h
sendn_loop-total (send_failed ∷ answers) (b ∷ left) n out ok h = absurd ok
sendn_loop-total (sent zero ∷ answers) (b ∷ left) n out ok h = absurd ok
sendn_loop-total (sent (suc k) ∷ answers) (b ∷ left) n out ok h =
    sendn_loop-total answers (drop k left) n (out ++ (b ∷ take k left)) ok
      (omega (arith, length-drop k left))
    ∙ ap (λ l. some (pos n, l))
        (append_assoc out (b ∷ take k left) (drop k left)
          ∙ ap (λ l. out ++ (b ∷ l)) (take-append-drop k left))

-- Without errors, and with as many counts as the message has bytes, `clive_sendn` returns the
-- length, and the peer has the whole message, however short the counts are and however often the
-- calls are interrupted.
pub clive_sendn-total :
    (answers : List Sent) (bytes : List ℕ)
    → NoErrors answers
    → length bytes ≤ progress answers
    → clive_sendn answers bytes ≡ some (pos (length bytes), bytes)
unfolding clive_sendn
clive_sendn-total answers bytes ok h = sendn_loop-total answers bytes (length bytes) [] ok h

-- the bytes that `recv` answered with, up to the end of the stream
unfoldable pub sum_received : List Received → List ℕ
sum_received [] = []
sum_received (recv_interrupted ∷ answers) = sum_received answers
sum_received (received bytes ∷ answers) = bytes ++ sum_received answers
sum_received (_ ∷ answers) = []

-- `recv` answers with at most as many bytes as are asked for, `left` at first
abbrev pub Fits : ℕ → List Received → Type 0
Fits left [] = Unit {0}
Fits left (received bytes ∷ answers) = (length bytes ≤ left) × Fits (left - length bytes) answers
Fits left (_ ∷ answers) = Fits left answers

recvn_loop_lem :
    (answers : List Received) (left n : ℕ) (got : List ℕ) {status : ℤ} {buffer : List ℕ}
    → length got + left ≡ n
    → Fits left answers
    → recvn_loop answers left n got ≡ some (status, buffer)
    → (new rest : List ℕ) × (buffer ≡ got ++ new)
      × (new ++ rest ≡ sum_received answers)
      × (length buffer ≤ n)
      × ((status ≡ pos (length buffer)) ⊎ (status ≡ negsuc 0))
unfolding recvn_loop sum_received
recvn_loop_lem answers zero n got e f h = (
  [],
  sum_received answers,
  ground (arith, append-nil got),
  refl,
  ground arith,
  inl (ground arith),
)
recvn_loop_lem [] (suc left) n got e f h = cc
recvn_loop_lem (recv_interrupted ∷ answers) (suc left) n got e f h =
    recvn_loop_lem answers (suc left) n got e f h
recvn_loop_lem (recv_failed ∷ answers) (suc left) n got e f h =
    ([], [], ground (arith, append-nil got), refl, ground arith, inr (ground arith))
recvn_loop_lem (recv_end ∷ answers) (suc left) n got e f h =
    ([], [], ground (arith, append-nil got), refl, ground arith, inl (ground arith))
recvn_loop_lem (received bytes ∷ answers) (suc left) n got e f h =
    let (new, rest, whole, split, small, code) =
      recvn_loop_lem answers (suc left - length bytes) n (got ++ bytes)
        (omega (arith, length-append got bytes, f.0)) f.1 h in
    (
      bytes ++ new,
      rest,
      whole ∙ append_assoc got bytes new,
      append_assoc bytes new rest ∙ ap (λ l. bytes ++ l) split,
      small,
      code,
    )

-- If `recv` never answers with more than it was asked for, what `clive_recvn` has read when it
-- returns is a prefix of the stream, in order and at most `n` bytes; the result is its length, or
-- -1 for an error other than EINTR.
pub clive_recvn-prefix :
    (answers : List Received) (n : ℕ) {status : ℤ} {buffer : List ℕ}
    → Fits n answers
    → clive_recvn answers n ≡ some (status, buffer)
    → (rest : List ℕ) × (buffer ++ rest ≡ sum_received answers)
      × (length buffer ≤ n)
      × ((status ≡ pos (length buffer)) ⊎ (status ≡ negsuc 0))
unfolding clive_recvn
clive_recvn-prefix answers n f h =
    let (new, rest, whole, split, small, code) = recvn_loop_lem answers n n [] (omega arith) f h in
    (rest, ap (λ l. l ++ rest) whole ∙ split, small, code)
