-- ===== src/Util.antt =====
-- common/util.c: decimal numbers, port numbers, and whole messages on a blocking socket. The
-- socket is not part of the repository: a call of `send` or `recv` takes the next of a list of
-- answers.
pub mod Atoi
pub mod Messages
mod Tests
use cliveserver.Base.{
  ℕ, zero, suc, ◌+◌, ◌-◌, ◌*◌, ◌%◌, ◌^◌, ◌≡◌, Bool, true, false, ◌&&◌, ◌||◌, Option, none, some,
  List, [], ◌∷◌, ◌++◌, ltb, leb, ◌==◌, if◌then◌else◌, length, take, drop,
}
use cliveserver.Base.Int.{ℤ, pos, negsuc, ltb_ℤ}

abbrev pub is_digit : ℕ → Bool
is_digit c = leb b'0' c && leb c b'9'

-- The loop of `_clive_atoi` over the at most `n` bytes that it may read. The list is the memory
-- from `line` on; `value` is an `int` by its 32 bits, which is taken to wrap around where C leaves an
-- overflow undefined.
unfoldable pub digits_loop : ℕ → List ℕ → ℕ → ℕ
digits_loop zero line value = value
digits_loop (suc n) [] value = value
digits_loop (suc n) (c ∷ line) value =
    let rest = digits_loop n line ((value * 10 + (c - b'0')) % 2 ^ 32) in
    if is_digit c then rest else value

-- a value whose top bit is set is negative
unfoldable pub clive_atoi : List ℕ → ℕ → ℤ
unfolding digits_loop
clive_atoi line n =
    let value = digits_loop n line 0 in
    if n == 0 then negsuc 0 else if leb (2 ^ 31) value then negsuc 0 else pos value

pub clive_valid_port : ℤ → Bool
clive_valid_port n = if ltb_ℤ n (pos 1) || ltb_ℤ (pos 65535) n then false else true

-- one return of `send`: an error, EINTR among them, or a count
pub data Sent : Type 0 where
  send_interrupted : Sent
  send_failed : Sent
  sent : ℕ → Sent

-- `_clive_sendn`, with the bytes handed to the peer so far; `none` is a call that has not returned
-- with these answers of `send`. A count is at most what was asked for.
pub sendn_loop : List Sent → List ℕ → ℕ → List ℕ → Option (ℤ × List ℕ)
sendn_loop answers [] n out = some (pos n, out)
sendn_loop [] (b ∷ rest) n out = none
sendn_loop (send_interrupted ∷ answers) (b ∷ rest) n out = sendn_loop answers (b ∷ rest) n out
sendn_loop (send_failed ∷ answers) (b ∷ rest) n out = some (negsuc 0, out)
sendn_loop (sent zero ∷ answers) (b ∷ rest) n out = some (negsuc 0, out)
sendn_loop (sent (suc k) ∷ answers) (b ∷ rest) n out =
    sendn_loop answers (drop k rest) n (out ++ (b ∷ take k rest))

pub clive_sendn : List Sent → List ℕ → Option (ℤ × List ℕ)
clive_sendn answers bytes = sendn_loop answers bytes (length bytes) []

-- one return of `recv`: an error, the end of the stream, or bytes
pub data Received : Type 0 where
  recv_interrupted : Received
  recv_failed : Received
  recv_end : Received
  received : List ℕ → Received

-- `_clive_recvn` with the bytes left to read and those in the buffer
pub recvn_loop : List Received → ℕ → ℕ → List ℕ → Option (ℤ × List ℕ)
recvn_loop answers zero n buffer = some (pos n, buffer)
recvn_loop [] (suc left) n buffer = none
recvn_loop (recv_interrupted ∷ answers) (suc left) n buffer = recvn_loop answers (suc left) n buffer
recvn_loop (recv_failed ∷ answers) (suc left) n buffer = some (negsuc 0, buffer)
recvn_loop (recv_end ∷ answers) (suc left) n buffer = some (pos (n - suc left), buffer)
recvn_loop (received bytes ∷ answers) (suc left) n buffer =
    recvn_loop answers (suc left - length bytes) n (buffer ++ bytes)

pub clive_recvn : List Received → ℕ → Option (ℤ × List ℕ)
clive_recvn answers n = recvn_loop answers n n []
