-- ===== src/Util/Tests.antt =====
-- Runs of the helpers, and their theorems at concrete inputs.
use cliveserver.Base.{ℕ, ◌≡◌, refl, ◌⊎◌, some, List, [], ◌∷◌, ◌++◌, arith, length}
use cliveserver.Base.Int.{pos, negsuc}
use cliveserver.Util.{
  clive_atoi, Sent, send_interrupted, send_failed, sent, sendn_loop, clive_sendn, Received,
  recv_interrupted, recv_end, received, recvn_loop, clive_recvn,
}
use cliveserver.Util.Atoi.{value_of, written, clive_atoi-written}
use cliveserver.Util.Messages.{clive_sendn-prefix}

abbrev port : List ℕ
port = 8 ∷ 0 ∷ 8 ∷ 0 ∷ []

clive_atoi-written_example : clive_atoi (written port ++ b'/' ∷ []) 5 ≡ pos (value_of port)
clive_atoi-written_example =
    clive_atoi-written port (b'/' ∷ []) 5 (omega arith) refl (omega arith) (omega arith)
      (unfold value_of in omega arith)

eighty : value_of port ≡ 8080
unfolding value_of
eighty = refl

abbrev message : List ℕ
message = 1 ∷ 2 ∷ 3 ∷ []

abbrev failing : List Sent
failing = sent 2 ∷ send_interrupted ∷ send_failed ∷ []

fails_behind_two : clive_sendn failing message ≡ some (negsuc 0, 1 ∷ 2 ∷ [])
unfolding clive_sendn sendn_loop
fails_behind_two = refl

clive_sendn-prefix_example :
    (rest : List ℕ) × ((1 ∷ 2 ∷ []) ++ rest ≡ message)
    × (((negsuc 0 ≡ pos (length message)) × (rest ≡ [])) ⊎ (negsuc 0 ≡ negsuc 0))
clive_sendn-prefix_example = clive_sendn-prefix failing message fails_behind_two

abbrev stream : List Received
stream = received (4 ∷ 5 ∷ []) ∷ recv_interrupted ∷ received (6 ∷ []) ∷ recv_end ∷ []

reads_three : clive_recvn stream 8 ≡ some (pos 3, 4 ∷ 5 ∷ 6 ∷ [])
unfolding clive_recvn recvn_loop
reads_three = refl
