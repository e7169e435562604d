-- ===== src/Socket/Tests.antt =====
-- A socket that is made not to block, and to block again.
use cliveserver.Base.{ℕ, ◌≡◌, refl, none, some, arith}
use cliveserver.Base.{Bool, Option, List, [], ◌∷◌, length, drop, replicate}
use cliveserver.Base.Int.{ℤ, pos, negsuc}
use cliveserver.Run.{returned}
use cliveserver.Socket.Resolve.{SockInfo, AddrInfo, clive_resolve, c_string, clive_resolve-path}
use cliveserver.Socket.{stream, SameSockets, clive_set_blocking, clive_set_nonblocking}
use cliveserver.Socket.Flags.{blocking-nonblocking}
use cliveserver.Socket.Tiny.{Table, with_socket, blank, tiny_sockets}

abbrev one_socket : Table
one_socket = with_socket (record { next = 4; limit = 8; sockets = λ s. none }) 3 (blank stream)

abbrev unblocked : Table
unblocked = with_socket one_socket 3 (record (blank stream) { flags = 2050 })

abbrev blocked_again : Table
blocked_again = with_socket unblocked 3 (blank stream)

unblocks : clive_set_nonblocking tiny_sockets one_socket (pos 3) ≡ (pos 0, unblocked)
unfolding clive_set_nonblocking
unblocks = refl

blocks : clive_set_blocking tiny_sockets unblocked (pos 3) ≡ (pos 0, blocked_again)
unfolding clive_set_blocking
blocks = refl

blocking-nonblocking_example : SameSockets (λ (t : Table). t.sockets) one_socket blocked_again
blocking-nonblocking_example =
    blocking-nonblocking tiny_sockets one_socket 3 (blank stream) (pos 0) (pos 0) unblocked
      blocked_again refl refl (omega arith) unblocks refl blocks refl

abbrev no_answer : Option (List ℕ) → ℤ → Bool → ℤ × List AddrInfo
no_answer name port passive = (negsuc 1, [])

abbrev empty_info : SockInfo
empty_info = record { family = 0; addrlen = 0; addr = replicate 110 0 }

clive_resolve-path_example :
    (made : SockInfo) × (clive_resolve no_answer (some (b'/' ∷ b's' ∷ [])) (pos 0) empty_info
      ≡ returned (pos 0, made))
    × (made.family ≡ 1)
    × (c_string (drop 2 made.addr) ≡ b'/' ∷ b's' ∷ [])
    × (length made.addr ≡ 110)
    × (clive_resolve no_answer (some (b'/' ∷ replicate 107 b'x')) (pos 0) empty_info
        ≡ returned (negsuc 0, empty_info))
clive_resolve-path_example =
    clive_resolve-path no_answer (b's' ∷ []) (replicate 107 b'x') (pos 0) empty_info
      (refl, (refl, tt)) (omega arith) (omega arith) refl
