-- ===== src/Http/Request.antt =====
-- `conn_recv` of http.c up to the channel's name: the request in the client's buffer.
use cliveserver.Base.{
  ℕ, suc, Bool, Option, none, some, List, [], ◌∷◌, ◌++◌, ◌==◌, if◌then◌else◌, length, drop,
}
use cliveserver.Text.{contains, strchr}

-- the string in a buffer, whose bytes behind the text are zero
unfoldable pub c_string : List ℕ → List ℕ
c_string [] = []
c_string (x ∷ s) = let rest = c_string s in if x == 0 then [] else x ∷ rest

-- How the scan behind the slash ends: at a space, with the bytes on its two sides, at a carriage
-- return, or outside the buffer.
pub data Scan : Type 0 where
  space : List ℕ → List ℕ → Scan
  line_end : Scan
  ran_out : Scan

abbrev pub behind : ℕ → Scan → Scan
behind x (space name rest) = space (x ∷ name) rest
behind x line_end = line_end
behind x ran_out = ran_out

unfoldable pub scan : List ℕ → Scan
scan [] = ran_out
scan (x ∷ s) =
    let rest = behind x (scan s) in
    if x == b' ' then space [] s else if x == 13 then line_end else rest

-- `incomplete`: no line yet, and no channel name; `named`: the name, and the buffer with a NUL in the
-- place of the space, if there was one
pub data Request : Type 0 where
  incomplete : Request
  no_slash : Request
  overrun : Request
  named : List ℕ → List ℕ → Request

abbrev pub scanned : List ℕ → List ℕ → List ℕ → Scan → Request
scanned rbuffer before from (space name rest) =
    named (c_string name) (before ++ b'/' ∷ (name ++ 0 ∷ rest))
scanned rbuffer before from line_end = named (c_string from) rbuffer
scanned rbuffer before from ran_out = overrun

abbrev pub slash_found : List ℕ → Option (List ℕ × List ℕ) → Request
slash_found rbuffer none = no_slash
slash_found rbuffer (some (before, _)) =
    let from = drop (suc (length before)) rbuffer in scanned rbuffer before from (scan from)

unfoldable pub parse : List ℕ → Request
unfolding c_string scan
parse rbuffer =
    if contains (c_string rbuffer) (13 ∷ 10 ∷ [])
    then slash_found rbuffer (strchr (c_string rbuffer) b'/')
    else incomplete

-- "_ts" in a name asks for TS
unfoldable pub asks_ts : List ℕ → Bool
asks_ts name = contains name (b'_' ∷ b't' ∷ b's' ∷ [])
