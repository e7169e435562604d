-- ===== src/Log/Hexdump.antt =====
-- `_log_hexdump` of common/log.c, and the text of a dump of any length.
pub mod Cut
use cliveserver.Base.{
  ℕ, zero, suc, ◌+◌, ◌-◌, ◌*◌, ◌/◌, ◌%◌, ◌^◌, ◌<◌, ◌≤◌, ◌≡◌, refl, sym, ap, ◌∙◌, inl, inr, Bool,
  true, false, Option, none, some, List, [], ◌∷◌, ◌++◌, append_assoc, append-nil, ◌&&◌, ◌==◌,
  if◌then◌else◌, length, take, drop, min, arith, ltb, leb, Bool-cases, length-take, take-length,
  take-append_within,
}
use native.Mathlib.Decide.{dec_lt}
use cliveserver.Base.Int.{is_neg}
use cliveserver.Log.{Logger, log_max_len, scnprintf}
use cliveserver.Log.Bounds.{scnprintf-take}

abbrev pub digit : ℕ → ℕ
digit d = if ltb d 10 then 48 + d else 87 + d

-- `%08x`, for an offset of a buffer in memory, and `%02x`, for a byte
abbrev pub hex : ℕ → ℕ → List ℕ
hex zero n = []
hex (suc width) n = digit (n / 16 ^ width % 16) ∷ hex width n

-- `isprint`
abbrev pub shown : ℕ → ℕ
shown c = if leb 32 c && leb c 126 then c else b'.'

abbrev pub gap_behind : ℕ → List ℕ
gap_behind i = if i == 7 then 32 ∷ 32 ∷ [] else 32 ∷ []

abbrev pub dump_size : ℕ
dump_size = 8 * log_max_len

-- one call of `scnprintf` behind what the buffer holds
unfoldable pub print_behind : List ℕ → List ℕ → List ℕ
print_behind buf text = buf ++ scnprintf (dump_size - length buf) text

-- The columns from `i` on, `k` of them: the two loops that end at 16.
unfoldable pub hex_columns : ℕ → ℕ → List ℕ → List ℕ → List ℕ
hex_columns i zero bytes buf = buf
hex_columns i (suc k) [] buf = hex_columns (i + 1) k [] (print_behind buf (32 ∷ 32 ∷ gap_behind i))
hex_columns i (suc k) (c ∷ bytes) buf =
    hex_columns (i + 1) k bytes (print_behind buf (hex 2 c ++ gap_behind i))

unfoldable pub char_columns : ℕ → List ℕ → List ℕ → List ℕ
char_columns zero bytes buf = buf
char_columns (suc k) [] buf = buf
char_columns (suc k) (c ∷ bytes) buf = char_columns k bytes (print_behind buf (shown c ∷ []))

unfoldable pub dump_row : ℕ → List ℕ → List ℕ → List ℕ
dump_row off bytes buf =
    let buf1 = print_behind buf (hex 8 off ++ 32 ∷ 32 ∷ []) in
    let buf2 = hex_columns 0 16 bytes buf1 in
    let buf3 = print_behind buf2 (32 ∷ 32 ∷ b'|' ∷ []) in
    print_behind (char_columns 16 bytes buf3) (b'|' ∷ 10 ∷ [])

-- The loop over the rows, with as much fuel as there are bytes.
unfoldable pub dump_loop : ℕ → ℕ → List ℕ → List ℕ → List ℕ
dump_loop zero off bytes buf = buf
dump_loop (suc fuel) off [] buf = buf
dump_loop (suc fuel) off (c ∷ bytes) buf =
    let rest = dump_loop fuel (off + 16) (drop 16 (c ∷ bytes)) (dump_row off (c ∷ bytes) buf) in
    if ltb (length buf) (dump_size - 1) then rest else buf

-- `_log_hexdump`: what it writes, nothing if the log is not open, and the logger behind it
unfoldable pub log_hexdump : Logger → List ℕ → Bool → Option (List ℕ) × Logger
log_hexdump l bytes write_fails = if is_neg l.fd then (none, l) else (
  some (dump_loop (length bytes) 0 bytes []),
  if write_fails then record l { nerror = l.nerror + 1 } else l,
)

-- The text of a dump of any length.
unfoldable pub columns_text : ℕ → ℕ → List ℕ → List ℕ
columns_text i zero bytes = []
columns_text i (suc k) [] = (32 ∷ 32 ∷ gap_behind i) ++ columns_text (i + 1) k []
columns_text i (suc k) (c ∷ bytes) = (hex 2 c ++ gap_behind i) ++ columns_text (i + 1) k bytes

unfoldable pub chars_text : ℕ → List ℕ → List ℕ
chars_text zero bytes = []
chars_text (suc k) [] = []
chars_text (suc k) (c ∷ bytes) = shown c ∷ chars_text k bytes

unfoldable pub row_text : ℕ → List ℕ → List ℕ
row_text off bytes =
    (hex 8 off ++ 32 ∷ 32 ∷ [])
    ++ (columns_text 0 16 bytes
        ++ ((32 ∷ 32 ∷ b'|' ∷ []) ++ (chars_text 16 bytes ++ (b'|' ∷ 10 ∷ []))))

unfoldable pub dump_text : ℕ → ℕ → List ℕ → List ℕ
dump_text zero off bytes = []
dump_text (suc rows) off [] = []
dump_text (suc rows) off (c ∷ bytes) =
    row_text off (c ∷ bytes) ++ dump_text rows (off + 16) (drop 16 (c ∷ bytes))
