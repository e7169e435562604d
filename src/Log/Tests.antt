-- ===== src/Log/Tests.antt =====
-- The logger's theorems at concrete levels and texts.
use cliveserver.Base.{
  ℕ, ◌≤◌, ◌≡◌, ◌<◌, ◌-◌, ◌*◌, refl, true, false, some, List, [], ◌∷◌, length, take, drop, replicate,
}
use cliveserver.Base.Int.{pos}
use cliveserver.Log.{Logger, log_max_len, log_level_up, log_loggable, log_line}
use cliveserver.Log.Hexdump.{log_hexdump, dump_text, row_text, columns_text, chars_text}
use cliveserver.Log.Hexdump.Cut.{log_hexdump-cut}
use cliveserver.Log.Bounds.{length-log_line}

abbrev quiet : Logger
quiet = record { level = pos 5; fd = pos 2; nerror = 0 }

shown : log_loggable (log_level_up quiet) (pos 6) ≡ true
unfolding log_loggable log_level_up
shown = refl

-- longer than the buffer
abbrev xs : List ℕ
xs = replicate 300 b'x'

length-log_line_example : length (log_line xs (b'!' ∷ [])) ≤ log_max_len
length-log_line_example = (length-log_line xs (b'!' ∷ [])).0

log_hexdump-cut_example :
    ((log_hexdump quiet (65 ∷ 10 ∷ []) false).0
      ≡ some (take (8 * log_max_len - 1) (dump_text 2 0 (65 ∷ 10 ∷ []))))
    × (length (take (8 * log_max_len - 1) (dump_text 2 0 (65 ∷ 10 ∷ []))) < 8 * log_max_len)
log_hexdump-cut_example = log_hexdump-cut quiet (65 ∷ 10 ∷ []) false refl

-- the end of the row, which shows the newline as a dot
two_shown : drop 60 (dump_text 2 0 (65 ∷ 10 ∷ [])) ≡ 32 ∷ b'|' ∷ b'A' ∷ b'.' ∷ b'|' ∷ 10 ∷ []
unfolding dump_text row_text columns_text chars_text
two_shown = refl
