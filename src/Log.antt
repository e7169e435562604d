-- ===== src/Log.antt =====
-- common/log.c: the level of the logger and the lengths of its messages. `vsnprintf`, `write` and
-- the clock are not part of the repository: a formatted text is a list of bytes, and an answer of
-- `write` is an argument.
pub mod Level
pub mod Bounds
pub mod Hexdump
mod Tests
use cliveserver.Base.{
  ℕ, zero, suc, ◌+◌, ◌-◌, ◌*◌, ◌≡◌, Bool, true, false, not, ◌&&◌, ◌||◌, Option, none, some, List,
  [], ◌∷◌, ◌++◌, min, ltb, leb, ◌==◌, if◌then◌else◌, length, take, drop, replicate,
}
use cliveserver.Base.Int.{ℤ, pos, negsuc, is_neg, ltb_ℤ}

-- `struct logger` without the name of its file
pub record Logger : Type 0 where
  pub level : ℤ
  pub fd : ℤ
  pub nerror : ℕ

abbrev pub log_emerg : ℤ
log_emerg = pos 0

abbrev pub log_pverb : ℤ
log_pverb = pos 11

abbrev pub log_max_len : ℕ
log_max_len = 256

-- the macros MIN and MAX
abbrev pub int_min : ℤ → ℤ → ℤ
int_min a b = if ltb_ℤ a b then a else b

abbrev pub int_max : ℤ → ℤ → ℤ
int_max a b = if ltb_ℤ b a then a else b

-- `log_init`: with no name, or an empty one, the log goes to standard error. `opened` is what `open`
-- answers for the name.
pub log_init : Logger → ℤ → Option (List ℕ) → ℤ → ℤ × Logger
log_init l level name opened =
    let l' = record l { level = int_max log_emerg (int_min level log_pverb) } in
    elim name [
      | none ↦ (pos 0, record l' { fd = pos 2 })
      | some cs ↦
          if length cs == 0
          then (pos 0, record l' { fd = pos 2 })
          else ((if is_neg opened then negsuc 0 else pos 0), record l' { fd = opened })
    ]

-- a level one higher or one lower
abbrev pub up : ℤ → ℤ
up (pos n) = pos (n + 1)
up (negsuc zero) = pos 0
up (negsuc (suc n)) = negsuc n

abbrev pub down : ℤ → ℤ
down (pos zero) = negsuc 0
down (pos (suc n)) = pos n
down (negsuc n) = negsuc (suc n)

-- The `loga` calls behind these change no level.
pub log_level_up : Logger → Logger
log_level_up l = if ltb_ℤ l.level log_pverb then record l { level = up l.level } else l

pub log_level_down : Logger → Logger
log_level_down l = if ltb_ℤ log_emerg l.level then record l { level = down l.level } else l

pub log_level_set : Logger → ℤ → Logger
log_level_set l level = record l { level = int_max log_emerg (int_min level log_pverb) }

pub log_loggable : Logger → ℤ → Bool
log_loggable l level = if ltb_ℤ l.level level then false else true

-- `vscnprintf`, and `scnprintf`, which only calls it: the bytes written to a buffer of `size` bytes,
-- the terminating NUL aside. Their number is the result. `vsnprintf` counts the whole text and
-- writes what fits; the code caps the count at `size - 1`.
unfoldable pub scnprintf : ℕ → List ℕ → List ℕ
scnprintf size text =
    let n = length text in if n == 0 then [] else if ltb n size then text else take (size - 1) text

-- `_log` with the prefix and the message as `vsnprintf` formats them: the bytes written to the file,
-- none if it is not open, and the logger after the answer of `write` (true for a failure)
pub log_line : List ℕ → List ℕ → List ℕ
unfolding scnprintf
log_line prefix message =
    let head = scnprintf log_max_len prefix in
    head ++ (scnprintf (log_max_len - length head) message ++ (10 ∷ []))

pub log : Logger → List ℕ → List ℕ → Bool → Option (List ℕ) × Logger
log l prefix message write_fails = if is_neg l.fd then (none, l) else (
  some (log_line prefix message),
  if write_fails then record l { nerror = l.nerror + 1 } else l,
)

-- `_log_stderr`, whose buffer is four times as long
pub log_stderr : Logger → List ℕ → Bool → List ℕ × Logger
log_stderr l message write_fails = (
  scnprintf (4 * log_max_len) message ++ (10 ∷ []),
  if write_fails then record l { nerror = l.nerror + 1 } else l,
)
