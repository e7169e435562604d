-- ===== src/Log/Level.antt =====
-- The level of the logger.
use cliveserver.Base.{
  ℕ, ◌≡◌, refl, ◌≢◌, ◌⊎◌, Bool, true, false, Option, List, none, some, length, ◌==◌, arith,
}
use cliveserver.Base.Int.{ℤ, pos, negsuc, ◌≤ℤ◌}
use cliveserver.Log.{
  Logger, log_emerg, log_pverb, int_min, int_max, log_init, up, log_level_up, log_level_down,
  log_level_set, log_loggable,
}

-- the levels from LOG_EMERG to LOG_PVERB
abbrev pub InRange : Logger → Type 0
InRange l = (log_emerg ≤ℤ l.level) × (l.level ≤ℤ log_pverb)

clamped :
    (l : Logger) (m : ℤ) → InRange (record l { level = int_max log_emerg (int_min m log_pverb) })
clamped l (pos n) = (ground arith, ground arith)
clamped l (negsuc n) = (ground arith, ground arith)

unclamped :
    (l : Logger) (m : ℤ)
    → InRange (record l { level = m })
    → int_max log_emerg (int_min m log_pverb) ≡ m
unclamped l (pos n) r = ground arith
unclamped l (negsuc n) r = absurd (omega arith)

log_init-named :
    (l : Logger) (level : ℤ) (cs : List ℕ) (opened : ℤ) (b : Bool)
    → (length cs == 0) ≡ b
    → InRange (log_init l level (some cs) opened).1
unfolding log_init
log_init-named l level cs opened true e = rw e (clamped l level)
log_init-named l level cs opened false e = rw e (clamped l level)

-- Whatever level is asked for, and whatever becomes of the file, `log_level_set` and `log_init`
-- leave a level in range.
pub level-InRange :
    (l : Logger) (level : ℤ) (name : Option (List ℕ)) (opened : ℤ)
    → InRange (log_level_set l level) × InRange (log_init l level name opened).1
unfolding log_level_set log_init
level-InRange l level none opened = (clamped l level, clamped l level)
level-InRange l level (some cs) opened =
    (clamped l level, log_init-named l level cs opened (length cs == 0) refl)

-- From a level in range, raising and lowering stay in range, and setting to a level in range sets
-- to just that.
pub level_moves-InRange :
    (l : Logger) (level : ℤ)
    → InRange l
    → InRange (record l { level = level })
    → InRange (log_level_up l)
      × InRange (log_level_down l)
      × ((log_level_set l level).level ≡ level)
unfolding log_level_set log_level_up log_level_down
level_moves-InRange l level r r' = (ground arith, ground arith, unclamped l level r')

-- A message let through when a level in range has been raised was let through before, or its level
-- is the next one and the level was not the highest.
pub log_loggable-up :
    (l : Logger) (m : ℤ)
    → InRange l
    → log_loggable (log_level_up l) m ≡ true
    → (log_loggable l m ≡ true) ⊎ ((m ≡ up l.level) × (l.level ≢ log_pverb))
unfolding log_loggable log_level_up
log_loggable-up l m r h = ground arith
