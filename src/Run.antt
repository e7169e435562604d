-- ===== src/Run.antt =====
-- `ASSERT` of common/util.h and `clive_assert` of util.c: calls that may end the process. The log line
-- in front of `abort` is left out.
use cliveserver.Base.{◌≡◌, ap, Bool, if◌then◌else◌}

-- The end of a call: `ASSERT` may have ended the process.
pub data Run (A : Type 0) : Type 0 where
  aborted : Run A
  returned : A → Run A

infixl 5 ◌>>=◌
abbrev pub ◌>>=◌ : {A B : Type 0} → Run A → (A → Run B) → Run B
aborted >>= f = aborted
returned a >>= f = f a

-- `ASSERT(b)` in front of the rest of a call
abbrev pub assert : {A : Type 0} → Bool → Run A → Run A
assert b rest = if b then rest else aborted

abbrev pub result_or : {A : Type 0} → A → Run A → A
result_or a aborted = a
result_or a (returned b) = b

pub returned-injective : {A : Type 0} (a b : A) → returned a ≡ returned b → a ≡ b
returned-injective a b e = ap (result_or a) e
