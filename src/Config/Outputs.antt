-- ===== src/Config/Outputs.antt =====
-- The outputs in an array, found by a search of the buffer: an output is read back as it is written.
use cliveserver.Base.{ℕ, suc, ◌+◌, ◌<◌, ◌≡◌, true, false, List, [], ◌∷◌, ◌++◌, ◌==◌, length}
use cliveserver.Config.Scan.{starts}

-- bytes in which no output begins, and at which the search does not end
abbrev pub Between : List ℕ → Type 0
Between [] = Unit {0}
Between (x ∷ xs) = (starts x ≡ false) × (0 < x) × Between xs

-- bytes up to the next quote, none of them a NUL
abbrev pub Unquoted : List ℕ → Type 0
Unquoted [] = Unit {0}
Unquoted (x ∷ xs) = ((x == b'"') ≡ false) × (0 < x) × Unquoted xs

-- an output, the first byte of its URL apart, and the bytes in front of it
pub record Output : Type 0 where
  pub gap : List ℕ
  pub head : ℕ
  pub tail : List ℕ

abbrev pub url_of : Output → List ℕ
url_of o = o.head ∷ o.tail

pub record IsOutput (o : Output) : Type 0 where
  pub between : Between o.gap
  pub begins : starts o.head ≡ true
  pub unquoted : Unquoted (url_of o)

abbrev pub AreOutputs : List Output → Type 0
AreOutputs [] = Unit {0}
AreOutputs (o ∷ os) = IsOutput o × AreOutputs os

abbrev pub urls_of : List Output → List (List ℕ)
urls_of [] = []
urls_of (o ∷ os) = url_of o ∷ urls_of os

-- the array as it is written, behind its first byte
abbrev pub written : List Output → List ℕ → List ℕ
written [] after = after
written (o ∷ os) after = (o.gap ++ url_of o) ++ b'"' ∷ written os after

module _ (before : List ℕ) (x : ℕ) (o : Output) (rest : List ℕ) (low : starts x ≡ false)
    (ok : IsOutput o) where
  -- the bytes up to the end of the output
  abbrev line : List ℕ
  line = before ++ x ∷ (o.gap ++ url_of o)

  abbrev at : ℕ
  at = length before + suc (length o.gap)
