-- ===== src/Text.antt =====
-- C strings, as the bytes in front of the NUL, and the functions of the C library that the server
-- applies to them.
pub mod Find
use cliveserver.Base.{
  ℕ, zero, suc, Bool, true, false, ◌&&◌, Option, none, some, List, [], ◌∷◌, ◌==◌, if◌then◌else◌,
  length,
}

-- `strncmp(a, b, n) == 0`
unfoldable pub strncmp_eq : List ℕ → List ℕ → ℕ → Bool
strncmp_eq a b zero = true
strncmp_eq [] [] (suc n) = true
strncmp_eq [] (y ∷ b) (suc n) = false
strncmp_eq (x ∷ a) [] (suc n) = false
strncmp_eq (x ∷ a) (y ∷ b) (suc n) = (x == y) && strncmp_eq a b n

-- `strncmp(p, s, strlen(p)) == 0`
unfoldable pub starts_with : List ℕ → List ℕ → Bool
unfolding strncmp_eq
starts_with s p = strncmp_eq p s (length p)

-- `strchr`, as the text in front of the character and the text from it on
unfoldable pub strchr : List ℕ → ℕ → Option (List ℕ × List ℕ)
strchr [] c = none
strchr (x ∷ s) c =
    let rest = strchr s c in
    if x == c
    then some ([], x ∷ s)
    else elim rest [ none ↦ none | some (before, from) ↦ some (x ∷ before, from) ]

-- `strstr(s, p) != NULL`
unfoldable pub contains : List ℕ → List ℕ → Bool
unfolding starts_with
contains [] p = starts_with [] p
contains (x ∷ s) p = let rest = contains s p in if starts_with (x ∷ s) p then true else rest
