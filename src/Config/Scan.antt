-- ===== src/Config/Scan.antt =====
-- Texts in the buffer of the configuration, and the search for the outputs of a channel in main.c.
use cliveserver.Base.{
  ℕ, zero, suc, ◌+◌, Option, none, some, List, [], ◌∷◌, ◌==◌, if◌then◌else◌, length, drop, set, ltb,
  leb, Bool, ◌&&◌,
}

-- the bytes up to the NUL, or `none` if there is no NUL
unfoldable pub text_from : List ℕ → Option (List ℕ)
text_from [] = none
text_from (x ∷ s) =
    let rest = text_from s in
    if x == 0 then some [] else elim rest [ none ↦ none | some text ↦ some (x ∷ text) ]

unfoldable pub text_at : List ℕ → ℕ → Option (List ℕ)
text_at js p = text_from (drop p js)

-- `js[t->end] = '\\0'`, where `end` is in the buffer
unfoldable pub terminate : List ℕ → ℕ → Option (List ℕ)
terminate js end = if ltb end (length js) then some (set js end 0) else none

-- `js[comma] >= 'h'` on a `char`, which is signed: a byte of 128 or more is negative
abbrev pub starts : ℕ → Bool
starts x = leb b'h' x && ltb x 128

-- The two loops of a search in the buffer, each behind its `do`: how far on it ends. It reads the
-- byte behind before it goes on, and `none` is a read outside the buffer.
unfoldable pub find_start : List ℕ → Option ℕ
find_start [] = none
find_start (x ∷ []) = if starts x then some 0 else none
find_start (x ∷ y ∷ s) =
    let rest = find_start (y ∷ s) in
    if starts x
    then some 0
    else if y == 0
    then some 1
    else elim rest [ none ↦ none | some n ↦ some (suc n) ]

unfoldable pub find_quote : List ℕ → Option ℕ
find_quote [] = none
find_quote (x ∷ []) = if x == b'"' then some 0 else none
find_quote (x ∷ y ∷ s) =
    let rest = find_quote (y ∷ s) in
    if x == b'"'
    then some 0
    else if y == 0
    then some 1
    else elim rest [ none ↦ none | some n ↦ some (suc n) ]

-- one output from the index `comma` on: its index, and the buffer and the index behind
unfoldable pub scan_output : List ℕ → ℕ → Option (ℕ × List ℕ × ℕ)
scan_output js comma = elim (find_start (drop comma js)) [
  | none ↦ none
  | some n ↦ elim (find_quote (drop (comma + n) js)) [
    | none ↦ none
    | some q ↦ elim (terminate js (comma + n + q)) [
      | none ↦ none
      | some js' ↦ some (comma + n, js', comma + n + q)
    ]
  ]
]

unfoldable pub scan_outputs : ℕ → List ℕ → ℕ → Option (List ℕ × List ℕ)
scan_outputs zero js comma = some ([], js)
scan_outputs (suc k) js comma = elim (scan_output js comma) [
  | none ↦ none
  | some (at, js', comma') ↦ elim (scan_outputs k js' comma') [
    | none ↦ none
    | some (rest, js'') ↦ some (at ∷ rest, js'')
  ]
]

-- the texts at the pointers, as the functions that get them read them
unfoldable pub texts : List ℕ → List ℕ → Option (List (List ℕ))
texts js [] = some []
texts js (p ∷ ps) = elim (text_at js p) [
  | none ↦ none
  | some text ↦ elim (texts js ps) [ none ↦ none | some rest ↦ some (text ∷ rest) ]
]
