-- ===== src/Http/Line.antt =====
-- The request line of a client, and what its buffer is after the name is cut out.
use cliveserver.Base.{
  ℕ, suc, ◌≡◌, refl, sym, ap, arith, ◌∙◌, true, false, List, [], ◌∷◌, ◌++◌, ◌==◌, length, drop,
  append_assoc,
}
use cliveserver.Text.{strncmp_eq, starts_with, contains}
use cliveserver.Text.Find.{Without, strchr-append}
use cliveserver.Http.Request.{c_string, space, scan, incomplete, named, slash_found, parse}

Without-append : (c : ℕ) (s t : List ℕ) → Without c s → Without c t → Without c (s ++ t)
Without-append c [] t h h' = h'
Without-append c (x ∷ s) t h h' = (h.0, Without-append c s t h.1 h')

Without-right : (c : ℕ) (s t : List ℕ) → Without c (s ++ t) → Without c t
Without-right c [] t h = h
Without-right c (x ∷ s) t h = Without-right c s t h.1

c_string-whole : (s : List ℕ) → Without 0 s → c_string s ≡ s
unfolding c_string
c_string-whole [] h = refl
c_string-whole (x ∷ s) h = rw (h.0, c_string-whole s h.1) refl

c_string-append : (s rest : List ℕ) → Without 0 s → c_string (s ++ 0 ∷ rest) ≡ s
unfolding c_string
c_string-append [] rest h = refl
c_string-append (x ∷ s) rest h = rw (h.0, c_string-append s rest h.1) refl

scan-name :
    (name rest : List ℕ)
    → Without b' ' name
    → Without 13 name
    → scan (name ++ b' ' ∷ rest) ≡ space name rest
unfolding scan
scan-name [] rest h h' = refl
scan-name (x ∷ name) rest h h' = rw (h.0, h'.0, scan-name name rest h.1 h'.1) refl

drop-behind :
    (before : List ℕ) (x : ℕ) (rest : List ℕ)
    → drop (suc (length before)) (before ++ x ∷ rest) ≡ rest
drop-behind [] x rest = refl
drop-behind (b ∷ before) x rest = drop-behind before x rest

-- a text without a carriage return has no end of line
contains-none : (s : List ℕ) → Without 13 s → contains s (13 ∷ 10 ∷ []) ≡ false
unfolding contains starts_with strncmp_eq
contains-none [] h = refl
contains-none (x ∷ s) h =
    let e : (13 == x) ≡ false = ground (arith, h.0) in rw (e, contains-none s h.1) refl

-- A request line `before/name rest` gives the name between the first slash and the next space, if
-- the text has an end of line but none before that space, and no NUL. The NUL that is then written
-- over the space ends the string for good: whatever the client sends later is read as a request
-- without a line.
pub parse-request :
    (before name rest : List ℕ)
    → Without b'/' before
    → Without 13 before
    → Without b' ' name
    → Without 13 name
    → Without 0 (before ++ b'/' ∷ name)
    → Without 0 rest
    → contains (before ++ b'/' ∷ (name ++ b' ' ∷ rest)) (13 ∷ 10 ∷ []) ≡ true
    → (parse (before ++ b'/' ∷ (name ++ b' ' ∷ rest))
        ≡ named name (before ++ b'/' ∷ (name ++ 0 ∷ rest)))
      × ((more : List ℕ) → parse ((before ++ b'/' ∷ (name ++ 0 ∷ rest)) ++ more) ≡ incomplete)
unfolding parse
parse-request before name rest slash before_line space_free name_line front tail line =
    let text = before ++ b'/' ∷ (name ++ b' ' ∷ rest) in
    let name_zero : Without 0 name = (Without-right 0 before (b'/' ∷ name) front).1 in
    let whole : c_string text ≡ text = c_string-whole text (
      rw (append_assoc before (b'/' ∷ name) (b' ' ∷ rest)) at
        (Without-append 0 (before ++ b'/' ∷ name) (b' ' ∷ rest) front (refl, tail))) in
    (
      rw (whole, line)
          (ap (slash_found text) (strchr-append b'/' before (name ++ b' ' ∷ rest) slash)
            ∙ rw
                (
                  drop-behind before b'/' (name ++ b' ' ∷ rest),
                  scan-name name rest space_free name_line,
                  c_string-whole name name_zero,
                )
                refl),
      λ more.
          let cut : c_string ((before ++ b'/' ∷ (name ++ 0 ∷ rest)) ++ more)
              ≡ before ++ b'/' ∷ name =
            ap c_string (
              ap (λ s. s ++ more) (sym (append_assoc before (b'/' ∷ name) (0 ∷ rest)))
              ∙ append_assoc (before ++ b'/' ∷ name) (0 ∷ rest) more)
            ∙ c_string-append (before ++ b'/' ∷ name) (rest ++ more) front in
          rw
            (
              cut,
              contains-none (before ++ b'/' ∷ name)
                  (Without-append 13 before (b'/' ∷ name) before_line (refl, name_line)),
            )
            refl,
    )
