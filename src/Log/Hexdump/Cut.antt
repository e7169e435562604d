-- ===== src/Log/Hexdump/Cut.antt =====
-- The buffer of a dump holds the text of the whole dump, cut where the buffer ends.
use cliveserver.Base.{
  ℕ, zero, suc, ◌+◌, ◌-◌, ◌*◌, ◌<◌, ◌≤◌, ◌≡◌, sym, ap, ◌∙◌, inl, inr, Bool, false, some, List, [],
  ◌∷◌, ◌++◌, append_assoc, append-nil, length, take, drop, min, arith, ltb, Bool-cases, length-take,
  take-length, take-append_within,
}
use native.Mathlib.Decide.{dec_lt}
use cliveserver.Base.Int.{is_neg}
use cliveserver.Log.{Logger, log_max_len}
use cliveserver.Log.Bounds.{scnprintf-take}
use cliveserver.Log.Hexdump.{
  hex, shown, gap_behind, dump_size, print_behind, hex_columns, char_columns, dump_row, dump_loop,
  log_hexdump, columns_text, chars_text, row_text, dump_text,
}

abbrev cut : List ℕ → List ℕ
cut text = take (dump_size - 1) text

length-cut : (text : List ℕ) → length (cut text) ≡ min (dump_size - 1) (length text)
length-cut text = length-take (dump_size - 1) text

-- Printing behind a text that is cut prints behind the text, cut.
take-append_beyond :
    (n : ℕ) (xs ys : List ℕ) → length xs ≤ n → take n (xs ++ ys) ≡ xs ++ take (n - length xs) ys
take-append_beyond n [] ys h = ap (λ m. take m ys) {x = n} {y = n - 0} (omega arith)
take-append_beyond zero (x ∷ xs) ys h = absurd (omega arith)
take-append_beyond (suc n) (x ∷ xs) ys h =
    ap (λ r. x ∷ r)
      (take-append_beyond n xs ys (omega arith)
        ∙ ap (λ m. xs ++ take m ys) {x = n - length xs} {y = suc n - suc (length xs)} (omega arith))

cut-append_full : (full text : List ℕ) → dump_size - 1 ≤ length full → cut (full ++ text) ≡ cut full
cut-append_full full text h = take-append_within (dump_size - 1) full text h

print_behind-cut : (full text : List ℕ) → print_behind (cut full) text ≡ cut (full ++ text)
unfolding print_behind
print_behind-cut full text = elim (dec_lt (dump_size - 1) (length full)) [
  | no h ↦
      rw
        (
          take-length (dump_size - 1) full (omega arith),
          scnprintf-take (dump_size - length full) text (omega arith),
        )
        (ap (λ n. full ++ take n text) {x = dump_size - length full - 1}
            {y = dump_size - 1 - length full} (omega arith)
          ∙ sym (take-append_beyond (dump_size - 1) full text (omega arith)))
  | yes h ↦
      rw (scnprintf-take (dump_size - length (cut full)) text (omega (arith, length-cut full))) (
        ap (λ n. cut full ++ take n text) {x = dump_size - length (cut full) - 1} {y = 0}
          (omega (arith, length-cut full))
        ∙ append-nil (cut full)
        ∙ sym (cut-append_full full text (omega arith)))
]

hex_columns-cut :
    (i k : ℕ) (bytes full : List ℕ)
    → hex_columns i k bytes (cut full) ≡ cut (full ++ columns_text i k bytes)
unfolding hex_columns columns_text
hex_columns-cut i zero bytes full = ap cut (sym (append-nil full))
hex_columns-cut i (suc k) [] full =
    ap (hex_columns (i + 1) k []) (print_behind-cut full (32 ∷ 32 ∷ gap_behind i))
    ∙ hex_columns-cut (i + 1) k [] (full ++ (32 ∷ 32 ∷ gap_behind i))
    ∙ ap cut (append_assoc full (32 ∷ 32 ∷ gap_behind i) (columns_text (i + 1) k []))
hex_columns-cut i (suc k) (c ∷ bytes) full =
    ap (hex_columns (i + 1) k bytes) (print_behind-cut full (hex 2 c ++ gap_behind i))
    ∙ hex_columns-cut (i + 1) k bytes (full ++ (hex 2 c ++ gap_behind i))
    ∙ ap cut (append_assoc full (hex 2 c ++ gap_behind i) (columns_text (i + 1) k bytes))

char_columns-cut :
    (k : ℕ) (bytes full : List ℕ)
    → char_columns k bytes (cut full) ≡ cut (full ++ chars_text k bytes)
unfolding char_columns chars_text
char_columns-cut zero bytes full = ap cut (sym (append-nil full))
char_columns-cut (suc k) [] full = ap cut (sym (append-nil full))
char_columns-cut (suc k) (c ∷ bytes) full =
    ap (char_columns k bytes) (print_behind-cut full (shown c ∷ []))
    ∙ char_columns-cut k bytes (full ++ (shown c ∷ []))
    ∙ ap cut (append_assoc full (shown c ∷ []) (chars_text k bytes))

dump_row-cut :
    (off : ℕ) (bytes full : List ℕ)
    → dump_row off bytes (cut full) ≡ cut (full ++ row_text off bytes)
unfolding dump_row row_text
dump_row-cut off bytes full =
    let head = hex 8 off ++ 32 ∷ 32 ∷ [] in
    let columns = columns_text 0 16 bytes in
    let bar = 32 ∷ 32 ∷ b'|' ∷ [] in
    let chars = chars_text 16 bytes in
    let end = b'|' ∷ 10 ∷ [] in
    ap (λ b. print_behind (char_columns 16 bytes (print_behind (hex_columns 0 16 bytes b) bar)) end)
      (print_behind-cut full head)
    ∙ ap (λ b. print_behind (char_columns 16 bytes (print_behind b bar)) end)
        (hex_columns-cut 0 16 bytes (full ++ head))
    ∙ ap (λ b. print_behind (char_columns 16 bytes b) end)
        (print_behind-cut ((full ++ head) ++ columns) bar)
    ∙ ap (λ b. print_behind b end) (char_columns-cut 16 bytes (((full ++ head) ++ columns) ++ bar))
    ∙ print_behind-cut ((((full ++ head) ++ columns) ++ bar) ++ chars) end
    ∙ ap cut (
        append_assoc (((full ++ head) ++ columns) ++ bar) chars end
        ∙ append_assoc ((full ++ head) ++ columns) bar (chars ++ end)
        ∙ append_assoc (full ++ head) columns (bar ++ (chars ++ end))
        ∙ append_assoc full head (columns ++ (bar ++ (chars ++ end))))

at_end :
    (full : List ℕ) → ltb (length (cut full)) (dump_size - 1) ≡ false → dump_size - 1 ≤ length full
at_end full e = ground (arith, e, length-cut full)

dump_loop-cut :
    (fuel off : ℕ) (bytes full : List ℕ)
    → dump_loop fuel off bytes (cut full) ≡ cut (full ++ dump_text fuel off bytes)
unfolding dump_loop dump_text
dump_loop-cut zero off bytes full = ap cut (sym (append-nil full))
dump_loop-cut (suc fuel) off [] full = ap cut (sym (append-nil full))
dump_loop-cut (suc fuel) off (c ∷ bytes) full =
    elim (Bool-cases (ltb (length (cut full)) (dump_size - 1))) [
      | inl e ↦ rw e (
          ap (dump_loop fuel (off + 16) (drop 16 (c ∷ bytes))) (dump_row-cut off (c ∷ bytes) full)
          ∙ dump_loop-cut fuel (off + 16) (drop 16 (c ∷ bytes)) (full ++ row_text off (c ∷ bytes))
          ∙ ap cut (
              append_assoc full (row_text off (c ∷ bytes))
                (dump_text fuel (off + 16) (drop 16 (c ∷ bytes)))))
      | inr e ↦ rw e (sym (cut-append_full full _ (at_end full e)))
    ]

-- With an open log, `_log_hexdump` writes the text of the dump of all the bytes, sixteen in a row, cut
-- where its buffer of eight times LOG_MAX_LEN bytes ends, and never more than that buffer holds beside
-- a NUL.
pub log_hexdump-cut :
    (l : Logger) (bytes : List ℕ) (write_fails : Bool)
    → is_neg l.fd ≡ false
    → ((log_hexdump l bytes write_fails).0
        ≡ some (take (8 * log_max_len - 1) (dump_text (length bytes) 0 bytes)))
      × (length (take (8 * log_max_len - 1) (dump_text (length bytes) 0 bytes)) < 8 * log_max_len)
unfolding log_hexdump
log_hexdump-cut l bytes write_fails open_log = (
  rw open_log (ap some (dump_loop-cut (length bytes) 0 bytes [])),
  omega (arith, length-cut (dump_text (length bytes) 0 bytes)),
)
