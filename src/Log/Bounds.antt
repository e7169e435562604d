-- ===== src/Log/Bounds.antt =====
-- The lengths of log messages against the buffers on the stack.
use cliveserver.Base.{
  ℕ, ◌-◌, ◌≤◌, ◌<◌, ◌≡◌, refl, sym, inl, inr, List, [], ◌∷◌, ◌++◌, min, arith, length, take,
  length-append, length-take, take-length, take-nil, Bool-cases, ltb, ◌==◌,
}
use cliveserver.Log.{log_max_len, scnprintf, log_line}

-- The result of `scnprintf` is a prefix of the text as long as the buffer holds beside the NUL.
pub scnprintf-take :
    (size : ℕ) (text : List ℕ) → 0 < size → scnprintf size text ≡ take (size - 1) text
unfolding scnprintf
scnprintf-take size text h = elim (Bool-cases (length text == 0)) [
  | inl e ↦ rw e (empty text (ground arith))
  | inr e ↦ rw e (elim (Bool-cases (ltb (length text) size)) [
    | inl fits ↦ rw fits (sym (take-length (size - 1) text (ground arith)))
    | inr long ↦ rw long refl
  ])
]
  where
    empty : (xs : List ℕ) → length xs ≡ 0 → [] ≡ take (size - 1) xs
    empty [] e = sym (take-nil (size - 1))
    empty (x ∷ xs) e = absurd (omega arith)

-- The line that `_log` writes ends in a newline and, with its two parts cut to what is left of the
-- buffer, is never longer than the buffer of LOG_MAX_LEN bytes.
pub length-log_line :
    (prefix message : List ℕ)
    → (length (log_line prefix message) ≤ log_max_len)
      × (log_line prefix message
          ≡ take (log_max_len - 1) prefix
            ++ (take (log_max_len - 1 - length prefix) message ++ (10 ∷ [])))
unfolding log_line
length-log_line prefix message =
    let head : length (take (log_max_len - 1) prefix) ≡ min (log_max_len - 1) (length prefix) =
      length-take (log_max_len - 1) prefix in
    let first : scnprintf log_max_len prefix ≡ take (log_max_len - 1) prefix =
      scnprintf-take log_max_len prefix (omega arith) in
    let room : log_max_len - length (take (log_max_len - 1) prefix) - 1
        ≡ log_max_len - 1 - length prefix =
      omega (arith, head) in
    rw
      (
        first,
        scnprintf-take (log_max_len - length (take (log_max_len - 1) prefix)) message
            (omega (arith, head)),
        room,
      )
      (
        omega (
          arith,
          head,
          length-append (take (log_max_len - 1) prefix)
              (take (log_max_len - 1 - length prefix) message ++ (10 ∷ [])),
          length-append (take (log_max_len - 1 - length prefix) message) (10 ∷ []),
          length-take (log_max_len - 1 - length prefix) message,
        ),
        refl,
      )
