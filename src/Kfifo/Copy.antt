-- ===== src/Kfifo/Copy.antt =====
-- `memcpy` into and out of a buffer.
use cliveserver.Base.{
  ℕ, ◌+◌, ◌-◌, ◌≤◌, ◌<◌, ◌≡◌, ◌∙◌, ap, List, ◌++◌, length, take, drop, get_or, arith, length-append,
  length-take, length-drop, get_or-append_left, get_or-append_right, get_or-take, get_or-drop,
}

-- `memcpy(buffer + at, source, length source)`
unfoldable pub copy_to : List ℕ → ℕ → List ℕ → List ℕ
copy_to buffer at source = take at buffer ++ (source ++ drop (at + length source) buffer)

-- `memcpy(_, buffer + at, n)`
unfoldable pub copy_from : List ℕ → ℕ → ℕ → List ℕ
copy_from buffer at n = take n (drop at buffer)

module _ (buffer : List ℕ) (at : ℕ) (source : List ℕ)
    (fits : at + length source ≤ length buffer) where
  pub length-copy_to : length (copy_to buffer at source) ≡ length buffer
  unfolding copy_to
  length-copy_to = omega (
    arith,
    length-append (take at buffer) (source ++ drop (at + length source) buffer),
    length-append source (drop (at + length source) buffer),
    length-take at buffer,
    length-drop (at + length source) buffer,
  )

  length-front : length (take at buffer) ≡ at
  length-front = omega (arith, length-take at buffer)

  pub get_or-copy_to_before :
      (j : ℕ) → j < at → get_or (copy_to buffer at source) j 0 ≡ get_or buffer j 0
  unfolding copy_to
  get_or-copy_to_before j h =
      get_or-append_left j (take at buffer) _ 0 (omega (arith, length-front))
      ∙ get_or-take j at buffer 0 h

  pub get_or-copy_to_inside :
      (j : ℕ)
      → at ≤ j
      → j < at + length source
      → get_or (copy_to buffer at source) j 0 ≡ get_or source (j - at) 0
  unfolding copy_to
  get_or-copy_to_inside j lo hi =
      get_or-append_right j (take at buffer) _ 0 (omega (arith, length-front))
      ∙ rw length-front (get_or-append_left (j - at) source _ 0 (omega arith))

  pub get_or-copy_to_after :
      (j : ℕ) → at + length source ≤ j → get_or (copy_to buffer at source) j 0 ≡ get_or buffer j 0
  unfolding copy_to
  get_or-copy_to_after j h =
      get_or-append_right j (take at buffer) _ 0 (omega (arith, length-front))
      ∙ rw length-front (
          get_or-append_right (j - at) source _ 0 (omega arith)
          ∙ get_or-drop (j - at - length source) (at + length source) buffer 0
          ∙ ap (λ k. get_or buffer k 0) (omega arith))

pub length-copy_from :
    (buffer : List ℕ) (at n : ℕ) → at + n ≤ length buffer → length (copy_from buffer at n) ≡ n
unfolding copy_from
length-copy_from buffer at n h =
    omega (arith, length-take n (drop at buffer), length-drop at buffer)

pub get_or-copy_from :
    (buffer : List ℕ) (at n j : ℕ)
    → j < n
    → get_or (copy_from buffer at n) j 0 ≡ get_or buffer (at + j) 0
unfolding copy_from
get_or-copy_from buffer at n j h = get_or-take j n (drop at buffer) 0 h ∙ get_or-drop j at buffer 0
