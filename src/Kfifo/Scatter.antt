-- ===== src/Kfifo/Scatter.antt =====
-- The two copies of `__kfifo_put`: a stretch of bytes laid round the end of the buffer.
use cliveserver.Base.{
  ℕ, ◌+◌, ◌-◌, ◌≤◌, ◌<◌, ◌≡◌, ap, ◌∙◌, ◌⊎◌, inl, inr, List, min, length, take, drop, get_or, arith,
  length-take, length-drop, get_or-take, get_or-drop,
}
use cliveserver.Kfifo.Copy.{
  copy_to, length-copy_to, get_or-copy_to_before, get_or-copy_to_inside, get_or-copy_to_after,
}

-- the two copies of `put`, at an index in the buffer
unfoldable pub scatter : List ℕ → ℕ → List ℕ → ℕ → ℕ → List ℕ
scatter buffer at source n l =
    copy_to (copy_to buffer at (take l source)) 0 (take (n - l) (drop l source))

module _ (buffer : List ℕ) (at : ℕ) (source : List ℕ) (n : ℕ) (inside : at < length buffer)
    (small : n ≤ length buffer) (given : n ≤ length source) where
  abbrev piece : ℕ
  piece = min n (length buffer - at)

  length-piece : length (take piece source) ≡ piece
  length-piece = omega (arith, length-take piece source)

  rest_length : length (take (n - piece) (drop piece source)) ≡ n - piece
  rest_length = omega (arith, length-take (n - piece) (drop piece source), length-drop piece source)

  first_fits : at + length (take piece source) ≤ length buffer
  first_fits = omega (arith, length-piece)

  rest_fits :
      0 + length (take (n - piece) (drop piece source))
      ≤ length (copy_to buffer at (take piece source))
  rest_fits = omega (arith, rest_length, length-copy_to buffer at (take piece source) first_fits)

  pub length-scatter : length (scatter buffer at source n piece) ≡ length buffer
  unfolding scatter
  length-scatter =
      length-copy_to (copy_to buffer at (take piece source)) 0 _ rest_fits
      ∙ length-copy_to buffer at (take piece source) first_fits

  -- Byte `i` of the source lands `i` bytes round from the index.
  pub get_or-scatter :
      (i j : ℕ)
      → i < n
      → (j ≡ at + i) ⊎ (j + length buffer ≡ at + i)
      → j < length buffer
      → get_or (scatter buffer at source n piece) j 0 ≡ get_or source i 0
  unfolding scatter
  get_or-scatter i j hi (inl e) hj =
      get_or-copy_to_after (copy_to buffer at (take piece source)) 0 _ rest_fits j
        (omega (arith, rest_length))
      ∙ get_or-copy_to_inside buffer at (take piece source) first_fits j (omega arith)
          (omega (arith, length-piece))
      ∙ ap (λ t. get_or (take piece source) t 0) {x = j - at} {y = i} (omega arith)
      ∙ get_or-take i piece source 0 (omega arith)
  get_or-scatter i j hi (inr e) hj =
      get_or-copy_to_inside (copy_to buffer at (take piece source)) 0 _ rest_fits j (omega arith)
        (omega (arith, rest_length))
      ∙ get_or-take (j - 0) (n - piece) (drop piece source) 0 (omega arith)
      ∙ get_or-drop (j - 0) piece source 0
      ∙ ap (λ t. get_or source t 0) {x = piece + (j - 0)} {y = i} (omega arith)

  -- A byte behind the index, out of reach of the copies, stays.
  pub get_or-scatter_other :
      (j d : ℕ)
      → (j + d ≡ at) ⊎ (j + d ≡ at + length buffer)
      → 0 < d
      → d + n ≤ length buffer
      → j < length buffer
      → get_or (scatter buffer at source n piece) j 0 ≡ get_or buffer j 0
  unfolding scatter
  get_or-scatter_other j d (inl e) hd hs hj =
      get_or-copy_to_after (copy_to buffer at (take piece source)) 0 _ rest_fits j
        (omega (arith, rest_length))
      ∙ get_or-copy_to_before buffer at (take piece source) first_fits j (omega arith)
  get_or-scatter_other j d (inr e) hd hs hj =
      get_or-copy_to_after (copy_to buffer at (take piece source)) 0 _ rest_fits j
        (omega (arith, rest_length))
      ∙ get_or-copy_to_after buffer at (take piece source) first_fits j
          (omega (arith, length-piece))
