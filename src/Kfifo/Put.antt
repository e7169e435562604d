-- ===== src/Kfifo/Put.antt =====
-- `kfifo_put`: how many bytes it takes, and which.
use cliveserver.Base.{
  ℕ, ◌+◌, ◌-◌, ◌%◌, ◌≤◌, ◌<◌, ◌≡◌, refl, sym, ap, ◌∙◌, ◌⊎◌, inl, inr, List, ◌++◌, min, length, take,
  get_or, arith, length-take, get_or-take,
}
use mathlib.Core.Path.{ap₂}
use native.Mathlib.Nat.{mod-lt}
use cliveserver.Kfifo.{Kfifo, len, put}
use cliveserver.Kfifo.Word.{add32, sub32, add-mod-cases, add-mod-ahead}
use cliveserver.Kfifo.Scatter.{scatter, length-scatter, get_or-scatter, get_or-scatter_other}
use cliveserver.Kfifo.Window.{window, window-append, window-eq, window_ext}
use cliveserver.Kfifo.Inv.{
  IsValid, contents, size_bounds, offset_mask, room, in_offset_mod, segment,
}

module _ {k : ℕ} {fifo : Kfifo} (v : IsValid k fifo) (source : List ℕ) (wanted : ℕ)
    (given : wanted ≤ length source) where
  open fifo use {buffer, size, in_offset, out_offset}

  -- the number of bytes taken, the index of the first, and the buffer after the copies
  abbrev pub taken : ℕ
  taken = min wanted (size - len fifo)

  abbrev at : ℕ
  at = in_offset % size

  abbrev pub filled : List ℕ
  filled = scatter buffer at source taken (min taken (length buffer - at))

  pub at-lt : at < size
  at-lt = mod-lt in_offset (omega (arith, size_bounds v))

  -- With the masks, the word arithmetic and the room computed, `put` is `scatter`.
  put_lem :
      put fifo source wanted
      ≡ (taken, record fifo { buffer = filled; in_offset = add32 in_offset taken })
  unfolding put scatter
  put_lem = rw (room v, offset_mask v in_offset, segment v at at-lt, v.held) refl

  pub length-filled : length filled ≡ length buffer
  length-filled =
      length-scatter buffer at source taken (omega (arith, at-lt, v.held)) (omega (arith, v.held))
        (omega arith)

  -- what the ring held before
  pub old_bytes :
      (i : ℕ)
      → i < len fifo
      → get_or filled ((out_offset + i) % size) 0 ≡ get_or buffer ((out_offset + i) % size) 0
  old_bytes i hi =
      get_or-scatter_other buffer at source taken (omega (arith, at-lt, v.held))
        (omega (arith, v.held)) (omega arith) ((out_offset + i) % size) (len fifo - i) behind
        (omega arith) (omega (arith, v.held, v.fits))
        (omega (arith, mod-lt (out_offset + i) {m = size} (omega (arith, size_bounds v)), v.held))
    where
      behind :
          ((out_offset + i) % size + (len fifo - i) ≡ at)
          ⊎ ((out_offset + i) % size + (len fifo - i) ≡ at + length buffer)
      behind =
          elim (add-mod-ahead (out_offset + i) (len fifo - i) size (omega (arith, size_bounds v))
            (omega (arith, v.fits))) [
              | inl e ↦ inl (e ∙ there)
              | inr e ↦ inr (e ∙ ap₂ ◌+◌ there (sym v.held))
            ]
        where
          there : (out_offset + i + (len fifo - i)) % size ≡ at
          there = ap (λ t. t % size) (omega arith) ∙ sym (in_offset_mod v)

  -- what is put behind it
  new_bytes :
      (i : ℕ) → i < taken → get_or filled ((out_offset + len fifo + i) % size) 0 ≡ get_or source i 0
  new_bytes i hi =
      get_or-scatter buffer at source taken (omega (arith, at-lt, v.held)) (omega (arith, v.held))
        (omega arith) i ((out_offset + len fifo + i) % size) hi ahead
        (omega (
          arith,
          mod-lt (out_offset + len fifo + i) {m = size} (omega (arith, size_bounds v)),
          v.held,
        ))
    where
      ahead :
          ((out_offset + len fifo + i) % size ≡ at + i)
          ⊎ ((out_offset + len fifo + i) % size + length buffer ≡ at + i)
      ahead = elim (add-mod-cases (out_offset + len fifo) i size (omega arith)) [
        | inl (e, _) ↦ inl (omega (arith, e, in_offset_mod v))
        | inr (e, _) ↦ inr (omega (arith, e, in_offset_mod v, v.held))
      ]

  pub window-filled : window size filled (out_offset + len fifo) taken ≡ take taken source
  window-filled =
      ap (window size filled (out_offset + len fifo)) (sym whole)
      ∙ window-eq size filled (out_offset + len fifo) (take taken source) λ i hi.
        new_bytes i (omega (arith, whole))
        ∙ sym (get_or-take i taken source 0 (omega (arith, whole)))
    where
      whole : length (take taken source) ≡ taken
      whole = omega (arith, length-take taken source)

  len-put : len (put fifo source wanted).1 ≡ len fifo + taken
  unfolding len sub32 add32
  len-put = rw put_lem (omega (arith, size_bounds v, v.fits, v.in_word, v.out_word))

  pub contents-put : contents (put fifo source wanted).1 ≡ contents fifo ++ take taken source
  contents-put =
      rw (len-put, put_lem)
        (window-append size filled out_offset (len fifo) taken
          ∙ ap₂ ◌++◌ (window_ext size filled buffer out_offset out_offset (len fifo) old_bytes)
              window-filled)

  pub put-IsValid : IsValid k (put fifo source wanted).1
  unfolding add32
  put-IsValid = record {
    width = v.width;
    sized = rw put_lem v.sized;
    held = rw put_lem (length-filled ∙ v.held);
    in_word = rw put_lem (omega arith);
    out_word = rw put_lem v.out_word;
    fits = rw (len-put, put_lem) (omega (arith, v.fits));
  }

  pub put-count : (put fifo source wanted).0 ≡ taken
  put-count = rw put_lem refl
