-- ===== src/Kfifo/Get.antt =====
-- `kfifo_get`: the bytes it hands out, and what stays.
use native.Mathlib.Nat.{mod-lt, mod-add-mod}
use cliveserver.Base.{
  ℕ, ◌+◌, ◌-◌, ◌%◌, ◌<◌, ◌≡◌, refl, sym, ap, ◌∙◌, inl, inr, true, List, ◌++◌, min, length, take,
  drop, get_or, arith, length-append, get_or-append_left, get_or-append_right, take-append_left,
  drop-append_left, take-min, drop-min, Bool-cases, ◌==◌,
}
use cliveserver.Kfifo.{Kfifo, len, raw_get, reset_if_empty, get}
use cliveserver.Kfifo.Word.{add32, sub32, add-mod-cases}
use cliveserver.Kfifo.Copy.{copy_from, length-copy_from, get_or-copy_from}
use cliveserver.Kfifo.Window.{window, length-window, window-append, window-eq, window_ext}
use cliveserver.Kfifo.Inv.{IsValid, contents, size_bounds, offset_mask, mod_word_size, segment}

module _ {k : ℕ} {fifo : Kfifo} (v : IsValid k fifo) (wanted : ℕ) where
  open fifo use {buffer, size, in_offset, out_offset}

  -- the number of bytes handed out, the index of the first, and how many stand before the end
  abbrev given : ℕ
  given = min wanted (len fifo)

  abbrev at : ℕ
  at = out_offset % size

  abbrev piece : ℕ
  piece = min given (size - at)

  abbrev bytes : List ℕ
  bytes = copy_from buffer at piece ++ copy_from buffer 0 (given - piece)

  at-lt : at < size
  at-lt = mod-lt out_offset (omega (arith, size_bounds v))

  raw_get_lem : raw_get fifo wanted ≡ (bytes, record fifo { out_offset = add32 out_offset given })
  unfolding raw_get len
  raw_get_lem = rw (offset_mask v out_offset, segment v at at-lt) refl

  first_length : length (copy_from buffer at piece) ≡ piece
  first_length = length-copy_from buffer at piece (omega (arith, at-lt, v.held))

  length-bytes : length bytes ≡ given
  length-bytes = omega (
    arith,
    length-append (copy_from buffer at piece) (copy_from buffer 0 (given - piece)),
    first_length,
    length-copy_from buffer 0 (given - piece) (omega (arith, v.held, v.fits)),
  )

  byte_lem : (i : ℕ) → i < given → get_or buffer ((out_offset + i) % size) 0 ≡ get_or bytes i 0
  byte_lem i hi = elim (add-mod-cases out_offset i size (omega (arith, v.fits))) [
    | inl (e, h) ↦ sym (
        get_or-append_left i (copy_from buffer at piece) _ 0 (omega (arith, first_length))
        ∙ get_or-copy_from buffer at piece i (omega arith)
        ∙ ap (λ t. get_or buffer t 0) (omega (arith, e)))
    | inr (e, h) ↦ sym (
        get_or-append_right i (copy_from buffer at piece) _ 0 (omega (arith, first_length))
        ∙ get_or-copy_from buffer 0 (given - piece) (i - length (copy_from buffer at piece))
            (omega (arith, first_length))
        ∙ ap (λ t. get_or buffer t 0) (omega (arith, e, first_length)))
  ]

  window-bytes : window size buffer out_offset given ≡ bytes
  window-bytes =
      ap (window size buffer out_offset) (sym length-bytes)
      ∙ window-eq size buffer out_offset bytes λ i hi. byte_lem i (omega (arith, length-bytes))

  -- the window, split behind the bytes that are handed out
  contents-split :
      contents fifo ≡ bytes ++ window size buffer (out_offset + given) (len fifo - given)
  contents-split =
      ap (window size buffer out_offset) {x = len fifo} {y = given + (len fifo - given)}
        (omega arith)
      ∙ window-append size buffer out_offset given (len fifo - given)
      ∙ ap (λ t. t ++ window size buffer (out_offset + given) (len fifo - given)) window-bytes

  len-raw_get : len (raw_get fifo wanted).1 ≡ len fifo - given
  unfolding len sub32 add32
  len-raw_get = rw raw_get_lem (omega (arith, size_bounds v, v.fits, v.in_word, v.out_word))

  contents-raw_get :
      contents (raw_get fifo wanted).1 ≡ window size buffer (out_offset + given) (len fifo - given)
  unfolding add32
  contents-raw_get =
      rw (len-raw_get, raw_get_lem)
        (window_ext size buffer buffer (add32 out_offset given) (out_offset + given)
          (len fifo - given) λ i hi. ap (λ t. get_or buffer t 0) (turn i))
    where
      turn : (i : ℕ) → (add32 out_offset given + i) % size ≡ (out_offset + given + i) % size
      turn i =
          sym (mod-add-mod (add32 out_offset given) size i)
          ∙ ap (λ t. (t + i) % size) (mod_word_size v (out_offset + given))
          ∙ mod-add-mod (out_offset + given) size i

  given_lem : min wanted (length (contents fifo)) ≡ length bytes
  given_lem = rw (length-window, length-bytes) refl

  pub raw_get-bytes : (raw_get fifo wanted).0 ≡ take wanted (contents fifo)
  raw_get-bytes =
      rw (raw_get_lem, take-min, given_lem, contents-split) (sym (take-append_left bytes _))

  pub raw_get-rest : contents (raw_get fifo wanted).1 ≡ drop wanted (contents fifo)
  raw_get-rest =
      rw (contents-raw_get, drop-min, given_lem, contents-split) (sym (drop-append_left bytes _))

  pub raw_get-IsValid : IsValid k (raw_get fifo wanted).1
  unfolding add32
  raw_get-IsValid = record {
    width = v.width;
    sized = rw raw_get_lem v.sized;
    held = rw raw_get_lem v.held;
    in_word = rw raw_get_lem v.in_word;
    out_word = rw raw_get_lem (omega arith);
    fits = rw (len-raw_get, raw_get_lem) (omega (arith, v.fits));
  }

module _ {k : ℕ} {fifo : Kfifo} (v : IsValid k fifo) where
  len-reset : len (reset_if_empty fifo) ≡ len fifo
  unfolding len sub32 reset_if_empty
  len-reset = ground (arith, v.in_word)

  -- The reset of the offsets of an empty ring is not seen.
  pub contents-reset : contents (reset_if_empty fifo) ≡ contents fifo
  contents-reset = elim (Bool-cases (fifo.in_offset == fifo.out_offset)) [
    | inl e ↦ rw (len-reset, empty e) (unfold reset_if_empty window in refl)
    | inr e ↦ rw len-reset (unfold reset_if_empty in ground arith)
  ]
    where
      empty : (fifo.in_offset == fifo.out_offset) ≡ true → len fifo ≡ 0
      empty e = unfold len sub32 in ground (arith, v.in_word)

  pub reset-IsValid : IsValid k (reset_if_empty fifo)
  reset-IsValid = record {
    width = v.width;
    sized = unfold reset_if_empty in ground (arith, v.sized);
    held = unfold reset_if_empty in ground (arith, v.held);
    in_word = unfold reset_if_empty in ground (arith, v.in_word);
    out_word = unfold reset_if_empty in ground (arith, v.out_word);
    fits = rw len-reset (unfold reset_if_empty in ground (arith, v.fits));
  }

-- `kfifo_get` hands out the oldest bytes, and keeps the rest and the invariant.
pub get_lem :
    {k : ℕ} {fifo : Kfifo} (wanted : ℕ)
    → IsValid k fifo
    → ((get fifo wanted).0 ≡ take wanted (contents fifo))
      × (contents (get fifo wanted).1 ≡ drop wanted (contents fifo))
      × IsValid k (get fifo wanted).1
unfolding get
get_lem wanted v = (
  raw_get-bytes v wanted,
  contents-reset (raw_get-IsValid v wanted) ∙ raw_get-rest v wanted,
  reset-IsValid (raw_get-IsValid v wanted),
)
