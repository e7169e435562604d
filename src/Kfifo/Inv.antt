-- ===== src/Kfifo/Inv.antt =====
-- The representation invariant of `struct kfifo` for a size that is a power of two, as every ring
-- of the server has, and what it says of the masked offsets.
use native.Mathlib.Nat.{pow-le-pow_right, one-le-pow}
use cliveserver.Base.{
  ℕ, ◌+◌, ◌-◌, ◌%◌, ◌^◌, ◌≤◌, ◌<◌, ◌≡◌, sym, ap, ◌∙◌, List, bit_and, length, arith,
}
use cliveserver.Base.Bits.{bit_and-mask}
use cliveserver.Kfifo.{Kfifo, len}
use cliveserver.Kfifo.Word.{add32, sub32, mod-word}
use cliveserver.Kfifo.Window.{window}

pub record IsValid (k : ℕ) (fifo : Kfifo) : Type 0 where
  pub width : k ≤ 31
  pub sized : fifo.size ≡ 2 ^ k
  pub held : length fifo.buffer ≡ fifo.size
  pub in_word : fifo.in_offset < 2 ^ 32
  pub out_word : fifo.out_offset < 2 ^ 32
  pub fits : len fifo ≤ fifo.size

-- the bytes in the ring, oldest first
abbrev pub contents : Kfifo → List ℕ
contents fifo = window fifo.size fifo.buffer fifo.out_offset (len fifo)

module _ {k : ℕ} {fifo : Kfifo} (v : IsValid k fifo) where
  pub size_bounds : (1 ≤ fifo.size) × (fifo.size ≤ 2 ^ 31)
  size_bounds =
      let low = one-le-pow k 2 (omega arith) in
      let high = pow-le-pow_right {n = 2} (omega arith) {i = k} {j = 31} v.width in
      omega (arith, low, high, v.sized)

  pub offset_mask : (x : ℕ) → bit_and x (sub32 fifo.size 1) ≡ x % fifo.size
  unfolding sub32
  offset_mask x =
      ap (bit_and x) {x = (fifo.size + 2 ^ 32 - 1) % 2 ^ 32} {y = 2 ^ k - 1}
        (omega (arith, size_bounds, v.sized))
      ∙ bit_and-mask k x
      ∙ ap (λ s. x % s) (sym v.sized)

  pub mod_word_size : (x : ℕ) → x % 2 ^ 32 % fifo.size ≡ x % fifo.size
  mod_word_size x = rw v.sized (mod-word k x (omega arith))

  pub room : add32 (sub32 fifo.size fifo.in_offset) fifo.out_offset ≡ fifo.size - len fifo
  unfolding add32 sub32 len
  room = omega (arith, size_bounds)

  -- The write offset is the read offset, as many bytes further as the ring holds.
  pub in_offset_lem : fifo.in_offset ≡ add32 fifo.out_offset (len fifo)
  unfolding add32 sub32 len
  in_offset_lem = omega arith

  pub in_offset_mod : fifo.in_offset % fifo.size ≡ (fifo.out_offset + len fifo) % fifo.size
  unfolding add32
  in_offset_mod = ap (λ x. x % fifo.size) in_offset_lem ∙ mod_word_size (fifo.out_offset + len fifo)

  pub segment : (x : ℕ) → x < fifo.size → sub32 fifo.size x ≡ fifo.size - x
  unfolding sub32
  segment x h = omega (arith, size_bounds)
