-- ===== src/Kfifo/Halves.antt =====
-- The steps of a put and of a get, one by one: what each does to the contents of the ring.
use cliveserver.Base.{
  ℕ, ◌+◌, ◌-◌, ◌%◌, ◌≤◌, ◌≡◌, refl, sym, ap, ◌∙◌, List, ◌++◌, min, length, take, drop, get_or,
  arith,
}
use native.Mathlib.Nat.{mod-add-mod}
use cliveserver.Kfifo.{Kfifo, len, raw_get}
use cliveserver.Kfifo.Word.{add32, sub32}
use cliveserver.Kfifo.Window.{window, window-append, window_ext}
use cliveserver.Kfifo.Inv.{
  IsValid, contents, size_bounds, offset_mask, room, in_offset_mod, segment,
}
use cliveserver.Kfifo.Scatter.{scatter}
use cliveserver.Kfifo.Put.{taken, filled, at-lt, length-filled, old_bytes, window-filled}
use cliveserver.Kfifo.Get.{raw_get-bytes, raw_get-rest, raw_get-IsValid}
use cliveserver.Kfifo.Threads.{put_room, copy_in, publish_in, get_room, copy_out, publish_out}

module _ {k : ℕ} {fifo : Kfifo} (v : IsValid k fifo) where
  pub put_room-le :
      (wanted : ℕ) → (put_room fifo wanted ≤ wanted) × (put_room fifo wanted ≤ fifo.size - len fifo)
  unfolding put_room
  put_room-le wanted = (omega arith, omega (arith, room v))

  pub get_room-le : (wanted : ℕ) → get_room fifo wanted ≤ len fifo
  unfolding get_room len
  get_room-le wanted = omega arith

  -- the write offset stands as many bytes behind the read offset as the ring holds
  in_window :
      (buffer : List ℕ) (n : ℕ)
      → window fifo.size buffer fifo.in_offset n
        ≡ window fifo.size buffer (fifo.out_offset + len fifo) n
  in_window buffer n =
      window_ext fifo.size buffer buffer fifo.in_offset (fifo.out_offset + len fifo) n λ i hi.
        ap (λ t. get_or buffer t 0)
          (sym (mod-add-mod fifo.in_offset fifo.size i)
            ∙ ap (λ t. (t + i) % fifo.size) (in_offset_mod v)
            ∙ mod-add-mod (fifo.out_offset + len fifo) fifo.size i)

  module _ (source : List ℕ) (n : ℕ) (given : n ≤ length source)
      (small : n ≤ fifo.size - len fifo) where
    taken_all : taken v source n given ≡ n
    taken_all = omega (arith, small)

    copy_in_lem : copy_in fifo source n ≡ record fifo { buffer = filled v source n given }
    unfolding copy_in scatter
    copy_in_lem =
        rw
          (
            offset_mask v fifo.in_offset,
            segment v (fifo.in_offset % fifo.size) (at-lt v source n given),
            v.held,
            taken_all,
          )
          refl

    -- The copies leave the contents, and put the bytes behind them.
    pub contents-copy_in : contents (copy_in fifo source n) ≡ contents fifo
    unfolding len
    contents-copy_in = rw copy_in_lem (
        window_ext fifo.size (filled v source n given) fifo.buffer fifo.out_offset fifo.out_offset
          (len fifo) (old_bytes v source n given))

    pub behind-copy_in :
        window
          (copy_in fifo source n).size
          (copy_in fifo source n).buffer
          (copy_in fifo source n).in_offset
          n
        ≡ take n source
    behind-copy_in = rw copy_in_lem (
        in_window (filled v source n given) n
        ∙ ap (window fifo.size (filled v source n given) (fifo.out_offset + len fifo))
            (sym taken_all)
        ∙ window-filled v source n given
        ∙ ap (λ m. take m source) taken_all)

    pub len-copy_in : len (copy_in fifo source n) ≡ len fifo
    unfolding len copy_in
    len-copy_in = refl

    pub copy_in-IsValid : IsValid k (copy_in fifo source n)
    unfolding len
    copy_in-IsValid = rw copy_in_lem (record {
      width = v.width;
      sized = v.sized;
      held = length-filled v source n given ∙ v.held;
      in_word = v.in_word;
      out_word = v.out_word;
      fits = v.fits;
    })

  module _ (bytes : List ℕ) (n : ℕ) (small : n ≤ fifo.size - len fifo)
      (there : window fifo.size fifo.buffer fifo.in_offset n ≡ bytes) where
    pub len-publish_in : len (publish_in fifo n) ≡ len fifo + n
    unfolding len sub32 add32 publish_in
    len-publish_in = omega (arith, size_bounds v, v.fits, v.in_word, v.out_word, small)

    -- Moving the write offset makes the bytes behind the contents the newest of them.
    pub contents-publish_in : contents (publish_in fifo n) ≡ contents fifo ++ bytes
    unfolding publish_in
    contents-publish_in =
        ap (window fifo.size fifo.buffer fifo.out_offset) len-publish_in
        ∙ window-append fifo.size fifo.buffer fifo.out_offset (len fifo) n
        ∙ ap (λ r. contents fifo ++ r) (sym (in_window fifo.buffer n) ∙ there)

    pub publish_in-IsValid : IsValid k (publish_in fifo n)
    unfolding publish_in add32
    publish_in-IsValid = record {
      width = v.width;
      sized = v.sized;
      held = v.held;
      in_word = omega arith;
      out_word = v.out_word;
      fits = omega (arith, len-publish_in, v.fits, small);
    }

  module _ (n : ℕ) (small : n ≤ len fifo) where
    as_get : raw_get fifo n ≡ (copy_out fifo n, publish_out fifo n)
    unfolding raw_get copy_out publish_out len
    as_get =
        let all : min n (sub32 fifo.in_offset fifo.out_offset) ≡ n = omega (arith, small) in
        rw all refl

    pub copy_out-take : copy_out fifo n ≡ take n (contents fifo)
    copy_out-take = ap (λ r. r.0) (sym as_get) ∙ raw_get-bytes v n

    pub contents-publish_out : contents (publish_out fifo n) ≡ drop n (contents fifo)
    contents-publish_out = ap (λ r. contents r.1) (sym as_get) ∙ raw_get-rest v n

    pub publish_out-IsValid : IsValid k (publish_out fifo n)
    publish_out-IsValid = rw (ap (λ r. r.1) (sym as_get)) (raw_get-IsValid v n)

    pub len-publish_out : len (publish_out fifo n) ≡ len fifo - n
    unfolding publish_out len sub32 add32
    len-publish_out = omega (arith, size_bounds v, v.fits, v.in_word, v.out_word, small)
