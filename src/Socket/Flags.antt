-- ===== src/Socket/Flags.antt =====
-- `clive_set_nonblocking` and `clive_set_blocking` change one flag.
use Prim.Native.Nat.{bit_or}
use cliveserver.Base.{
  ℕ, ◌^◌, ◌<◌, ◌≡◌, refl, sym, ap, ◌∙◌, false, Option, some, bit_and, ◌==◌, if◌then◌else◌, arith,
  inl, inr, Bool-cases, ==_self, ==_iff,
}
use mathlib.Core.Path.{subst}
use cliveserver.Base.Int.{ℤ, pos, negsuc, is_neg}
use cliveserver.Base.Digits.{digit, digit-bit_or, digit-le}
use cliveserver.Base.Masks.{digit-pow, mask_off_set}
use cliveserver.Socket.{
  set_flags, SocketState, nonblock, other_flags, Becomes, SameSockets, Sockets, clive_set_blocking,
  clive_set_nonblocking,
}

-- a set digit 11, and no other change
pub set_nonblock : (f i : ℕ) → digit i (bit_or f nonblock) ≡ (if i == 11 then 1 else digit i f)
set_nonblock f i = digit-bit_or i f nonblock ∙ elim (Bool-cases (i == 11)) [
  | inl e ↦ rw e (omega (arith, digit-pow i 11, digit-le i f, rw e at (digit-pow i 11)))
  | inr e ↦ rw e (omega (arith, rw e at (digit-pow i 11)))
]

module _ {Kernel : Type 0} (state : Kernel → ℕ → Option SocketState) where
  pub became :
      (k : Kernel) (fd : ℕ) (st : SocketState) (r : ℤ × Kernel)
      → Becomes state k fd st r
      → is_neg r.0 ≡ false
      → (s : ℕ) → state r.1 s ≡ (if s == fd then some st else state k s)
  became k fd st (pos n, k') b ok = b
  became k fd st (negsuc n, k') b ok = cc

module _ (sockets : Sockets) where
  open sockets use {Kernel, state, perform, getfl_done, perform_done}

  -- After `clive_set_nonblocking` on an open socket, either the call failed and no socket has changed,
  -- or O_NONBLOCK is the only flag of this one that may have changed, it is set, and no other socket
  -- has changed.
  pub set_nonblocking-Becomes :
      (k : Kernel) (fd : ℕ) (st : SocketState)
      → state k fd ≡ some st
      → Becomes state k fd
          (record st { flags = bit_or st.flags nonblock })
          (clive_set_nonblocking sockets k (pos fd))
        × ((i : ℕ) → digit i (bit_or st.flags nonblock) ≡ (if i == 11 then 1 else digit i st.flags))
  unfolding clive_set_nonblocking
  set_nonblocking-Becomes k fd st e = (
    rw (getfl_done k fd st e) (
        perform_done k fd (set_flags (bit_or st.flags nonblock)) st e
          (λ i ne. set_nonblock st.flags i ∙ rw ne refl)),
    set_nonblock st.flags,
  )

  set_blocking-Becomes :
      (k : Kernel) (fd : ℕ) (st : SocketState)
      → bit_and st.flags nonblock ≡ 0
      → st.flags < 2 ^ 31
      → state k fd ≡ some (record st { flags = bit_or st.flags nonblock })
      → Becomes state k fd st (clive_set_blocking sockets k (pos fd))
  unfolding clive_set_blocking
  set_blocking-Becomes k fd st clear small held =
      let set = bit_or st.flags nonblock in
      let cleared : bit_and set other_flags ≡ st.flags =
        mask_off_set 32 st.flags other_flags nonblock refl refl (omega (arith, small)) clear in
      rw (getfl_done k fd (record st { flags = set }) held) (
        subst
          (λ f.
            Becomes state k fd (record st { flags = f })
              (perform k (pos fd) (set_flags (bit_and set other_flags))))
          cleared
          (perform_done k fd (set_flags (bit_and set other_flags)) (record st { flags = set }) held
            (λ i ne. ap (digit i) cleared ∙ sym (set_nonblock st.flags i ∙ rw ne refl))))

  -- A socket that was blocking, with flags that an int holds, is after `clive_set_nonblocking` and
  -- `clive_set_blocking`, if both succeed, in the state that it was in, and so is every other socket.
  pub blocking-nonblocking :
      (k : Kernel) (fd : ℕ) (st : SocketState) (status status' : ℤ) (k' k'' : Kernel)
      → state k fd ≡ some st
      → bit_and st.flags nonblock ≡ 0
      → st.flags < 2 ^ 31
      → clive_set_nonblocking sockets k (pos fd) ≡ (status, k')
      → is_neg status ≡ false
      → clive_set_blocking sockets k' (pos fd) ≡ (status', k'')
      → is_neg status' ≡ false
      → SameSockets state k k''
  blocking-nonblocking k fd st status status' k' k'' e clear small once ok twice ok' s =
      let changed =
        became state k fd (record st { flags = bit_or st.flags nonblock }) (status, k')
          (subst (Becomes state k fd (record st { flags = bit_or st.flags nonblock })) once
            (set_nonblocking-Becomes k fd st e).0)
          ok in
      let back =
        became state k' fd st (status', k'')
          (subst (Becomes state k' fd st) twice
            (set_blocking-Becomes k' fd st clear small (changed fd ∙ rw (==_self fd) refl)))
          ok' in
      back s ∙ elim (Bool-cases (s == fd)) [
        | inl d ↦ let same : s ≡ fd = (==_iff s fd).0 d in rw d (sym (ap (state k) same ∙ e))
        | inr d ↦ rw d (changed s ∙ rw d refl)
      ]
