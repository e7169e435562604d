-- ===== src/Base/Masks.antt =====
-- A mask and its complement, and the digits of a mask of one digit.
use Prim.Native.Nat.{bit_or}
use native.Mathlib.Nat.{pow-suc, mod-eq_of_lt}
use cliveserver.Base.{
  ℕ, zero, suc, ◌+◌, ◌-◌, ◌/◌, ◌^◌, ◌≤◌, ◌<◌, bit_and, ◌≡◌, refl, sym, ap, ◌∙◌, arith, ◌==◌,
  if◌then◌else◌,
}
use cliveserver.Base.Bits.{bit_and-step, bit_and-mask}
use cliveserver.Base.Digits.{
  digit, digit-bit_and, digit-bit_or, digit-zero, digit_ext, disjoint, bit_or-step,
}

pub digit-pow : (i k : ℕ) → digit i (2 ^ k) ≡ (if i == k then 1 else 0)
digit-pow zero zero = refl
digit-pow zero (suc k) = ground (arith, pow-suc 2 k)
digit-pow (suc i) zero = ground (arith, digit-zero i)
digit-pow (suc i) (suc k) =
    ap (digit i) {x = 2 ^ suc k / 2} {y = 2 ^ k} (omega (arith, pow-suc 2 k))
    ∙ ground (arith, digit-pow i k)

-- Disjoint numbers are put together by a sum.
disjoint_sums : (n a b : ℕ) → a ≤ n → b ≤ n → bit_and a b ≡ 0 → bit_or a b ≡ a + b
disjoint_sums zero a b p q e =
    let ea : a ≡ 0 = omega arith in let eb : b ≡ 0 = omega arith in rw (ea, eb) refl
disjoint_sums (suc n) a b p q e = omega (
  arith,
  bit_and-step a b,
  bit_or-step a b,
  e,
  disjoint_sums n (a / 2) (b / 2) (omega arith) (omega arith) (omega (arith, bit_and-step a b, e)),
)

disjoint_sum : (a b : ℕ) → bit_and a b ≡ 0 → bit_or a b ≡ a + b
disjoint_sum a b e = disjoint_sums (a + b) a b (omega arith) (omega arith) e

module _ (w a m n : ℕ) (e : bit_and m n ≡ 0) (whole : m + n ≡ 2 ^ w - 1) (small : a < 2 ^ w) where
  apart : bit_and (bit_and a m) (bit_and a n) ≡ 0
  apart = digit_ext _ _ λ i. omega (
    arith,
    digit-bit_and i (bit_and a m) (bit_and a n),
    digit-bit_and i a m,
    digit-bit_and i a n,
    disjoint m n i e,
    digit-zero i,
  )

  together : bit_or (bit_and a m) (bit_and a n) ≡ bit_and a (bit_or m n)
  together = digit_ext _ _ λ i. omega (
    arith,
    digit-bit_or i (bit_and a m) (bit_and a n),
    digit-bit_and i a m,
    digit-bit_and i a n,
    digit-bit_and i a (bit_or m n),
    digit-bit_or i m n,
  )

  -- Taking a number of `w` digits apart by a mask and its complement.
  pub mask_off : bit_and a m + bit_and a n ≡ a
  mask_off =
      sym (disjoint_sum (bit_and a m) (bit_and a n) apart)
      ∙ together
      ∙ ap (bit_and a) (disjoint_sum m n e ∙ whole)
      ∙ bit_and-mask w a
      ∙ mod-eq_of_lt small

  -- What `|` sets, `&` with the complement clears again.
  pub mask_off_set : bit_and a n ≡ 0 → bit_and (bit_or a n) m ≡ a
  mask_off_set clear =
      let same : bit_and (bit_or a n) m ≡ bit_and a m = digit_ext _ _ λ i. omega (
        arith,
        digit-bit_and i (bit_or a n) m,
        digit-bit_or i a n,
        digit-bit_and i a m,
        disjoint m n i e,
        digit-zero i,
      ) in
      omega (arith, same, mask_off, clear)
