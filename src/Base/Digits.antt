-- ===== src/Base/Digits.antt =====
-- The binary digits of `x & y` and `x | y`, and fields under disjoint masks.
use Prim.Native.Nat.{digits, bit_or, bit_or-bitwise}
use cliveserver.Base.{
  ℕ, zero, suc, ◌+◌, ◌*◌, ◌/◌, ◌%◌, ◌≤◌, min, max, bit_and, ◌≡◌, refl, sym, ap, ◌∙◌, arith,
}
use cliveserver.Base.Bits.{bit_and-step}

-- the digit at a place, counted from the lowest
abbrev pub digit : ℕ → ℕ → ℕ
digit zero a = a % 2
digit (suc i) a = digit i (a / 2)

pub digit-le : (i a : ℕ) → digit i a ≤ 1
digit-le zero a = omega arith
digit-le (suc i) a = digit-le i (a / 2)

abbrev either : ℕ → ℕ → ℕ → ℕ
either n a b = digits (λ b. b) max n a b

either_fuel : (n m a b : ℕ) → a ≤ n → a ≤ m → either n a b ≡ either m a b
either_fuel zero zero a b p q = refl
either_fuel zero (suc m) zero b p q = refl
either_fuel zero (suc m) (suc a) b p q = absurd (omega arith)
either_fuel (suc n) zero zero b p q = refl
either_fuel (suc n) zero (suc a) b p q = absurd (omega arith)
either_fuel (suc n) (suc m) zero b p q = refl
either_fuel (suc n) (suc m) (suc a) b p q =
    omega (arith, either_fuel n m (suc a / 2) (b / 2) (omega arith) (omega arith))

pub bit_or-step : (a b : ℕ) → bit_or a b ≡ bit_or (a / 2) (b / 2) * 2 + max (a % 2) (b % 2)
bit_or-step zero b = omega (arith, bit_or-bitwise 0 b, bit_or-bitwise 0 (b / 2))
bit_or-step (suc a) b = omega (
  arith,
  bit_or-bitwise (suc a) b,
  bit_or-bitwise (suc a / 2) (b / 2),
  either_fuel a (suc a / 2) (suc a / 2) (b / 2) (omega arith) (omega arith),
)

pub digit-bit_and : (i a b : ℕ) → digit i (bit_and a b) ≡ min (digit i a) (digit i b)
digit-bit_and zero a b = omega (arith, bit_and-step a b)
digit-bit_and (suc i) a b =
    ap (digit i) {x = bit_and a b / 2} {y = bit_and (a / 2) (b / 2)}
      (omega (arith, bit_and-step a b))
    ∙ digit-bit_and i (a / 2) (b / 2)

pub digit-bit_or : (i a b : ℕ) → digit i (bit_or a b) ≡ max (digit i a) (digit i b)
digit-bit_or zero a b = omega (arith, bit_or-step a b)
digit-bit_or (suc i) a b =
    ap (digit i) {x = bit_or a b / 2} {y = bit_or (a / 2) (b / 2)} (omega (arith, bit_or-step a b))
    ∙ digit-bit_or i (a / 2) (b / 2)

-- Numbers with the same digits are the same.
digits_ext : (n a b : ℕ) → a ≤ n → b ≤ n → ((i : ℕ) → digit i a ≡ digit i b) → a ≡ b
digits_ext zero a b p q h = omega arith
digits_ext (suc n) a b p q h =
    omega (arith, h 0, digits_ext n (a / 2) (b / 2) (omega arith) (omega arith) (λ i. h (suc i)))

pub digit_ext : (a b : ℕ) → ((i : ℕ) → digit i a ≡ digit i b) → a ≡ b
digit_ext a b h = digits_ext (a + b) a b (omega arith) (omega arith) h

pub disjoint : (m n i : ℕ) → bit_and m n ≡ 0 → min (digit i m) (digit i n) ≡ digit i 0
disjoint m n i e = sym (digit-bit_and i m n) ∙ ap (digit i) e

pub digit-zero : (i : ℕ) → digit i 0 ≡ 0
digit-zero zero = refl
digit-zero (suc i) = digit-zero i

-- `(a & m) | (c & n)`, for disjoint masks, has `c` in the field `n` ...
pub field_set :
    (a m c n : ℕ) → bit_and m n ≡ 0 → bit_and (bit_or (bit_and a m) (bit_and c n)) n ≡ bit_and c n
field_set a m c n e = digit_ext _ _ λ i. omega (
  arith,
  digit-bit_and i (bit_or (bit_and a m) (bit_and c n)) n,
  digit-bit_or i (bit_and a m) (bit_and c n),
  digit-bit_and i a m,
  digit-bit_and i c n,
  disjoint m n i e,
  digit-zero i,
)

-- ... and keeps those of `a` in any field `k` of `m`.
pub field_kept :
    (a m c n k : ℕ)
    → bit_and k n ≡ 0
    → bit_and k m ≡ k
    → bit_and (bit_or (bit_and a m) (bit_and c n)) k ≡ bit_and a k
field_kept a m c n k e e' = digit_ext _ _ λ i. omega (
  arith,
  digit-bit_and i (bit_or (bit_and a m) (bit_and c n)) k,
  digit-bit_or i (bit_and a m) (bit_and c n),
  digit-bit_and i a m,
  digit-bit_and i c n,
  digit-bit_and i a k,
  digit-bit_and i k m,
  ap (digit i) e',
  disjoint k n i e,
  digit-zero i,
)
