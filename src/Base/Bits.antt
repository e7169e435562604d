-- ===== src/Base/Bits.antt =====
-- `x & (2 ^ k - 1)` is `x % 2 ^ k`, at every width: the masks by which the ring buffer and the
-- transport-stream headers select low bits.
use Prim.Native.Nat.{digits, bit_and-bitwise}
use native.Mathlib.Nat.{
  pow-suc, one-le-pow, div-add-mod, mod-lt, add-mul-mod_self_left, mod-eq_of_lt, div-div-eq-div-mul,
  mul_comm, mul_assoc,
}
use cliveserver.Base.{
  ℕ, zero, suc, ◌+◌, ◌-◌, ◌*◌, ◌/◌, ◌%◌, ◌^◌, ◌≤◌, ◌<◌, min, bit_and, ◌≡◌, refl, ap, ◌∙◌, arith,
}

-- the recursion on the digits that the native operation stands for
abbrev digitwise : ℕ → ℕ → ℕ → ℕ
digitwise n a b = digits (λ b. zero) min n a b

digitwise_fuel : (n m a b : ℕ) → a ≤ n → a ≤ m → digitwise n a b ≡ digitwise m a b
digitwise_fuel zero zero a b p q = refl
digitwise_fuel zero (suc m) zero b p q = refl
digitwise_fuel zero (suc m) (suc a) b p q = absurd (omega arith)
digitwise_fuel (suc n) zero zero b p q = refl
digitwise_fuel (suc n) zero (suc a) b p q = absurd (omega arith)
digitwise_fuel (suc n) (suc m) zero b p q = refl
digitwise_fuel (suc n) (suc m) (suc a) b p q =
    omega (arith, digitwise_fuel n m (suc a / 2) (b / 2) (omega arith) (omega arith))

pub bit_and-step : (a b : ℕ) → bit_and a b ≡ bit_and (a / 2) (b / 2) * 2 + min (a % 2) (b % 2)
bit_and-step zero b = omega (arith, bit_and-bitwise 0 b, bit_and-bitwise 0 (b / 2))
bit_and-step (suc a) b = omega (
  arith,
  bit_and-bitwise (suc a) b,
  bit_and-bitwise (suc a / 2) (b / 2),
  digitwise_fuel a (suc a / 2) (suc a / 2) (b / 2) (omega arith) (omega arith),
)

bit_and-zero_below : (n a : ℕ) → a ≤ n → bit_and a 0 ≡ 0
bit_and-zero_below zero zero h = refl
bit_and-zero_below zero (suc a) h = absurd (omega arith)
bit_and-zero_below (suc n) zero h = refl
bit_and-zero_below (suc n) (suc a) h =
    omega (arith, bit_and-step (suc a) 0, bit_and-zero_below n (suc a / 2) (omega arith))

-- the lowest digit of a remainder by an even number
mod_double : (a p : ℕ) → 0 < p → a % (p * 2) ≡ a / 2 % p * 2 + a % 2
mod_double a p h = grind (arith, div-add-mod, mod-lt, split, add-mul-mod_self_left, mod-eq_of_lt)
  where
    split : a ≡ a / 2 % p * 2 + a % 2 + p * 2 * (a / 2 / p)
    split = omega (arith, ap (λ (t : ℕ). t * 2) (div-add-mod (a / 2) p))

-- The low `k` bits: one digit of the mask for each step of the width.
pub bit_and-mask : (k a : ℕ) → bit_and a (2 ^ k - 1) ≡ a % 2 ^ k
bit_and-mask zero a = omega (arith, bit_and-zero_below a a (omega arith))
bit_and-mask (suc k) a =
    let p : ℕ = 2 ^ k in
    let pos : 0 < 2 ^ k = one-le-pow k 2 (omega arith) in
    rw (pow-suc 2 k) (
      omega (
        arith,
        pos,
        mod_double a (2 ^ k) pos,
        bit_and-step a (2 ^ k * 2 - 1),
        bit_and-mask k (a / 2),
        ap (bit_and (a / 2)) {x = (2 ^ k * 2 - 1) / 2} {y = 2 ^ k - 1} (omega (arith, pos)),
      ))

-- A mask that is shifted selects the shifted bits.
pub bit_and-shift : (k a m : ℕ) → bit_and a (m * 2 ^ k) ≡ bit_and (a / 2 ^ k) m * 2 ^ k
bit_and-shift zero a m =
    ap (bit_and a) {x = m * 2 ^ 0} {y = m} (omega arith)
    ∙ ap (λ b. bit_and b m) {x = a} {y = a / 2 ^ 0} (omega arith)
    ∙ omega arith
bit_and-shift (suc k) a m =
    let t : m * 2 ^ suc k ≡ m * 2 ^ k * 2 =
      ap (λ q. m * q) (pow-suc 2 k) ∙ grind (arith, mul_assoc m (2 ^ k) 2) in
    let d : a / 2 / 2 ^ k ≡ a / 2 ^ suc k =
      div-div-eq-div-mul a 2 (2 ^ k)
      ∙ ap (λ q. a / q) (mul_comm 2 (2 ^ k) ∙ grind (arith, pow-suc 2 k)) in
    let out : bit_and (a / 2 ^ suc k) m * 2 ^ suc k ≡ bit_and (a / 2 ^ suc k) m * 2 ^ k * 2 =
      ap (λ q. bit_and (a / 2 ^ suc k) m * q) (pow-suc 2 k)
      ∙ grind (arith, mul_assoc (bit_and (a / 2 ^ suc k) m) (2 ^ k) 2) in
    omega (
      arith,
      out,
      ap (bit_and a) t,
      bit_and-step a (m * 2 ^ k * 2),
      ap (bit_and (a / 2)) {x = m * 2 ^ k * 2 / 2} {y = m * 2 ^ k} (omega arith),
      bit_and-shift k (a / 2) m,
      ap (λ b. bit_and b m * 2 ^ k) d,
    )
