-- ===== src/Kfifo/Word.antt =====
-- `uint32_t` arithmetic, as the ring's offsets use it.
use native.Mathlib.Nat.{
  pow-suc, mod-eq_of_lt, mod-lt, mod-add-mod, mod-eq-sub-mod, add-mod_right, add-mul-mod_self_right,
}
use native.Mathlib.Decide.{dec_lt}
use cliveserver.Base.{
  ℕ, zero, suc, ◌+◌, ◌-◌, ◌*◌, ◌/◌, ◌%◌, ◌^◌, ◌≤◌, ◌<◌, ◌≡◌, sym, ap, ◌∙◌, ◌⊎◌, inl, inr, arith,
}

unfoldable pub add32 : ℕ → ℕ → ℕ
add32 a b = (a + b) % 2 ^ 32

-- `-` on ℕ stops at 0, hence the modulus
unfoldable pub sub32 : ℕ → ℕ → ℕ
sub32 a b = (a + 2 ^ 32 - b) % 2 ^ 32

-- A smaller power of two divides a larger one.
pub pow-factor : (k j : ℕ) → (q : ℕ) × (2 ^ (k + j) ≡ q * 2 ^ k)
pow-factor k zero = (1, ap (λ j. 2 ^ j) {x = k + 0} {y = k} (omega arith) ∙ omega arith)
pow-factor k (suc j) =
    let (q, e) = pow-factor k j in
    (
      q * 2,
      ap (λ i. 2 ^ i) {x = k + suc j} {y = suc (k + j)} (omega arith)
          ∙ pow-suc 2 (k + j)
          ∙ omega (arith, ap (λ (t : ℕ). t * 2) e),
    )

-- A remainder by 2 ^ 32 keeps the remainder by a smaller power.
pub mod-word : (k a : ℕ) → k ≤ 32 → a % 2 ^ 32 % 2 ^ k ≡ a % 2 ^ k
mod-word k a h =
    let (q, e) = pow-factor k (32 - k) in
    let whole : 2 ^ 32 ≡ q * 2 ^ k =
      ap (λ i. 2 ^ i) {x = 32} {y = k + (32 - k)} (omega arith) ∙ e in
    rw (← (add-mul-mod_self_right (a % 2 ^ 32) (a / 2 ^ 32 * q) (2 ^ k)))
      (ap (λ t. t % 2 ^ k) (omega (arith, ap (λ (t : ℕ). a / 2 ^ 32 * t) whole)))

-- An index less than one round ahead goes round at most once.
pub add-mod-cases :
    (a i s : ℕ)
    → i < s
    → (((a + i) % s ≡ a % s + i) × (a % s + i < s))
      ⊎ (((a + i) % s + s ≡ a % s + i) × (s ≤ a % s + i))
add-mod-cases a i s h = elim (dec_lt (a % s + i) s) [
  | yes p ↦ inl (omega (arith, mod-add-mod a s i, mod-eq_of_lt p), p)
  | no p ↦ inr (
    omega (
      arith,
      mod-add-mod a s i,
      mod-eq-sub-mod {n = a % s + i} {m = s} (omega arith),
      mod-eq_of_lt {n = a % s + i - s} {m = s} (omega (arith, mod-lt a {m = s} (omega arith))),
    ),
    omega arith,
  )
]

-- A whole round at most lies between an index and the one `d` further on.
pub add-mod-ahead :
    (a d s : ℕ) → 0 < s → d ≤ s → (a % s + d ≡ (a + d) % s) ⊎ (a % s + d ≡ (a + d) % s + s)
add-mod-ahead a d s h le = elim (dec_lt d s) [
  | yes p ↦ elim (add-mod-cases a d s p) [ inl (e, _) ↦ inl (sym e) | inr (e, _) ↦ inr (sym e) ]
  | no p ↦ let e : d ≡ s = omega arith in inr (rw e (omega (arith, add-mod_right a s)))
]
