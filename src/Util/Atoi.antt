-- ===== src/Util/Atoi.antt =====
-- `_clive_atoi` on decimal digits, and the ports that the server reads with it.
use native.Mathlib.Nat.{pow-suc, one-le-pow, mod-eq_of_lt}
use cliveserver.Base.{
  ℕ, zero, suc, ◌+◌, ◌-◌, ◌*◌, ◌^◌, ◌≤◌, ◌<◌, ◌≡◌, refl, sym, leb, ◌∙◌, true, false, List, [], ◌∷◌,
  ◌++◌, arith, length, suc-ne-zero,
}
use cliveserver.Base.Int.{pos}
use cliveserver.Util.{is_digit, digits_loop, clive_atoi}

-- the number that a list of decimal digits writes, most significant first
unfoldable pub value_of : List ℕ → ℕ
value_of [] = 0
value_of (d ∷ ds) = d * 10 ^ length ds + value_of ds

-- decimal digits, and their characters
abbrev pub AreDigits : List ℕ → Type 0
AreDigits [] = Unit {0}
AreDigits (d ∷ ds) = (d ≤ 9) × AreDigits ds

abbrev pub written : List ℕ → List ℕ
written [] = []
written (d ∷ ds) = (b'0' + d) ∷ written ds

-- what follows does not go on with a digit
abbrev pub Stops : List ℕ → Type 0
Stops [] = Unit {0}
Stops (c ∷ rest) = is_digit c ≡ false

pub value_of-lt : (ds : List ℕ) → AreDigits ds → value_of ds < 10 ^ length ds
unfolding value_of
value_of-lt [] h = omega arith
value_of-lt (d ∷ ds) h = rw (pow-suc 10 (length ds)) (grind (arith, value_of-lt ds h.1))

le_mul : (a p : ℕ) → 1 ≤ p → a ≤ a * p
le_mul a zero h = absurd (omega arith)
le_mul a (suc p) h = omega arith

digits_loop-written :
    (ds rest : List ℕ) (n acc : ℕ)
    → AreDigits ds
    → Stops rest
    → length ds ≤ n
    → acc * 10 ^ length ds + value_of ds < 2 ^ 32
    → digits_loop n (written ds ++ rest) acc ≡ acc * 10 ^ length ds + value_of ds
unfolding digits_loop value_of
digits_loop-written [] [] zero acc h s le small = omega arith
digits_loop-written [] [] (suc n) acc h s le small = omega arith
digits_loop-written [] (c ∷ rest) zero acc h s le small = omega arith
digits_loop-written [] (c ∷ rest) (suc n) acc h s le small = rw s (omega arith)
digits_loop-written (d ∷ ds) rest zero acc h s le small = absurd (omega arith)
digits_loop-written (d ∷ ds) rest (suc n) acc h s le small =
    let digit : is_digit (b'0' + d) ≡ true = ground (arith, h.0) in
    let e : b'0' + d - b'0' ≡ d = omega arith in
    let p = 10 ^ length ds in
    let same : acc * (p * 10) + (d * p + value_of ds) ≡ (acc * 10 + d) * p + value_of ds =
      grind arith in
    let fits : (acc * 10 + d) * p + value_of ds < 2 ^ 32 =
      omega (arith, rw (pow-suc 10 (length ds)) at small, same) in
    let step : acc * 10 + d < 2 ^ 32 =
      omega (arith, fits, le_mul (acc * 10 + d) p (one-le-pow (length ds) 10 (omega arith))) in
    rw
      (
        digit,
        e,
        mod-eq_of_lt step,
        digits_loop-written ds rest n (acc * 10 + d) h.1 s (omega arith) fits,
        pow-suc 10 (length ds),
      )
      (sym same)

-- `clive_atoi` reads a run of at most `n` decimal digits, `n` positive, that writes a number an `int`
-- holds, as that number, whatever follows, if a further digit does not.
pub clive_atoi-written :
    (ds rest : List ℕ) (n : ℕ)
    → AreDigits ds
    → Stops rest
    → length ds ≤ n
    → 0 < n
    → value_of ds < 2 ^ 31
    → clive_atoi (written ds ++ rest) n ≡ pos (value_of ds)
unfolding clive_atoi
clive_atoi-written ds rest (suc n) h s le p small =
    let read : digits_loop (suc n) (written ds ++ rest) 0 ≡ value_of ds =
      digits_loop-written ds rest (suc n) 0 h s le (omega (arith, small)) ∙ omega arith in
    let nonneg : leb (2 ^ 31) (value_of ds) ≡ false = ground (arith, small) in
    rw (suc-ne-zero n, read, nonneg) refl
clive_atoi-written ds rest zero h s le p small = absurd (omega arith)
