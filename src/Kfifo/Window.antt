-- ===== src/Kfifo/Window.antt =====
-- The bytes of a ring from an index on, going round at its size.
use mathlib.Core.Path.{ap₂}
use cliveserver.Base.{
  ℕ, zero, suc, ◌+◌, ◌%◌, ◌<◌, ◌≡◌, refl, ap, ◌∙◌, List, [], ◌∷◌, ◌++◌, length, get_or, arith,
}

module _ (size : ℕ) where
  unfoldable pub window : List ℕ → ℕ → ℕ → List ℕ
  window buf h zero = []
  window buf h (suc n) = get_or buf (h % size) 0 ∷ window buf (h + 1) n

  pub length-window : (buf : List ℕ) (h n : ℕ) → length (window buf h n) ≡ n
  unfolding window
  length-window buf h zero = refl
  length-window buf h (suc n) = ap suc (length-window buf (h + 1) n)

  pub window-append :
      (buf : List ℕ) (h m n : ℕ) → window buf h (m + n) ≡ window buf h m ++ window buf (h + m) n
  unfolding window
  window-append buf h zero n =
      ap₂ (λ g k. window buf g k) {x = h} {y = h + 0} (omega arith) (omega arith)
  window-append buf h (suc m) n =
      ap (window buf h) {x = suc m + n} {y = suc (m + n)} (omega arith)
      ∙ ap (λ r. get_or buf (h % size) 0 ∷ r)
          (window-append buf (h + 1) m n
            ∙ ap (λ k. window buf (h + 1) m ++ window buf k n) (omega arith))

  -- A window is any list that agrees with it byte by byte.
  pub window-eq :
      (buf : List ℕ) (h : ℕ) (xs : List ℕ)
      → ((i : ℕ) → i < length xs → get_or buf ((h + i) % size) 0 ≡ get_or xs i 0)
      → window buf h (length xs) ≡ xs
  unfolding window
  window-eq buf h [] same = refl
  window-eq buf h (x ∷ xs) same =
      ap₂ (λ b r. b ∷ r) (ap (λ k. get_or buf (k % size) 0) (omega arith) ∙ same 0 (omega arith))
        (window-eq buf (h + 1) xs λ i hi.
          ap (λ k. get_or buf (k % size) 0) {x = h + 1 + i} {y = h + suc i} (omega arith)
          ∙ same (suc i) (omega arith))

  pub window_ext :
      (buf buf' : List ℕ) (h h' n : ℕ)
      → ((i : ℕ) → i < n → get_or buf ((h + i) % size) 0 ≡ get_or buf' ((h' + i) % size) 0)
      → window buf h n ≡ window buf' h' n
  unfolding window
  window_ext buf buf' h h' zero same = refl
  window_ext buf buf' h h' (suc n) same =
      ap₂ (λ b r. b ∷ r)
        (ap (λ k. get_or buf (k % size) 0) {x = h} {y = h + 0} (omega arith)
          ∙ same 0 (omega arith)
          ∙ ap (λ k. get_or buf' (k % size) 0) {x = h' + 0} {y = h'} (omega arith))
        (window_ext buf buf' (h + 1) (h' + 1) n λ i hi.
          ap (λ k. get_or buf (k % size) 0) {x = h + 1 + i} {y = h + suc i} (omega arith)
          ∙ same (suc i) (omega arith)
          ∙ ap (λ k. get_or buf' (k % size) 0) {x = h' + suc i} {y = h' + 1 + i} (omega arith))
