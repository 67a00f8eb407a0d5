-- ===== src/Base/Digits.antt =====
-- The native bit operations, one binary digit at a time: for every operation of that form at once.
use Prim.Native.Nat.{ℕ, zero, suc, ◌+◌, ◌*◌, ◌/◌, ◌%◌, ◌≤◌, digits, bitwise}
use mathlib.Core.Path.{◌≡◌, refl, sym, ap, ◌∙◌}
use native.Mathlib.Omega.{arith}

module _ (rest : ℕ → ℕ) (op : ℕ → ℕ → ℕ) where
  -- As many steps as the number has digits give what any larger count gives.
  settled :
      (bound steps x y : ℕ)
      → steps ≤ bound
      → x ≤ steps
      → digits rest op steps x y ≡ bitwise rest op x y
  settled bound zero zero y within enough = refl
  settled bound (suc steps) zero y within enough = refl
  settled bound zero (suc x) y within enough = absurd (omega arith)
  settled zero (suc steps) (suc x) y within enough = absurd (omega arith)
  settled (suc bound) (suc steps) (suc x) y within enough =
      ap (λ (t : ℕ). t * 2 + op (suc x % 2) (y % 2))
        (settled bound steps (suc x / 2) (y / 2) (omega arith) (omega arith)
          ∙ sym (settled bound x (suc x / 2) (y / 2) (omega arith) (omega arith)))

  pub bitwise_step :
      (x y : ℕ)
      → bitwise rest op (suc x) y ≡ bitwise rest op (suc x / 2) (y / 2) * 2 + op (suc x % 2) (y % 2)
  bitwise_step x y =
      ap (λ (t : ℕ). t * 2 + op (suc x % 2) (y % 2))
        (settled x x (suc x / 2) (y / 2) (omega arith) (omega arith))
