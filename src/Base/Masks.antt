-- ===== src/Base/Masks.antt =====
-- Masks: a conjunction with a word of leading ones, as arithmetic.
use Prim.Native.Nat.{
  ℕ, zero, suc, ◌+◌, ◌-◌, ◌*◌, ◌/◌, ◌%◌, ◌^◌, ◌≤◌, ◌<◌, min, bit_and, bit_and-bitwise,
}
use mathlib.Core.Path.{◌≡◌, ap, ◌∙◌}
use native.Mathlib.Omega.{arith}
use native.Mathlib.Nat.{two-pow-succ, div-lt_iff_lt-mul, one-le-pow}
use package.lib_dwm.Base.Digits.{bitwise_step}
use package.lib_dwm.Base.Bits.{pow-add, div-pow-suc, digit}

none-bit_and : (y : ℕ) → bit_and 0 y ≡ 0
none-bit_and y = bit_and-bitwise 0 y

-- The lowest digit of a conjunction, and the others.
pub bit_and_step : (x y : ℕ) → bit_and x y ≡ bit_and (x / 2) (y / 2) * 2 + min (x % 2) (y % 2)
bit_and_step zero y = omega (arith, none-bit_and y, none-bit_and (y / 2))
bit_and_step (suc x) y =
    omega (
      arith,
      bit_and-bitwise (suc x) y ∙ bitwise_step _ min x y,
      bit_and-bitwise (suc x / 2) (y / 2),
    )

bit_and_zero_within : (bound x : ℕ) → x ≤ bound → bit_and x 0 ≡ 0
bit_and_zero_within zero x h = rw (let e : x ≡ 0 = omega arith in e) (none-bit_and 0)
bit_and_zero_within (suc bound) x h =
    omega (arith, bit_and_step x 0, bit_and_zero_within bound (x / 2) (omega arith))

pub bit_and-zero : (x : ℕ) → bit_and x 0 ≡ 0
bit_and-zero x = bit_and_zero_within x x (omega arith)

bit_and_double : (a k : ℕ) → bit_and a (2 * k) ≡ bit_and (a / 2) k * 2
bit_and_double a k =
    bit_and_step a (2 * k)
    ∙ omega (arith, ap (bit_and (a / 2)) (let e : 2 * k / 2 ≡ k = omega arith in e))

bit_and_odd : (a k : ℕ) → bit_and a (2 * k + 1) ≡ bit_and (a / 2) k * 2 + a % 2
bit_and_odd a k =
    bit_and_step a (2 * k + 1)
    ∙ omega (arith, ap (bit_and (a / 2)) (let e : (2 * k + 1) / 2 ≡ k = omega arith in e))

bit_and_shifted : (d a m : ℕ) → bit_and a (m * 2 ^ d) ≡ bit_and (a / 2 ^ d) m * 2 ^ d
bit_and_shifted zero a m = omega (
  arith,
  ap (bit_and a) (let e : m * 1 ≡ m = omega arith in e),
  ap (λ (t : ℕ). bit_and t m) (let e : a / 1 ≡ a = omega arith in e),
)
bit_and_shifted (suc d) a m =
    ap (bit_and a) (omega (arith, ap (λ (t : ℕ). m * t) (two-pow-succ d)))
    ∙ bit_and_double a (m * 2 ^ d)
    ∙ omega (
      arith,
      bit_and_shifted d (a / 2) m,
      ap (λ (t : ℕ). bit_and t m * 2 ^ d) (div-pow-suc a d),
      ap (λ (t : ℕ). bit_and (a / 2 ^ suc d) m * t) (two-pow-succ d),
    )

bit_and_ones : (m a : ℕ) → a < 2 ^ m → bit_and a (2 ^ m - 1) ≡ a
bit_and_ones zero a h = bit_and-zero a ∙ omega arith
bit_and_ones (suc m) a h =
    ap (bit_and a) (omega (arith, two-pow-succ m, one-le-pow m 2 (omega arith)))
    ∙ bit_and_odd a (2 ^ m - 1)
    ∙ omega (arith, bit_and_ones m (a / 2) (omega (arith, two-pow-succ m)))

-- Masking a word of m + d bits by m leading ones clears its d lowest bits.
pub bit_and_leading :
    (m d a : ℕ) → a < 2 ^ (m + d) → bit_and a ((2 ^ m - 1) * 2 ^ d) ≡ a / 2 ^ d * 2 ^ d
bit_and_leading m d a h =
    bit_and_shifted d a (2 ^ m - 1)
    ∙ ap (λ (t : ℕ). t * 2 ^ d)
        (bit_and_ones m (a / 2 ^ d)
          ((div-lt_iff_lt-mul (one-le-pow d 2 (omega arith))).1 (rw (← pow-add m d) h)))

bit_and_last : (a : ℕ) → bit_and a 1 ≡ a % 2
bit_and_last a = omega (arith, bit_and_step a 1, bit_and-zero (a / 2))

-- A mask of one bit.
pub bit_and_one_bit : (a k : ℕ) → bit_and a (2 ^ k) ≡ digit a k * 2 ^ k
bit_and_one_bit a k =
    ap (bit_and a) (let e : 2 ^ k ≡ 1 * 2 ^ k = omega arith in e)
    ∙ bit_and_shifted k a 1
    ∙ ap (λ (t : ℕ). t * 2 ^ k) (bit_and_last (a / 2 ^ k))
