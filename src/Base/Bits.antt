-- ===== src/Base/Bits.antt =====
-- Digit laws of the native bit operations at variables, and the leading digits of a word.
use Prim.Native.Nat.{
  ℕ, zero, suc, ◌+◌, ◌-◌, ◌*◌, ◌/◌, ◌%◌, ◌^◌, ◌≤◌, ◌<◌, bit_xor, bit_xor-bitwise, differ,
}
use mathlib.Core.Path.{◌≡◌, sym, ap, ap₂, ◌∙◌}
use mathlib.Core.Logic.{◌↔◌, inl, inr}
use Prim.Native.Nat.add
use native.Mathlib.Omega.{arith}
use native.Mathlib.Nat.{two-pow-succ, div-div-eq-div-mul, pow-le-pow_right, div-eq_of_lt}
use package.lib_dwm.Base.Digits.{bitwise_step}
use package.lib_dwm.Base.Tests.{ltb, if◌then◌else◌, Bool-cases, ltb→lt, ltb-false}

zero-bit_xor : (b : ℕ) → bit_xor 0 b ≡ b
zero-bit_xor b = bit_xor-bitwise 0 b

differ-sub : (a b : ℕ) → differ a b ≡ (a - b) + (b - a)
differ-sub zero b = omega arith
differ-sub (suc a) zero = omega arith
differ-sub (suc a) (suc b) = omega (arith, differ-sub a b)

-- The lowest digit of an exclusive or, and the others.
pub bit_xor_step :
    (a b : ℕ) → bit_xor a b ≡ bit_xor (a / 2) (b / 2) * 2 + ((a % 2 - b % 2) + (b % 2 - a % 2))
bit_xor_step zero b = omega (arith, zero-bit_xor b, zero-bit_xor (b / 2))
bit_xor_step (suc a) b = omega (
  arith,
  differ-sub (suc a % 2) (b % 2),
  bit_xor-bitwise (suc a) b ∙ bitwise_step _ differ a b,
  bit_xor-bitwise (suc a / 2) (b / 2),
)

bit_xor_zero_fuel : (n a b : ℕ) → a ≤ n → bit_xor a b ≡ 0 → a ≡ b
bit_xor_zero_fuel n zero b h e = omega (arith, zero-bit_xor b)
bit_xor_zero_fuel zero (suc a) b h e = absurd (omega arith)
bit_xor_zero_fuel (suc n) (suc a) b h e = omega (
  arith,
  bit_xor_step (suc a) b,
  bit_xor_zero_fuel n (suc a / 2) (b / 2) (omega arith) (omega (arith, bit_xor_step (suc a) b)),
)

bit_xor_self_fuel : (n a : ℕ) → a ≤ n → bit_xor a a ≡ 0
bit_xor_self_fuel n zero h = zero-bit_xor 0
bit_xor_self_fuel zero (suc a) h = absurd (omega arith)
bit_xor_self_fuel (suc n) (suc a) h =
    omega (arith, bit_xor_step (suc a) (suc a), bit_xor_self_fuel n (suc a / 2) (omega arith))

pub bit_xor-eq-zero_iff : (a b : ℕ) → (bit_xor a b ≡ 0) ↔ (a ≡ b)
bit_xor-eq-zero_iff a b =
    (bit_xor_zero_fuel a a b (omega arith), λ e. rw e (bit_xor_self_fuel b b (omega arith)))

pub div-pow-suc : (a k : ℕ) → a / 2 / 2 ^ k ≡ a / 2 ^ suc k
div-pow-suc a k =
    div-div-eq-div-mul a 2 (2 ^ k) ∙ ap (λ (t : ℕ). a / t) (omega (arith, two-pow-succ k))

-- The exclusive or is below 2 ^ k just if the words agree above their k lowest bits.
pub bit_xor-lt_iff : (k a b : ℕ) → (bit_xor a b < 2 ^ k) ↔ (a / 2 ^ k ≡ b / 2 ^ k)
bit_xor-lt_iff zero a b = (
  λ h. omega (arith, (bit_xor-eq-zero_iff a b).0 (omega arith)),
  λ h. omega (arith, (bit_xor-eq-zero_iff a b).1 (omega arith)),
)
bit_xor-lt_iff (suc k) a b =
    let (to, from) = bit_xor-lt_iff k (a / 2) (b / 2) in
    (
      λ h.
          sym (div-pow-suc a k)
          ∙ to (omega (arith, two-pow-succ k, bit_xor_step a b))
          ∙ div-pow-suc b k,
      λ h. omega (
        arith,
        two-pow-succ k,
        bit_xor_step a b,
        from (div-pow-suc a k ∙ h ∙ sym (div-pow-suc b k)),
      ),
    )

-- std::countl_zero of a word of w bits.
unfoldable pub countl_zero : ℕ → ℕ → ℕ
countl_zero zero x = 0
countl_zero (suc w) x = if ltb x (2 ^ w) then suc (countl_zero w x) else 0

pub countl_zero-le : (w x : ℕ) → countl_zero w x ≤ w
unfolding countl_zero
countl_zero-le zero x = omega arith
countl_zero-le (suc w) x = ground (arith, countl_zero-le w x)

-- At least m leading zeros of m + d bits: a number below 2 ^ d.
pub le-countl_zero_iff : (w m d x : ℕ) → w ≡ m + d → x < 2 ^ w → (m ≤ countl_zero w x) ↔ (x < 2 ^ d)
unfolding countl_zero
le-countl_zero_iff w zero d x e hx =
    (λ _. rw (let e' : d ≡ w = omega arith in e') hx, λ _. omega arith)
le-countl_zero_iff zero (suc m) d x e hx = absurd (omega arith)
le-countl_zero_iff (suc w) (suc m) d x e hx = elim (Bool-cases (ltb x (2 ^ w))) [
  | inl small ↦
      let (to, from) = le-countl_zero_iff w m d x (omega arith) (ltb→lt _ _ small) in
      rw small (λ h. to (omega arith), λ h. omega (arith, from h))
  | inr big ↦ rw big (
    λ h. absurd (omega arith),
    λ h. absurd (
        ltb-false _ _ big
          (omega (arith, h, pow-le-pow_right {n = 2} (omega arith) {i = d} {j = w} (omega arith)))),
  )
]

pub pow-add : (m n : ℕ) → 2 ^ (m + n) ≡ 2 ^ m * 2 ^ n
pow-add zero n = rw add.zero (omega arith)
pow-add (suc m) n = omega (
  arith,
  ap (λ (t : ℕ). 2 ^ t) (let e : suc m + n ≡ suc (m + n) = omega arith in e),
  two-pow-succ (m + n),
  ap (λ (t : ℕ). t * 2 ^ n) (two-pow-succ m),
  pow-add m n,
)

pub div-pow-add : (a d j : ℕ) → a / 2 ^ d / 2 ^ j ≡ a / 2 ^ (d + j)
div-pow-add a d j = rw pow-add (div-div-eq-div-mul a (2 ^ d) (2 ^ j))

-- One binary digit, counted from the lowest.
abbrev pub digit : ℕ → ℕ → ℕ
digit a k = a / 2 ^ k % 2

div-digit : (a d : ℕ) → a / 2 ^ d ≡ a / 2 ^ suc d * 2 + digit a d
div-digit a d =
    omega (
      arith,
      div-pow-add a d 1,
      ap (λ (t : ℕ). a / 2 ^ t) (let e : d + 1 ≡ suc d = omega arith in e),
    )

digits_agree :
    (m d a b : ℕ)
    → a / 2 ^ (d + m) ≡ b / 2 ^ (d + m)
    → ((j : ℕ) → j < m → digit a (d + j) ≡ digit b (d + j))
    → a / 2 ^ d ≡ b / 2 ^ d
digits_agree zero d a b e h = rw (let z : d + 0 ≡ d = omega arith in z) at e
digits_agree (suc m) d a b e h =
    div-digit a d
    ∙ ap₂ (λ (s t : ℕ). s * 2 + t)
        (digits_agree m (suc d) a b (rw (let z : suc d + m ≡ d + suc m = omega arith in z) e)
          λ j lt. rw (let z : suc d + j ≡ d + suc j = omega arith in z) (h (suc j) (omega arith)))
        (rw (let z : d + 0 ≡ d = omega arith in z) at (h 0 (omega arith)))
    ∙ sym (div-digit b d)

-- Words of w bits agree above their d lowest bits just if their w - d leading bits agree.
pub leading_agree_iff :
    (w m d a b : ℕ)
    → w ≡ m + d
    → a < 2 ^ w
    → b < 2 ^ w
    → (a / 2 ^ d ≡ b / 2 ^ d) ↔ ((i : ℕ) → i < m → digit a (w - 1 - i) ≡ digit b (w - 1 - i))
leading_agree_iff w m d a b e ha hb = (
  λ h i lt.
      ap (λ (t : ℕ). t % 2)
        (at_offset a i lt ∙ ap (λ (t : ℕ). t / 2 ^ (m - 1 - i)) h ∙ sym (at_offset b i lt)),
  λ h. digits_agree m d a b (rw (let z : d + m ≡ w = omega arith in z) top) λ j lt.
      rw (let z : d + j ≡ w - 1 - (m - 1 - j) = omega arith in z) (h (m - 1 - j) (omega arith)),
)
  where
    at_offset : (c i : ℕ) → i < m → c / 2 ^ (w - 1 - i) ≡ c / 2 ^ d / 2 ^ (m - 1 - i)
    at_offset c i lt =
        rw (let z : w - 1 - i ≡ d + (m - 1 - i) = omega arith in z)
          (sym (div-pow-add c d (m - 1 - i)))

    top : a / 2 ^ w ≡ b / 2 ^ w
    top = div-eq_of_lt ha ∙ sym (div-eq_of_lt hb)
