-- ===== src/Ipv6/Bytes.antt =====
-- Arrays of bytes read bit by bit, the most significant bit first: the leading bits of an array,
-- kept with zeros behind them, against the bits one by one.
pub mod Number
pub mod Bits
use mathlib.Core.List.{reverse}
use native.Mathlib.Nat.{div-eq_of_lt, div-mul-le_self, mul-div_cancel, one-le-pow}
use native.Mathlib.Decide.{dec_lt}
use lib_dwm.Base.{
  ℕ, zero, suc, ◌+◌, ◌-◌, ◌*◌, ◌/◌, ◌%◌, ◌^◌, ◌≤◌, ◌<◌, ◌≡◌, refl, sym, ap, ◌∙◌, Bool, true, false,
  List, [], ◌∷◌, ◌++◌, ◌==◌, ◌↔◌, ltb, if◌then◌else◌, arith, length, All, min, lt→ltb, ltb_of_le,
  le_of_not_lt,
}
use lib_dwm.Base.Bits.{digit, leading_agree_iff}
use lib_dwm.Wire.Bytes.{IsByte}

-- The bit of a byte with an index below 8, and the bit of an array.
unfoldable pub byte_bit : ℕ → ℕ → Bool
byte_bit b i = digit b (7 - i) == 1

unfoldable pub bit_at : List ℕ → ℕ → Bool
bit_at [] i = false
bit_at (b ∷ bs) i = if ltb i 8 then byte_bit b i else bit_at bs (i - 8)

-- The leading bits of a byte, and of an array.
abbrev pub high_bits : ℕ → ℕ → ℕ
high_bits n b = b / 2 ^ (8 - n) * 2 ^ (8 - n)

unfoldable pub keep : ℕ → List ℕ → List ℕ
keep n [] = []
keep n (b ∷ bs) = high_bits n b ∷ keep (n - 8) bs

-- The unsigned integer that the bytes stand for, the most significant first.
unfoldable pub number : List ℕ → ℕ
number [] = 0
number (b ∷ bs) = b * 2 ^ (8 * length bs) + number bs

pub head_eq : {b c : ℕ} {bs cs : List ℕ} → (b ∷ bs) ≡ (c ∷ cs) → b ≡ c
head_eq h = cc

pub tail_eq : {b c : ℕ} {bs cs : List ℕ} → (b ∷ bs) ≡ (c ∷ cs) → bs ≡ cs
tail_eq h = cc

pub cons_eq : {b c : ℕ} {bs cs : List ℕ} → b ≡ c → bs ≡ cs → (b ∷ bs) ≡ (c ∷ cs)
cons_eq h k = cc

-- The first n bits of two arrays agree.
abbrev pub Agree : ℕ → List ℕ → List ℕ → Type 0
Agree n bs cs = (i : ℕ) → i < n → bit_at bs i ≡ bit_at cs i

pub binary_test : (a b : ℕ) → a < 2 → b < 2 → ((a == 1) ≡ (b == 1)) ↔ (a ≡ b)
binary_test a b ha hb = ground arith

byte_bit_iff : (a b i : ℕ) → (byte_bit a i ≡ byte_bit b i) ↔ (digit a (7 - i) ≡ digit b (7 - i))
unfolding byte_bit
byte_bit_iff a b i = binary_test _ _ (omega arith) (omega arith)

scaled_iff : (k a b : ℕ) → 0 < k → (a * k ≡ b * k) ↔ (a ≡ b)
scaled_iff k a b h = (
  λ e. sym (mul-div_cancel a h) ∙ ap (λ (t : ℕ). t / k) e ∙ mul-div_cancel b h,
  λ e. ap (λ (t : ℕ). t * k) e,
)

-- The leading bits of two bytes are equal just if they agree one by one.
high_bits_iff :
    (n a b : ℕ)
    → a < 256
    → b < 256
    → (high_bits n a ≡ high_bits n b) ↔ ((i : ℕ) → i < n → i < 8 → byte_bit a i ≡ byte_bit b i)
high_bits_iff n a b ha hb =
    let (to, from) =
      scaled_iff (2 ^ (8 - n)) (a / 2 ^ (8 - n)) (b / 2 ^ (8 - n))
        (one-le-pow (8 - n) 2 (omega arith)) in
    let (bits, number) = leading_agree_iff 8 (min n 8) (8 - n) a b (omega arith) ha hb in
    (
      λ h i lt l. (byte_bit_iff a b i).1 (bits (to h) i (omega arith)),
      λ h. from (number λ i lt. (byte_bit_iff a b i).0 (h i (omega arith) (omega arith))),
    )

pub keep_iff :
    (n : ℕ) (bs cs : List ℕ)
    → length bs ≡ length cs
    → All IsByte bs
    → All IsByte cs
    → (keep n bs ≡ keep n cs) ↔ Agree n bs cs
unfolding keep bit_at
keep_iff n [] [] e hb hc = (λ _ i _. refl, λ _. refl)
keep_iff n [] (c ∷ cs) e hb hc = absurd (omega arith)
keep_iff n (b ∷ bs) [] e hb hc = absurd (omega arith)
keep_iff n (b ∷ bs) (c ∷ cs) e (hb, hbs) (hc, hcs) =
    let (to, from) = high_bits_iff n b c hb hc in
    let (to', from') = keep_iff (n - 8) bs cs (omega arith) hbs hcs in
    (
      λ h i lt. elim (dec_lt i 8) [
        | yes l ↦ rw (lt→ltb i 8 l) (to (head_eq h) i lt l)
        | no l ↦ rw (ltb_of_le i 8 (le_of_not_lt l)) (to' (tail_eq h) (i - 8) (omega arith))
      ],
      λ h. cons_eq (from λ i lt l. rw (lt→ltb i 8 l) at (h i lt)) (
          from' λ i lt.
            rw (ltb_of_le (i + 8) 8 (omega arith), let z : i + 8 - 8 ≡ i = omega arith in z) at
              (h (i + 8) (omega arith))),
    )

pub length-keep : (n : ℕ) (bs : List ℕ) → length (keep n bs) ≡ length bs
unfolding keep
length-keep n [] = refl
length-keep n (b ∷ bs) = ap suc (length-keep (n - 8) bs)

pub keep-IsByte : (n : ℕ) (bs : List ℕ) → All IsByte bs → All IsByte (keep n bs)
unfolding keep
keep-IsByte n [] h = tt
keep-IsByte n (b ∷ bs) (hb, hbs) =
    (omega (arith, div-mul-le_self b (2 ^ (8 - n))), keep-IsByte (n - 8) bs hbs)

pub keep-keep : (n : ℕ) (bs : List ℕ) → keep n (keep n bs) ≡ keep n bs
unfolding keep
keep-keep n [] = refl
keep-keep n (b ∷ bs) =
    cons_eq
      (ap (λ (t : ℕ). t * 2 ^ (8 - n))
        (mul-div_cancel (b / 2 ^ (8 - n)) (one-le-pow (8 - n) 2 (omega arith))))
      (keep-keep (n - 8) bs)
