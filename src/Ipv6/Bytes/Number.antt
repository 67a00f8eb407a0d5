-- ===== src/Ipv6/Bytes/Number.antt =====
-- The unsigned integer that an array of bytes stands for, and its digits.
use native.Mathlib.Decide.{dec_lt}
use native.Mathlib.Nat.{
  one-le-pow, mul_comm, mul_assoc, mul-le-mul_right, div-eq_of_lt, add-mul-div_left,
  mul-add-div_right, add-mul-mod_self_left,
}
use lib_dwm.Base.{
  ℕ, suc, ◌+◌, ◌-◌, ◌*◌, ◌/◌, ◌%◌, ◌^◌, ◌≤◌, ◌<◌, ◌≡◌, refl, sym, ap, ◌∙◌, List, [], ◌∷◌, ◌==◌, ◌↔◌,
  arith, length, All, lt→ltb, ltb_of_le, le_of_not_lt, bit_xor,
}
use lib_dwm.Base.Bits.{
  digit, pow-add, div-pow-add, bit_xor-lt_iff, countl_zero, le-countl_zero_iff, leading_agree_iff,
}
use lib_dwm.Wire.Bytes.{IsByte}
use lib_dwm.Ipv6.Bytes.{bit_at, byte_bit, number, Agree, binary_test}

pow_next : (k : ℕ) → 2 ^ (8 * suc k) ≡ 256 * 2 ^ (8 * k)
pow_next k =
    ap (λ (t : ℕ). 2 ^ t) (let e : 8 * suc k ≡ 8 + 8 * k = omega arith in e) ∙ pow-add 8 (8 * k)

pub number-lt : (bs : List ℕ) → All IsByte bs → number bs < 2 ^ (8 * length bs)
unfolding number
number-lt [] h = omega arith
number-lt (b ∷ bs) (hb, hbs) = omega (
  arith,
  number-lt bs hbs,
  pow_next (length bs),
  mul-le-mul_right (2 ^ (8 * length bs)) (let h : b ≤ 255 = omega arith in h),
)

-- The digits above those of the second summand, and the digits below.
digit_above : (b r k j : ℕ) → r < 2 ^ k → digit (b * 2 ^ k + r) (k + j) ≡ digit b j
digit_above b r k j h =
    ap (λ (t : ℕ). t % 2)
      (sym (div-pow-add (b * 2 ^ k + r) k j)
        ∙ ap (λ (t : ℕ). t / 2 ^ j)
            (mul-add-div_right (one-le-pow k 2 (omega arith)) b r ∙ omega (arith, div-eq_of_lt h)))

regroup : (b y m : ℕ) → b * (y * (2 * m)) ≡ y * (2 * (m * b))
regroup b y m =
    mul_comm b (y * (2 * m)) ∙ mul_assoc y (2 * m) b ∙ ap (λ (t : ℕ). y * t) (mul_assoc 2 m b)

digit_below : (b r k j : ℕ) → j < k → digit (b * 2 ^ k + r) j ≡ digit r j
digit_below b r k j lt =
    let m : ℕ = 2 ^ (k - suc j) in
    let split : 2 ^ k ≡ 2 ^ j * (2 * m) =
      ap (λ (t : ℕ). 2 ^ t) (let e : k ≡ j + (1 + (k - suc j)) = omega arith in e)
      ∙ pow-add j (1 + (k - suc j))
      ∙ ap (λ (t : ℕ). 2 ^ j * t) (pow-add 1 (k - suc j)) in
    ap (λ (t : ℕ). t / 2 ^ j % 2) (omega (arith, ap (λ (t : ℕ). b * t) split, regroup b (2 ^ j) m))
    ∙ ap (λ (t : ℕ). t % 2) (add-mul-div_left r (2 * (m * b)) (one-le-pow j 2 (omega arith)))
    ∙ add-mul-mod_self_left (r / 2 ^ j) 2 (m * b)

-- The digits of the number are the bits of the array.
bit_at-digit :
    (bs : List ℕ) (i : ℕ)
    → All IsByte bs
    → i < 8 * length bs
    → bit_at bs i ≡ (digit (number bs) (8 * length bs - 1 - i) == 1)
unfolding number bit_at byte_bit
bit_at-digit [] i h lt = absurd (omega arith)
bit_at-digit (b ∷ bs) i (hb, hbs) lt = elim (dec_lt i 8) [
  | yes l ↦
      rw
        (
          lt→ltb i 8 l,
          let e : 8 * suc (length bs) - 1 - i ≡ 8 * length bs + (7 - i) = omega arith in e,
          digit_above b (number bs) (8 * length bs) (7 - i) (number-lt bs hbs),
        )
        refl
  | no l ↦
      rw
        (
          ltb_of_le i 8 (le_of_not_lt l),
          let e : 8 * suc (length bs) - 1 - i ≡ 8 * length bs - 1 - (i - 8) = omega arith in e,
          digit_below b (number bs) (8 * length bs) (8 * length bs - 1 - (i - 8)) (omega arith),
        )
        (bit_at-digit bs (i - 8) hbs (omega arith))
]

-- The first bits of two arrays agree just if the exclusive or has leading zeros for them.
pub Agree-iff_countl_zero :
    (w m : ℕ) (bs cs : List ℕ)
    → w ≡ 8 * length bs
    → w ≡ 8 * length cs
    → All IsByte bs
    → All IsByte cs
    → m ≤ w
    → (m ≤ countl_zero w (bit_xor (number bs) (number cs))) ↔ Agree m bs cs
Agree-iff_countl_zero w m bs cs eb ec hb hc hm =
    let d : ℕ = w - m in
    let nb : number bs < 2 ^ w = rw eb (number-lt bs hb) in
    let nc : number cs < 2 ^ w = rw ec (number-lt cs hc) in
    let small : bit_xor (number bs) (number cs) < 2 ^ w =
      (bit_xor-lt_iff w (number bs) (number cs)).1 (div-eq_of_lt nb ∙ sym (div-eq_of_lt nc)) in
    let (zeros, zeros') = le-countl_zero_iff w m d _ (omega arith) small in
    let (xor, xor') = bit_xor-lt_iff d (number bs) (number cs) in
    let (lead, lead') = leading_agree_iff w m d (number bs) (number cs) (omega arith) nb nc in
    let at_b : (i : ℕ) → i < m → bit_at bs i ≡ (digit (number bs) (w - 1 - i) == 1) = λ i lt.
      bit_at-digit bs i hb (omega arith)
      ∙ ap (λ (t : ℕ). digit (number bs) (t - 1 - i) == 1) (sym eb) in
    let at_c : (i : ℕ) → i < m → bit_at cs i ≡ (digit (number cs) (w - 1 - i) == 1) = λ i lt.
      bit_at-digit cs i hc (omega arith)
      ∙ ap (λ (t : ℕ). digit (number cs) (t - 1 - i) == 1) (sym ec) in
    (
      λ h i lt.
          at_b i lt
          ∙ (binary_test _ _ (omega arith) (omega arith)).1 (lead (xor (zeros h)) i lt)
          ∙ sym (at_c i lt),
      λ h. zeros' (
          xor' (
            lead' λ i lt.
              (binary_test _ _ (omega arith) (omega arith)).0
                (sym (at_b i lt) ∙ h i lt ∙ at_c i lt))),
    )
