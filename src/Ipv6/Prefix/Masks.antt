-- ===== src/Ipv6/Prefix/Masks.antt =====
-- The masks of IPv6 prefixes keep leading bits, and the comparisons of bytes decide equality.
use lib_dwm.Base.{
  ℕ, zero, suc, ◌+◌, ◌-◌, ◌*◌, ◌/◌, ◌^◌, ◌≤◌, ◌<◌, ◌≡◌, refl, sym, ap, ◌∙◌, true, false, List, [],
  ◌∷◌, ◌==◌, ◌↔◌, ltb, if◌then◌else◌, arith, length, All, bit_and, take, lt→ltb, ltb_of_le,
  le_of_not_lt, le→leb, leb_of_lt, Bool-cases, inl, inr, ==_iff, &&_left, &&_right, &&_intro,
}
use native.Mathlib.Decide.{dec_lt}
use lib_dwm.Base.Masks.{bit_and_leading, bit_and-zero}
use lib_dwm.Wire.Bytes.{IsByte}
use lib_dwm.Wire.Encoded.{zeros}
use lib_dwm.Ipv6.Bytes.{high_bits, keep, keep_iff, head_eq, tail_eq, cons_eq}
use lib_dwm.Ipv6.Address.{bytes_same, mask}
use lib_dwm.Ipv6.Prefix.{set_bits, mask_bits, mask_byte, mask_at, clear_from}

high_ones : (n : ℕ) → n < 8 → 255 - 255 / 2 ^ n ≡ (2 ^ n - 1) * 2 ^ (8 - n)
high_ones zero h = refl
high_ones (suc zero) h = refl
high_ones (suc (suc zero)) h = refl
high_ones (suc (suc (suc zero))) h = refl
high_ones (suc (suc (suc (suc zero)))) h = refl
high_ones (suc (suc (suc (suc (suc zero))))) h = refl
high_ones (suc (suc (suc (suc (suc (suc zero)))))) h = refl
high_ones (suc (suc (suc (suc (suc (suc (suc zero))))))) h = refl
high_ones (suc (suc (suc (suc (suc (suc (suc (suc n)))))))) h = absurd (omega arith)

bit_and-high_ones : (n b : ℕ) → n < 8 → b < 256 → bit_and b (255 - 255 / 2 ^ n) ≡ high_bits n b
bit_and-high_ones n b h hb =
    ap (bit_and b) (high_ones n h)
    ∙ bit_and_leading n (8 - n) b (rw (let e : n + (8 - n) ≡ 8 = omega arith in e) hb)

bit_and_255 : (b : ℕ) → b < 256 → bit_and b 255 ≡ b
bit_and_255 b h = bit_and_leading 8 0 b h ∙ omega arith

high_bits_all : (n b : ℕ) → 8 ≤ n → high_bits n b ≡ b
high_bits_all n b h = rw (let e : 8 - n ≡ 0 = omega arith in e) (omega arith)

high_bits_none : (b : ℕ) → b < 256 → high_bits 0 b ≡ 0
high_bits_none b h = omega arith

pub keep_none : (bs : List ℕ) → All IsByte bs → keep 0 bs ≡ zeros (length bs)
unfolding keep
keep_none [] h = refl
keep_none (b ∷ bs) (hb, hbs) = cons_eq (high_bits_none b hb) (keep_none bs hbs)

mask-zeros : (bs : List ℕ) → mask bs (zeros (length bs)) ≡ zeros (length bs)
unfolding mask
mask-zeros [] = refl
mask-zeros (b ∷ bs) = cons_eq (bit_and-zero b) (mask-zeros bs)

mask-keep_none : (n : ℕ) (bs : List ℕ) → n < 8 → All IsByte bs → zeros (length bs) ≡ keep (n - 8) bs
mask-keep_none n bs h hb =
    sym (keep_none bs hb) ∙ ap (λ (t : ℕ). keep t bs) (let e : 0 ≡ n - 8 = omega arith in e)

first_mask :
    (n b : ℕ)
    → n < 8
    → b < 256
    → bit_and b (if 0 == n then 0 else 255 - 255 / 2 ^ n) ≡ high_bits n b
first_mask zero b h hb = bit_and-zero b ∙ sym (high_bits_none b hb)
first_mask (suc n) b h hb =
    rw (let e : (0 == suc n) ≡ false = ground arith in e) (bit_and-high_ones (suc n) b h hb)

-- A netmask of n bits keeps the first n bits of an array as long.
pub mask-set_bits :
    (n : ℕ) (bs : List ℕ) → All IsByte bs → mask bs (set_bits (length bs) n) ≡ keep n bs
unfolding mask set_bits keep
mask-set_bits n [] h = refl
mask-set_bits n (b ∷ bs) (hb, hbs) = elim (dec_lt n 8) [
  | yes l ↦
      rw (leb_of_lt n 8 l)
        (cons_eq (first_mask n b l hb) (mask-zeros bs ∙ mask-keep_none n bs l hbs))
  | no l ↦ rw (le→leb 8 n (le_of_not_lt l)) (
      cons_eq (bit_and_255 b hb ∙ sym (high_bits_all n b (le_of_not_lt l)))
        (mask-set_bits (n - 8) bs hbs))
]

-- Zeros from a byte on, after a byte that stays.
clear_from-suc :
    (b byte : ℕ) (bs : List ℕ) → clear_from (b ∷ bs) (suc byte) ≡ b ∷ clear_from bs byte
clear_from-suc b byte bs =
    rw (let e : suc (length bs) - suc byte ≡ length bs - byte = omega arith in e) refl

mask_at-suc :
    (b byte bits : ℕ) (bs : List ℕ) → mask_at (b ∷ bs) (suc byte) bits ≡ b ∷ mask_at bs byte bits
mask_at-suc b byte bits bs = elim (Bool-cases (bits == 0)) [
  | inl e ↦ rw e (clear_from-suc b byte bs)
  | inr e ↦ rw e (clear_from-suc b (suc byte) (mask_byte bs byte (255 - 255 / 2 ^ bits)))
]

mask_at_first :
    (n b : ℕ) (bs : List ℕ)
    → n < 8
    → b < 256
    → All IsByte bs
    → mask_at (b ∷ bs) 0 n ≡ keep n (b ∷ bs)
unfolding keep
mask_at_first zero b bs h hb hbs =
    rw (let e : suc (length bs) - 0 ≡ suc (length bs) = omega arith in e)
      (cons_eq (sym (high_bits_none b hb)) (mask-keep_none 0 bs h hbs))
mask_at_first (suc n) b bs h hb hbs =
    rw
      (
        let e : (suc n == 0) ≡ false = ground arith in e,
        let e : suc (length bs) - 1 ≡ length bs = omega arith in e,
      )
      (cons_eq (bit_and-high_ones (suc n) b h hb) (mask-keep_none (suc n) bs h hbs))

mask_bits_first :
    (n b : ℕ) (bs : List ℕ)
    → n < 8
    → b < 256
    → All IsByte bs
    → mask_bits (b ∷ bs) n ≡ keep n (b ∷ bs)
unfolding mask_bits
mask_bits_first n b bs h hb hbs =
    rw
      (
        lt→ltb n (8 * length (b ∷ bs)) (omega arith),
        let e : n / 8 ≡ 0 = omega arith in e,
        let e : n - 0 * 8 ≡ n = omega arith in e,
      )
      (mask_at_first n b bs h hb hbs)

mask_bits_next : (n b : ℕ) (bs : List ℕ) → 8 ≤ n → mask_bits (b ∷ bs) n ≡ b ∷ mask_bits bs (n - 8)
unfolding mask_bits
mask_bits_next n b bs h = elim (Bool-cases (ltb (n - 8) (8 * length bs))) [
  | inl e ↦
      rw
        (
          e,
          lt→ltb n (8 * suc (length bs)) (ground arith),
          let e : n / 8 ≡ suc ((n - 8) / 8) = omega arith in e,
          let e : n - suc ((n - 8) / 8) * 8 ≡ n - 8 - (n - 8) / 8 * 8 = omega arith in e,
        )
        (mask_at-suc b ((n - 8) / 8) (n - 8 - (n - 8) / 8 * 8) bs)
  | inr e ↦ rw (e, ltb_of_le n (8 * suc (length bs)) (ground arith)) refl
]

mask_bits_empty : (n : ℕ) → mask_bits [] n ≡ []
unfolding mask_bits
mask_bits_empty n = rw (ltb_of_le n 0 (omega arith)) refl

-- `MaskBits` keeps the leading bits.
pub mask_bits_lem : (n : ℕ) (bs : List ℕ) → All IsByte bs → mask_bits bs n ≡ keep n bs
unfolding keep
mask_bits_lem n [] h = mask_bits_empty n
mask_bits_lem n (b ∷ bs) (hb, hbs) = elim (dec_lt n 8) [
  | yes l ↦ mask_bits_first n b bs l hb hbs
  | no l ↦
      mask_bits_next n b bs (le_of_not_lt l)
      ∙ cons_eq (sym (high_bits_all n b (le_of_not_lt l))) (mask_bits_lem (n - 8) bs hbs)
]

pub bytes_same_iff :
    (bs cs : List ℕ) → length bs ≡ length cs → (bytes_same bs cs ≡ true) ↔ (bs ≡ cs)
unfolding bytes_same
bytes_same_iff [] [] e = (λ _. refl, λ _. refl)
bytes_same_iff [] (c ∷ cs) e = absurd (omega arith)
bytes_same_iff (b ∷ bs) [] e = absurd (omega arith)
bytes_same_iff (b ∷ bs) (c ∷ cs) e =
    let (to, from) = bytes_same_iff bs cs (omega arith) in
    (
      λ h. cons_eq ((==_iff b c).0 (&&_left _ _ h)) (to (&&_right _ _ h)),
      λ h. &&_intro ((==_iff b c).1 (head_eq h)) (from (tail_eq h)),
    )

-- The bytes that a mask length reaches into have the bits that it counts.
pub keep-take :
    (n : ℕ) (bs cs : List ℕ)
    → length bs ≡ length cs
    → All IsByte bs
    → All IsByte cs
    → take ((n + 7) / 8) bs ≡ take ((n + 7) / 8) cs
    → keep n bs ≡ keep n cs
unfolding keep
keep-take n [] [] e hb hc h = refl
keep-take n [] (c ∷ cs) e hb hc h = absurd (omega arith)
keep-take n (b ∷ bs) [] e hb hc h = absurd (omega arith)
keep-take zero (b ∷ bs) (c ∷ cs) e hb hc h =
    (keep_iff 0 (b ∷ bs) (c ∷ cs) e hb hc).1 λ i lt. absurd (omega arith)
keep-take (suc n) (b ∷ bs) (c ∷ cs) e (hb, hbs) (hc, hcs) h =
    let h' : take (suc ((suc n - 8 + 7) / 8)) (b ∷ bs) ≡ take (suc ((suc n - 8 + 7) / 8)) (c ∷ cs) =
      rw (let z : (suc n + 7) / 8 ≡ suc ((suc n - 8 + 7) / 8) = omega arith in z) at h in
    cons_eq (ap (high_bits (suc n)) (head_eq h'))
      (keep-take (suc n - 8) bs cs (omega arith) hbs hcs (tail_eq h'))
