-- ===== src/Ipv6/Bytes/Bits.antt =====
-- A bit of an array under its index, and the bits of a part of an array.
use native.Mathlib.Decide.{dec_lt}
use native.Mathlib.Nat.{one-le-pow, div-eq_of_lt}
use lib_dwm.Base.{
  ℕ, zero, suc, ◌+◌, ◌-◌, ◌*◌, ◌/◌, ◌%◌, ◌^◌, ◌≤◌, ◌<◌, ◌≡◌, refl, sym, ap, ◌∙◌, false, List, [],
  ◌∷◌, ◌==◌, arith, length, All, lt→ltb, ltb_of_le, le_of_not_lt, get_or, take, drop, not, bit_and,
}
use lib_dwm.Base.Bits.{digit}
use lib_dwm.Base.Masks.{bit_and_one_bit}
use lib_dwm.Wire.Bytes.{IsByte}
use lib_dwm.Ipv6.Bytes.{bit_at, byte_bit}

scaled_test : (d k : ℕ) → d < 2 → 0 < k → not (d * k == 0) ≡ (d == 1)
scaled_test zero k h hk = rw (let e : 0 * k ≡ 0 = omega arith in e) refl
scaled_test (suc zero) k h hk = rw (let e : (1 * k == 0) ≡ false = ground arith in e) refl
scaled_test (suc (suc d)) k h hk = absurd (omega arith)

shifted_top : (j : ℕ) → j < 8 → 0x80 / 2 ^ j ≡ 2 ^ (7 - j)
shifted_top zero h = refl
shifted_top (suc zero) h = refl
shifted_top (suc (suc zero)) h = refl
shifted_top (suc (suc (suc zero))) h = refl
shifted_top (suc (suc (suc (suc zero)))) h = refl
shifted_top (suc (suc (suc (suc (suc zero))))) h = refl
shifted_top (suc (suc (suc (suc (suc (suc zero)))))) h = refl
shifted_top (suc (suc (suc (suc (suc (suc (suc zero))))))) h = refl
shifted_top (suc (suc (suc (suc (suc (suc (suc (suc j)))))))) h = absurd (omega arith)

pub byte_bit_lem : (b j : ℕ) → j < 8 → not (bit_and b (0x80 / 2 ^ j) == 0) ≡ byte_bit b j
unfolding byte_bit
byte_bit_lem b j h =
    ap (λ (t : ℕ). not (bit_and b t == 0)) (shifted_top j h)
    ∙ ap (λ (t : ℕ). not (t == 0)) (bit_and_one_bit b (7 - j))
    ∙ scaled_test (digit b (7 - j)) (2 ^ (7 - j)) (omega arith) (one-le-pow (7 - j) 2 (omega arith))

no_bit : (i : ℕ) → byte_bit 0 i ≡ false
unfolding byte_bit
no_bit i =
    rw
      (let e : 0 / 2 ^ (7 - i) ≡ 0 =
          div-eq_of_lt (omega (arith, one-le-pow (7 - i) 2 (omega arith))) in
        e)
      refl

pub bit_at-get_or : (bs : List ℕ) (i : ℕ) → bit_at bs i ≡ byte_bit (get_or bs (i / 8) 0) (i % 8)
unfolding bit_at
bit_at-get_or [] i = sym (no_bit (i % 8))
bit_at-get_or (b ∷ bs) i = elim (dec_lt i 8) [
  | yes l ↦
      rw (lt→ltb i 8 l, let e : i / 8 ≡ 0 = omega arith in e, let e : i % 8 ≡ i = omega arith in e)
        refl
  | no l ↦
      rw
        (
          ltb_of_le i 8 (le_of_not_lt l),
          let e : i / 8 ≡ suc ((i - 8) / 8) = omega arith in e,
          let e : i % 8 ≡ (i - 8) % 8 = omega arith in e,
        )
        (bit_at-get_or bs (i - 8))
]

pub bit_at-take : (k : ℕ) (bs : List ℕ) (i : ℕ) → i < 8 * k → bit_at (take k bs) i ≡ bit_at bs i
unfolding bit_at
bit_at-take zero bs i h = absurd (omega arith)
bit_at-take (suc k) [] i h = refl
bit_at-take (suc k) (b ∷ bs) i h = elim (dec_lt i 8) [
  | yes l ↦ rw (lt→ltb i 8 l) refl
  | no l ↦ rw (ltb_of_le i 8 (le_of_not_lt l)) (bit_at-take k bs (i - 8) (omega arith))
]

pub bit_at-drop : (k : ℕ) (bs : List ℕ) (i : ℕ) → bit_at (drop k bs) i ≡ bit_at bs (8 * k + i)
unfolding bit_at
bit_at-drop zero bs i = rw (let e : 8 * 0 + i ≡ i = omega arith in e) refl
bit_at-drop (suc k) [] i = refl
bit_at-drop (suc k) (b ∷ bs) i =
    rw
      (
        ltb_of_le (8 * suc k + i) 8 (omega arith),
        let e : 8 * suc k + i - 8 ≡ 8 * k + i = omega arith in e,
      )
      (bit_at-drop k bs i)

pub length-take : (k : ℕ) (bs : List ℕ) → k ≤ length bs → length (take k bs) ≡ k
length-take zero bs h = refl
length-take (suc k) [] h = absurd (omega arith)
length-take (suc k) (b ∷ bs) h = ap suc (length-take k bs (omega arith))

pub length-drop : (k : ℕ) (bs : List ℕ) → length (drop k bs) ≡ length bs - k
length-drop zero bs = omega arith
length-drop (suc k) [] = omega arith
length-drop (suc k) (b ∷ bs) = omega (arith, length-drop k bs)

pub All-take : (k : ℕ) (bs : List ℕ) → All IsByte bs → All IsByte (take k bs)
All-take zero bs h = tt
All-take (suc k) [] h = tt
All-take (suc k) (b ∷ bs) (hb, hbs) = (hb, All-take k bs hbs)

pub All-drop : (k : ℕ) (bs : List ℕ) → All IsByte bs → All IsByte (drop k bs)
All-drop zero bs h = h
All-drop (suc k) [] h = tt
All-drop (suc k) (b ∷ bs) (hb, hbs) = All-drop k bs hbs
