-- ===== src/Ipv6/Prefix/Differ.antt =====
-- The first bit in which two IPv6 prefixes differ, found in two words of 64 bits.
use native.Mathlib.Decide.{dec_lt}
use lib_dwm.Base.{
  ℕ, suc, ◌+◌, ◌-◌, ◌≤◌, ◌<◌, ◌≡◌, sym, ap, ◌∙◌, none, some, List, ◌==◌, ◌↔◌, arith, length, All,
  take, drop, ltb, if◌then◌else◌, bit_xor, min,
}
use lib_dwm.Base.Bits.{countl_zero, countl_zero-le}
use lib_dwm.Wire.Bytes.{IsByte}
use lib_dwm.Ipv6.Bytes.{bit_at, Agree}
use lib_dwm.Ipv6.Bytes.Number.{Agree-iff_countl_zero}
use lib_dwm.Ipv6.Bytes.Bits.{bit_at-take, bit_at-drop, length-take, length-drop, All-take, All-drop}
use lib_dwm.Ipv6.Prefix.{Ipv6Prefix, first_diff_bit, word}

-- The bits before the first difference of two addresses, 128 if there is none.
unfoldable pub same_bits : List ℕ → List ℕ → ℕ
same_bits a b =
    let z = countl_zero 64 (bit_xor (word a 0) (word b 0)) in
    if ltb z 64 then z else countl_zero 64 (bit_xor (word a 8) (word b 8)) + 64

diff_cases :
    (m z z' : ℕ)
    → m < 129
    → (if m == 0
        then none
        else (if ltb z 64
            then (if ltb z m then some z else none)
            else (if ltb z' 64 then (if ltb (z' + 64) m then some (z' + 64) else none) else none)))
      ≡ (let n = (if ltb z 64 then z else z' + 64) in if ltb n m then some n else none)
diff_cases m z z' h = ground arith

pub first_diff_bit_lem :
    (p q : Ipv6Prefix) (m : ℕ)
    → m < 129
    → first_diff_bit p q m
      ≡ (if ltb (same_bits p.addr q.addr) m then some (same_bits p.addr q.addr) else none)
unfolding first_diff_bit same_bits
first_diff_bit_lem p q m h =
    diff_cases m (countl_zero 64 (bit_xor (word p.addr 0) (word q.addr 0)))
      (countl_zero 64 (bit_xor (word p.addr 8) (word q.addr 8))) h

module _ (a b : List ℕ) (la : length a ≡ 16) (lb : length b ≡ 16) (ha : All IsByte a)
    (hb : All IsByte b) where
  first_word_iff :
      (m : ℕ)
      → m ≤ 64
      → (m ≤ countl_zero 64 (bit_xor (word a 0) (word b 0))) ↔ Agree m (take 8 a) (take 8 b)
  first_word_iff m h =
      Agree-iff_countl_zero 64 m (take 8 a) (take 8 b)
        (omega (arith, length-take 8 a (omega arith)))
        (omega (arith, length-take 8 b (omega arith))) (All-take 8 a ha) (All-take 8 b hb) h

  second_word_iff :
      (m : ℕ)
      → m ≤ 64
      → (m ≤ countl_zero 64 (bit_xor (word a 8) (word b 8)))
        ↔ Agree m (take 8 (drop 8 a)) (take 8 (drop 8 b))
  second_word_iff m h =
      Agree-iff_countl_zero 64 m (take 8 (drop 8 a)) (take 8 (drop 8 b))
        (omega (arith, length-take 8 (drop 8 a) (omega (arith, length-drop 8 a))))
        (omega (arith, length-take 8 (drop 8 b) (omega (arith, length-drop 8 b))))
        (All-take 8 (drop 8 a) (All-drop 8 a ha)) (All-take 8 (drop 8 b) (All-drop 8 b hb)) h

  second_word_bit : (c : List ℕ) (i : ℕ) → i < 64 → bit_at (take 8 (drop 8 c)) i ≡ bit_at c (64 + i)
  second_word_bit c i h = bit_at-take 8 (drop 8 c) i (omega arith) ∙ bit_at-drop 8 c i

  -- The first bits agree just if they are no more than the bits before the first difference.
  pub same_bits_iff : (m : ℕ) → m < 129 → (m ≤ same_bits a b) ↔ Agree m a b
  unfolding same_bits
  same_bits_iff m hm = (upto, enough)
    where
      z : ℕ
      z = countl_zero 64 (bit_xor (word a 0) (word b 0))

      z' : ℕ
      z' = countl_zero 64 (bit_xor (word a 8) (word b 8))

      upto : m ≤ (if ltb z 64 then z else z' + 64) → Agree m a b
      upto h i lt = elim (dec_lt i 64) [
        | yes l ↦
            sym (bit_at-take 8 a i (omega arith))
            ∙ (first_word_iff (suc i) (omega arith)).0 (ground arith) i (omega arith)
            ∙ bit_at-take 8 b i (omega arith)
        | no l ↦
            let e : 64 + (i - 64) ≡ i = omega arith in
            ap (bit_at a) (sym e)
            ∙ sym (second_word_bit a (i - 64) (omega arith))
            ∙ (second_word_iff (suc (i - 64)) (omega arith)).0
                (ground (arith, countl_zero-le 64 (bit_xor (word a 0) (word b 0)))) (i - 64)
                (omega arith)
            ∙ second_word_bit b (i - 64) (omega arith)
            ∙ ap (bit_at b) e
      ]

      first : (k : ℕ) → k ≤ 64 → k ≤ m → Agree m a b → k ≤ z
      first k h le agree = (first_word_iff k h).1 λ i lt.
          bit_at-take 8 a i (omega arith)
          ∙ agree i (omega arith)
          ∙ sym (bit_at-take 8 b i (omega arith))

      second : Agree m a b → m - 64 ≤ z'
      second agree = (second_word_iff (m - 64) (omega arith)).1 λ i lt.
          second_word_bit a i (omega arith)
          ∙ agree (64 + i) (omega arith)
          ∙ sym (second_word_bit b i (omega arith))

      enough : Agree m a b → m ≤ (if ltb z 64 then z else z' + 64)
      enough agree =
          ground (arith, first (min m 64) (omega arith) (omega arith) agree, second agree)
