-- ===== src/Ipv6/Address/Increment.antt =====
-- What `operator ++` of an IPv6 address does to the number that the address is.
use mathlib.Core.Option
use mathlib.Core.List.{reverse, reverse-reverse}
use native.Mathlib.Decide.{dec_lt}
use lib_dwm.Base.{
  ℕ, suc, ◌+◌, ◌^◌, ◌≡◌, refl, ap, ◌∙◌, none, some, List, [], ◌∷◌, ◌⊎◌, inl, inr, arith, All,
  length, lt→ltb, ltb_of_le, le_of_not_lt,
}
use lib_dwm.Wire.Bytes.{IsByte, of_bytes, pow_256}
use lib_dwm.Wire.Encoded.Memory.{length-reverse, All-reverse}
use lib_dwm.Ipv6.Address.{Ipv6Address, increment, increment_from_last}

from_last :
    (bs : List ℕ)
    → All IsByte bs
    → ((increment_from_last bs ≡ none) × (of_bytes bs + 1 ≡ 256 ^ length bs))
      ⊎ ((cs : List ℕ) × (increment_from_last bs ≡ some cs)
          × (of_bytes cs ≡ of_bytes bs + 1)
          × All IsByte cs
          × (length cs ≡ length bs))
unfolding increment_from_last of_bytes
from_last [] h = inl (refl, omega arith)
from_last (b ∷ bs) (hb, hbs) = elim (dec_lt b 255) [
  | yes l ↦ inr ((b + 1) ∷ bs, rw (lt→ltb b 255 l) refl, omega arith, (omega arith, hbs), refl)
  | no l ↦ elim (from_last bs hbs) [
    | inl (e, top) ↦
        inl (rw (ltb_of_le b 255 (le_of_not_lt l), e) refl, omega (arith, top, pow_256 (length bs)))
    | inr (cs, e, next, bytes, len) ↦ inr (
      0 ∷ cs,
      rw (ltb_of_le b 255 (le_of_not_lt l), e) refl,
      omega (arith, next),
      (omega arith, bytes),
      ap suc len,
    )
  ]
]

-- `operator ++` of an address of sixteen bytes either gives the address of sixteen bytes whose
-- number is greater by one, or the address is the last one, all ones, and the loop runs on in front
-- of the array.
pub increment_lem :
    (a : Ipv6Address)
    → All IsByte a
    → length a ≡ 16
    → ((increment a ≡ none) × (of_bytes (reverse a) + 1 ≡ 2 ^ 128))
      ⊎ ((b : Ipv6Address) × (increment a ≡ some b)
          × (of_bytes (reverse b) ≡ of_bytes (reverse a) + 1)
          × All IsByte b
          × (length b ≡ 16))
unfolding increment
increment_lem a h sixteen = elim (from_last (reverse a) (All-reverse a h)) [
  | inl (e, top) ↦
      inl (ap (Option.map reverse) e, top ∙ ap (λ (t : ℕ). 256 ^ t) (length-reverse a ∙ sixteen))
  | inr (cs, e, next, bytes, len) ↦ inr (
    reverse cs,
    ap (Option.map reverse) e,
    ap of_bytes (reverse-reverse cs) ∙ next,
    All-reverse cs bytes,
    length-reverse cs ∙ len ∙ length-reverse a ∙ sixteen,
  )
]
