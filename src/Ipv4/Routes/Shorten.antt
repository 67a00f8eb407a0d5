-- ===== src/Ipv4/Routes/Shorten.antt =====
-- The prefixes of one address: shortening the mask, and which prefixes contain the address.
use native.Mathlib.Nat.{mul-div_cancel, one-le-pow, div-mul-le_self}
use lib_dwm.Base.{
  ℕ, zero, suc, ◌+◌, ◌-◌, ◌*◌, ◌/◌, ◌%◌, ◌^◌, ◌≤◌, ◌<◌, ◌≡◌, ◌↔◌, refl, sym, ap, ◌∙◌, Bool, true,
  ◌&&◌, arith, ◌==◌, ==_iff, &&_left, &&_right, bit_and,
}
use native.Mathlib.Decide.{dec_lt}
use lib_dwm.Base.Bits.{div-pow-add}
use lib_dwm.Base.Masks.{bit_and_leading}
use lib_dwm.Ipv4.Prefix.{
  Ipv4Prefix, IsValid, make, of_address, set_mask_length, broadcast, contains, bit,
}
use lib_dwm.Ipv4.Prefix.Laws.{
  make_lem, make-IsValid, common-IsValid, contains_iff, eq_of_bits, Agree,
}

shifts_below : ℕ → Bool
shifts_below zero = true
shifts_below (suc n) =
    0xffff_ffff * 2 ^ (32 - n) % 2 ^ 32 == (2 ^ n - 1) * 2 ^ (32 - n) && shifts_below n

shifts_below_sound :
    (k n : ℕ)
    → shifts_below k ≡ true
    → n < k
    → 0xffff_ffff * 2 ^ (32 - n) % 2 ^ 32 ≡ (2 ^ n - 1) * 2 ^ (32 - n)
unfolding shifts_below
shifts_below_sound zero n h lt = absurd (omega arith)
shifts_below_sound (suc k) n h lt = elim (dec_lt n k) [
  | yes p ↦ shifts_below_sound k n (&&_right _ _ h) p
  | no p ↦ rw (let e : n ≡ k = omega arith in e) ((==_iff _ _).0 (&&_left _ _ h))
]

shift_lem : (n : ℕ) → n < 33 → 0xffff_ffff * 2 ^ (32 - n) % 2 ^ 32 ≡ (2 ^ n - 1) * 2 ^ (32 - n)
unfolding shifts_below
shift_lem n h = shifts_below_sound 33 n refl h

-- Clearing more of the low bits forgets that some were clear.
shorter_cleared :
    (a d e : ℕ) → a / 2 ^ d * 2 ^ d / 2 ^ (d + e) * 2 ^ (d + e) ≡ a / 2 ^ (d + e) * 2 ^ (d + e)
shorter_cleared a d e =
    ap (λ (t : ℕ). t * 2 ^ (d + e))
      (sym (div-pow-add (a / 2 ^ d * 2 ^ d) d e)
        ∙ rw (mul-div_cancel (a / 2 ^ d) (one-le-pow d 2 (omega arith))) (div-pow-add a d e))

module _ (addr j i : ℕ) (le : i ≤ j) (h : j < 33) (ha : addr < 2 ^ 32) where
  abbrev cleared : ℕ → ℕ
  cleared n = addr / 2 ^ (32 - n) * 2 ^ (32 - n)

  cleared_further : cleared j / 2 ^ (32 - i) * 2 ^ (32 - i) ≡ cleared i
  cleared_further =
      rw (let e : 32 - i ≡ (32 - j) + (j - i) = omega arith in e)
        (shorter_cleared addr (32 - j) (j - i))

  masked_further : bit_and (cleared j) (0xffff_ffff * 2 ^ (32 - i) % 2 ^ 32) ≡ cleared i
  masked_further =
      ap (bit_and (cleared j)) (shift_lem i (omega arith))
      ∙ bit_and_leading i (32 - i) (cleared j) (
          rw (let e : i + (32 - i) ≡ 32 = omega arith in e)
            (omega (arith, div-mul-le_self addr (2 ^ (32 - j)))))
      ∙ cleared_further

  nothing_left : i ≡ 0 → 0 ≡ cleared i
  nothing_left e = rw e (omega (arith, ha))

  no_shorter : ¬ (i < j) → cleared j ≡ cleared i
  no_shorter ge = ap cleared (let e : j ≡ i = omega arith in e)

  -- Shortening the mask of the prefix of an address gives the shorter prefix of that address.
  pub set_mask_length-make : set_mask_length (make broadcast addr j) i ≡ make broadcast addr i
  unfolding set_mask_length
  set_mask_length-make =
      rw (make_lem broadcast addr j h ha, make_lem broadcast addr i (omega arith) ha)
        (ground (arith, masked_further, nothing_left, no_shorter))

pub of_address-IsValid : (addr : ℕ) → addr < 2 ^ 32 → IsValid (of_address addr)
unfolding of_address
of_address-IsValid addr ha = record {
  length_fits = omega arith;
  address = ha;
  masked = omega arith;
}

make_full : (addr : ℕ) → addr < 2 ^ 32 → make broadcast addr 32 ≡ of_address addr
unfolding of_address
make_full addr ha = rw (make_lem broadcast addr 32 (omega arith) ha) (ground arith)

make-Agree :
    (addr len : ℕ)
    → len < 33
    → addr < 2 ^ 32
    → Agree len (make broadcast addr len) (of_address addr)
unfolding of_address
make-Agree addr len h ha = elim (dec_lt len 32) [
  | yes lt ↦ (common-IsValid broadcast (of_address addr) len (of_address-IsValid addr ha) lt).2
  | no ge ↦
      rw (let e : len ≡ 32 = omega arith in e, make_full addr ha)
        (λ i lt j. bit (of_address addr) i)
]

short_enough : (addr n : ℕ) → n < 33 → n ≤ (of_address addr).mask_length
unfolding of_address
short_enough addr n h = omega arith

-- The valid prefixes that contain an address are those that the constructor makes of it.
pub contains_address_iff :
    (k : Ipv4Prefix) (addr : ℕ)
    → IsValid k
    → addr < 2 ^ 32
    → (contains k (of_address addr) ≡ true) ↔ (k ≡ make broadcast addr k.mask_length)
contains_address_iff k addr vk ha =
    let va = of_address-IsValid addr ha in
    let fits = vk.length_fits in
    let agree = make-Agree addr k.mask_length fits ha in
    let mask : (make broadcast addr k.mask_length).mask_length ≡ k.mask_length =
      rw (make_lem broadcast addr k.mask_length fits ha) refl in
    let (to, from) = contains_iff k (of_address addr) vk va in
    (
      λ h.
          eq_of_bits k _ vk (make-IsValid broadcast addr k.mask_length fits ha) (sym mask)
            (λ i lt. (to h).1 i lt ∙ sym (agree i lt)),
      λ e. from (
        short_enough addr k.mask_length fits,
        λ i lt. ap (λ (p : Ipv4Prefix). bit p i) e ∙ agree i lt,
      ),
    )
