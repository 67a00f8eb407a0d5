-- ===== src/Ipv4/Prefix/Laws.antt =====
-- The operations of an IPv4 prefix that the trie uses, read bit by bit.
use native.Mathlib.Nat.{div-eq_of_lt, div-mul-le_self, mul-div_cancel, one-le-pow}
use lib_dwm.Base.{
  ℕ, ◌+◌, ◌-◌, ◌*◌, ◌/◌, ◌^◌, ◌≤◌, ◌<◌, ◌≡◌, refl, sym, ap, ◌∙◌, Bool, true, ◌&&◌, none, some, ◌↔◌,
  ◌≢◌, arith, ◌==◌, bit_and, bit_xor, get_or, ==_iff, &&_left, &&_right, &&_intro, leb→le, le→leb,
  zero, suc,
}
use native.Mathlib.Decide.{dec_lt}
use lib_dwm.Base.Bits.{digit, bit_xor-lt_iff, leading_agree_iff, countl_zero, le-countl_zero_iff}
use lib_dwm.Base.Masks.{bit_and_leading}
use lib_dwm.Patricia.Key.{PrefixKey}
use lib_dwm.Ipv4.Prefix.{
  broadcast, Ipv4Prefix, IsValid, bit, same, contains, first_diff_bit, make, sg_masks,
}

-- The leading m bits of two prefixes agree.
abbrev pub Agree : ℕ → Ipv4Prefix → Ipv4Prefix → Type 0
Agree m p q = (i : ℕ) → i < m → bit p i ≡ bit q i

binary_test : (a b : ℕ) → a < 2 → b < 2 → ((a == 1) ≡ (b == 1)) ↔ (a ≡ b)
binary_test a b ha hb = ground arith

bit_digit :
    (p q : Ipv4Prefix) (i : ℕ)
    → (bit p i ≡ bit q i) ↔ (digit p.network (31 - i) ≡ digit q.network (31 - i))
unfolding bit
bit_digit p q i = binary_test _ _ (omega arith) (omega arith)

-- The first m bits agree just if the exclusive or has m leading zeros.
Agree-iff_countl_zero :
    (m : ℕ) (p q : Ipv4Prefix)
    → m ≤ 32
    → p.network < 2 ^ 32
    → q.network < 2 ^ 32
    → (m ≤ countl_zero 32 (bit_xor p.network q.network)) ↔ Agree m p q
Agree-iff_countl_zero m p q hm hp hq =
    let d : ℕ = 32 - m in
    let small : bit_xor p.network q.network < 2 ^ 32 =
      (bit_xor-lt_iff 32 p.network q.network).1 (div-eq_of_lt hp ∙ sym (div-eq_of_lt hq)) in
    let (zeros, zeros') = le-countl_zero_iff 32 m d _ (omega arith) small in
    let (xor, xor') = bit_xor-lt_iff d p.network q.network in
    let (lead, lead') = leading_agree_iff 32 m d p.network q.network (omega arith) hp hq in
    (
      λ h i lt. (bit_digit p q i).1 (lead (xor (zeros h)) i lt),
      λ h. zeros' (xor' (lead' λ i lt. (bit_digit p q i).0 (h i lt))),
    )

masks_below : ℕ → Bool
masks_below zero = true
masks_below (suc n) = get_or sg_masks n 0 == (2 ^ n - 1) * 2 ^ (32 - n) && masks_below n

masks_below_sound :
    (k n : ℕ) → masks_below k ≡ true → n < k → get_or sg_masks n 0 ≡ (2 ^ n - 1) * 2 ^ (32 - n)
unfolding masks_below
masks_below_sound zero n h lt = absurd (omega arith)
masks_below_sound (suc k) n h lt = elim (dec_lt n k) [
  | yes p ↦ masks_below_sound k n (ground arith) p
  | no p ↦
      rw (let e : n ≡ k = omega arith in e)
        ((==_iff (get_or sg_masks k 0) ((2 ^ k - 1) * 2 ^ (32 - k))).0 (&&_left _ _ h))
]

-- Each entry of the table has the leading ones that its index says.
sg_masks_lem : (n : ℕ) → n < 33 → get_or sg_masks n 0 ≡ (2 ^ n - 1) * 2 ^ (32 - n)
unfolding masks_below
sg_masks_lem n h = masks_below_sound 33 n refl h

-- For a mask length of at most 32 and an address of 32 bits: `Set` keeps the leading bits that the
-- mask length counts and clears the others.
pub make_lem :
    (u : Ipv4Prefix) (addr len : ℕ)
    → len < 33
    → addr < 2 ^ 32
    → make u addr len
      ≡ record { network = addr / 2 ^ (32 - len) * 2 ^ (32 - len); mask_length = len }
unfolding make
make_lem u addr len h ha = ground (
  arith,
  ap (bit_and addr) (sg_masks_lem len h)
      ∙ bit_and_leading len (32 - len) addr
          (rw (let e : len + (32 - len) ≡ 32 = omega arith in e) ha),
)

pub make-IsValid :
    (u : Ipv4Prefix) (addr len : ℕ) → len < 33 → addr < 2 ^ 32 → IsValid (make u addr len)
make-IsValid u addr len h ha = rw (make_lem u addr len h ha) (record {
  length_fits = h;
  address = omega (arith, div-mul-le_self addr (2 ^ (32 - len)));
  masked = rw (mul-div_cancel (addr / 2 ^ (32 - len)) (one-le-pow (32 - len) 2 (omega arith)));
})

pub same_iff : (p q : Ipv4Prefix) → (same p q ≡ true) ↔ (p ≡ q)
unfolding same
same_iff p q = (λ h. ground arith, λ e. ground arith)

-- For valid prefixes: one contains another just if its mask is not longer and the bits under it
-- agree.
pub contains_iff :
    (p q : Ipv4Prefix)
    → IsValid p
    → IsValid q
    → (contains p q ≡ true) ↔ ((p.mask_length ≤ q.mask_length) × Agree p.mask_length p q)
unfolding contains
contains_iff p q vp vq =
    let (to, from) =
      Agree-iff_countl_zero p.mask_length q p (omega (arith, vp.length_fits)) vq.address
        vp.address in
    (
      λ h. (leb→le _ _ (&&_left _ _ h), λ i lt. sym (to (leb→le _ _ (&&_right _ _ h)) i lt)),
      λ h. &&_intro (le→leb _ _ h.0) (le→leb _ _ (from λ i lt. sym (h.1 i lt))),
    )

pub eq_of_bits :
    (p q : Ipv4Prefix)
    → IsValid p
    → IsValid q
    → p.mask_length ≡ q.mask_length
    → Agree p.mask_length p q
    → p ≡ q
eq_of_bits p q vp vq e agree =
    let d : ℕ = 32 - p.mask_length in
    let lead : p.network / 2 ^ d ≡ q.network / 2 ^ d =
      (leading_agree_iff 32 p.mask_length d p.network q.network (omega (arith, vp.length_fits))
          vp.address vq.address).1
        (λ i lt. (bit_digit p q i).0 (agree i lt)) in
    let net : p.network ≡ q.network =
      sym vp.masked
      ∙ ap (λ (t : ℕ). t * 2 ^ d) lead
      ∙ ap (λ (t : ℕ). q.network / 2 ^ (32 - t) * 2 ^ (32 - t)) e
      ∙ vq.masked in
    λ i. record { network = net i; mask_length = e i }

module _ (p q : Ipv4Prefix) (m : ℕ) (vp : IsValid p) (vq : IsValid q) (hp : m ≤ p.mask_length)
    (hq : m ≤ q.mask_length) where
  pub first_diff_bit_none : first_diff_bit p q m ≡ none → Agree m p q
  unfolding first_diff_bit
  first_diff_bit_none h =
      (Agree-iff_countl_zero m p q (omega (arith, vp.length_fits)) vp.address vq.address).0
        (ground arith)

  pub first_diff_bit_some :
      (d : ℕ) → first_diff_bit p q m ≡ some d → (d < m) × Agree d p q × (bit p d ≢ bit q d)
  unfolding first_diff_bit
  first_diff_bit_some d h = (below, agree, λ same_bit. absurd (next same_bit))
    where
      zeros : ℕ
      zeros = countl_zero 32 (bit_xor p.network q.network)

      at_diff : zeros ≡ d
      at_diff = ground arith

      below : d < m
      below = ground arith

      agree : Agree d p q
      agree =
          (Agree-iff_countl_zero d p q (omega (arith, below, vp.length_fits)) vp.address
              vq.address).0
            (omega (arith, at_diff))

      next : bit p d ≡ bit q d → ⊥
      next same_bit = omega (
        arith,
        at_diff,
        (Agree-iff_countl_zero (suc d) p q (omega (arith, below, vp.length_fits)) vp.address
              vq.address).1
            (λ i lt. elim (dec_lt i d) [
              | yes l ↦ agree i l
              | no l ↦ rw (let e : i ≡ d = omega arith in e) same_bit
            ]),
      )

-- The prefix of length d on the network of another.
pub common-IsValid :
    (u p : Ipv4Prefix) (d : ℕ)
    → IsValid p
    → d < p.mask_length
    → IsValid (make u p.network d)
      × ((make u p.network d).mask_length ≡ d)
      × Agree d (make u p.network d) p
common-IsValid u p d v h = rw (make_lem u p.network d fits v.address) (
  rw (make_lem u p.network d fits v.address) at (make-IsValid u p.network d fits v.address),
  refl,
  λ i lt. (bit_digit _ p i).1 (lead i lt),
)
  where
    fits : d < 33
    fits = omega (arith, v.length_fits)

    cleared : ℕ
    cleared = p.network / 2 ^ (32 - d) * 2 ^ (32 - d)

    lead : (i : ℕ) → i < d → digit cleared (31 - i) ≡ digit p.network (31 - i)
    lead =
        (leading_agree_iff 32 d (32 - d) cleared p.network (omega arith)
            (omega (arith, div-mul-le_self p.network (2 ^ (32 - d)), v.address)) v.address).0
          (mul-div_cancel (p.network / 2 ^ (32 - d)) (one-le-pow (32 - d) 2 (omega arith)))

-- The trie's view of the class; `uninit` stands for the storage that a constructor overwrites.
abbrev pub ipv4_key : PrefixKey
ipv4_key = record {
  Prefix = Ipv4Prefix;
  mask_length = λ p. p.mask_length;
  bit = bit;
  same = same;
  contains = contains;
  first_diff_bit = first_diff_bit;
  common = λ p d. make broadcast p.network d;
  IsValid = IsValid;
  same_refl = λ p. (same_iff p p).1 refl;
  same_mask_length = λ p q h. ap (λ (x : Ipv4Prefix). x.mask_length) ((same_iff p q).0 h);
  eq_of_same = λ p q vp vq h. (same_iff p q).0 h;
  contains_iff = contains_iff;
  eq_of_bits = eq_of_bits;
  first_diff_bit_none = λ p q m vp vq hp hq. first_diff_bit_none p q m vp vq hp hq;
  first_diff_bit_some = λ p q m d vp vq hp hq. first_diff_bit_some p q m vp vq hp hq d;
  common_lem = common-IsValid broadcast;
}
