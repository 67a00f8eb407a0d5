-- ===== src/Ipv6/Prefix/Laws.antt =====
-- The operations of an IPv6 prefix that the trie uses, read bit by bit.
use native.Mathlib.Decide.{dec_lt}
use lib_dwm.Base.{
  ℕ, suc, ◌+◌, ◌/◌, ◌%◌, ◌≤◌, ◌<◌, ◌≡◌, ◌≢◌, sym, ap, ◌∙◌, Bool, true, false, none, some, ◌&&◌, ◌↔◌,
  arith, length, All, ltb, leb, if◌then◌else◌, le→leb, leb→le, leb_of_lt, ==_iff, &&_left, &&_right,
  &&_intro, get_or, take,
}
use lib_dwm.Wire.Bytes.{IsByte}
use lib_dwm.Ipv6.Bytes.{bit_at, keep, Agree, keep_iff, length-keep, keep-IsByte, keep-keep}
use lib_dwm.Ipv6.Bytes.Bits.{byte_bit_lem, bit_at-get_or, length-take}
use lib_dwm.Ipv6.Address.{Ipv6Address, same, mask}
use lib_dwm.Ipv6.Prefix.{
  Ipv6Prefix, IsValid, bit, same_prefix, contains, first_diff_bit, make, netmask, set_bits,
}
use lib_dwm.Ipv6.Prefix.Masks.{mask_bits_lem, mask-set_bits, bytes_same_iff, keep-take}
use lib_dwm.Ipv6.Prefix.Differ.{same_bits, same_bits_iff, first_diff_bit_lem}

-- Below the mask length, a bit of the prefix is that of the address.
pub bit-bit_at : (p : Ipv6Prefix) (i : ℕ) → i < p.mask_length → i < 128 → bit p i ≡ bit_at p.addr i
unfolding bit
bit-bit_at p i h small =
    rw (leb_of_lt i p.mask_length h, let e : i % 128 ≡ i = omega arith in e)
      (byte_bit_lem (get_or p.addr (i / 8) 0) (i % 8) (omega arith) ∙ sym (bit_at-get_or p.addr i))

-- The first m bits of two prefixes agree.
abbrev pub SameBits : ℕ → Ipv6Prefix → Ipv6Prefix → Type 0
SameBits m p q = (i : ℕ) → i < m → bit p i ≡ bit q i

-- A valid prefix has no bits behind its mask.
pub kept : (p : Ipv6Prefix) → IsValid p → keep p.mask_length p.addr ≡ p.addr
kept p v = sym (mask_bits_lem p.mask_length p.addr v.bytes) ∙ v.masked

guarded : (b c : Bool) → (if b then c else false) ≡ (b && c)
guarded b c = ground arith

picked : (s m d : ℕ) → (if ltb s m then some s else none) ≡ some d → (s ≡ d) × (d < m)
picked s m d h = ground arith

module _ (p q : Ipv6Prefix) (vp : IsValid p) (vq : IsValid q) where
  SameBits-iff :
      (m : ℕ) → m ≤ p.mask_length → m ≤ q.mask_length → Agree m p.addr q.addr ↔ SameBits m p q
  SameBits-iff m hp hq =
      let fits : p.mask_length < 129 = vp.length_fits in
      (
        λ h i lt.
            bit-bit_at p i (omega arith) (omega arith)
            ∙ h i lt
            ∙ sym (bit-bit_at q i (omega arith) (omega arith)),
        λ h i lt.
            sym (bit-bit_at p i (omega arith) (omega arith))
            ∙ h i lt
            ∙ bit-bit_at q i (omega arith) (omega arith),
      )

  same_length : length p.addr ≡ length q.addr
  same_length = vp.sixteen ∙ sym vq.sixteen

  eq_of_kept :
      p.mask_length ≡ q.mask_length → keep p.mask_length p.addr ≡ keep p.mask_length q.addr → p ≡ q
  eq_of_kept e h =
      let net : p.addr ≡ q.addr =
        sym (kept p vp) ∙ h ∙ ap (λ (t : ℕ). keep t q.addr) e ∙ kept q vq in
      λ i. record { addr = net i; mask_length = e i }

  pub eq_of_bits : p.mask_length ≡ q.mask_length → SameBits p.mask_length p q → p ≡ q
  eq_of_bits e agree = eq_of_kept e (
      (keep_iff p.mask_length p.addr q.addr same_length vp.bytes vq.bytes).1
        ((SameBits-iff p.mask_length (omega arith) (omega arith)).1 agree))

  masked_by : mask q.addr (netmask p) ≡ keep p.mask_length q.addr
  unfolding netmask
  masked_by =
      ap (λ (t : ℕ). mask q.addr (set_bits t p.mask_length)) (sym vq.sixteen)
      ∙ mask-set_bits p.mask_length q.addr vq.bytes

  masked_same_iff :
      (same (mask q.addr (netmask p)) p.addr ≡ true) ↔ Agree p.mask_length p.addr q.addr
  unfolding same
  masked_same_iff =
      let n : ℕ = p.mask_length in
      let (to, from) =
        bytes_same_iff (keep n q.addr) p.addr (length-keep n q.addr ∙ sym same_length) in
      let (bits, kept_eq) = keep_iff n p.addr q.addr same_length vp.bytes vq.bytes in
      rw masked_by (λ h. bits (kept p vp ∙ sym (to h)), λ h. from (sym (kept_eq h) ∙ kept p vp))

  -- `Contains` of valid prefixes: the mask is not longer, and the bits under it agree.
  pub contains-SameBits :
      (contains p q ≡ true) ↔ ((p.mask_length ≤ q.mask_length) × SameBits p.mask_length p q)
  unfolding contains
  contains-SameBits =
      let (to, from) = masked_same_iff in
      let split : contains p q
          ≡ (leb p.mask_length q.mask_length && same (mask q.addr (netmask p)) p.addr) =
        guarded (leb p.mask_length q.mask_length) (same (mask q.addr (netmask p)) p.addr) in
      (
        λ h.
            let le : p.mask_length ≤ q.mask_length = leb→le _ _ (&&_left _ _ (sym split ∙ h)) in
            (
              le,
              (SameBits-iff p.mask_length (omega arith) le).0 (to (&&_right _ _ (sym split ∙ h))),
            ),
        λ (le, agree).
            split
            ∙ &&_intro (le→leb _ _ le)
                (from ((SameBits-iff p.mask_length (omega arith) le).1 agree)),
      )

  pub eq_of_same : same_prefix p q ≡ true → p ≡ q
  unfolding same_prefix
  eq_of_same h =
      let n : ℕ = (p.mask_length + 7) / 8 in
      let fits : n ≤ 16 = omega (arith, vp.length_fits) in
      let sixteen : (length p.addr ≡ 16) × (length q.addr ≡ 16) = (vp.sixteen, vq.sixteen) in
      let equal_length : length (take n p.addr) ≡ length (take n q.addr) =
        length-take n p.addr (omega arith) ∙ sym (length-take n q.addr (omega arith)) in
      eq_of_kept ((==_iff _ _).0 (&&_left _ _ h)) (
        keep-take p.mask_length p.addr q.addr same_length vp.bytes vq.bytes
          ((bytes_same_iff (take n p.addr) (take n q.addr) equal_length).0 (&&_right _ _ h)))

  module _ (m : ℕ) (hp : m ≤ p.mask_length) (hq : m ≤ q.mask_length) where
    fits : m < 129
    fits = omega (arith, vp.length_fits)

    agree_iff : (k : ℕ) → k ≤ m → (k ≤ same_bits p.addr q.addr) ↔ SameBits k p q
    agree_iff k le =
        let (to, from) =
          same_bits_iff p.addr q.addr vp.sixteen vq.sixteen vp.bytes vq.bytes k
            (omega (arith, fits)) in
        let (bits, bits') = SameBits-iff k (omega arith) (omega arith) in
        (λ h. bits (to h), λ h. from (bits' h))

    pub first_diff_bit_none : first_diff_bit p q m ≡ none → SameBits m p q
    first_diff_bit_none h =
        let h' = sym (first_diff_bit_lem p q m fits) ∙ h in
        (agree_iff m (omega arith)).0 (ground arith)

    pub first_diff_bit_some :
        (d : ℕ) → first_diff_bit p q m ≡ some d → (d < m) × SameBits d p q × (bit p d ≢ bit q d)
    first_diff_bit_some d h = (found.1, agree, λ same_bit. absurd (beyond same_bit))
      where
        found : (same_bits p.addr q.addr ≡ d) × (d < m)
        found = picked _ m d (sym (first_diff_bit_lem p q m fits) ∙ h)

        agree : SameBits d p q
        agree = (agree_iff d (omega (arith, found.1))).0 (omega (arith, found.0))

        beyond : bit p d ≡ bit q d → ⊥
        beyond same_bit = omega (
          arith,
          found.0,
          (agree_iff (suc d) (omega (arith, found.1))).1 λ i lt. elim (dec_lt i d) [
            | yes l ↦ agree i l
            | no l ↦ rw (let e : i ≡ d = omega arith in e) same_bit
          ],
        )

-- The constructor gives a valid prefix whose leading bits are those of the address.
pub make-IsValid :
    (a : Ipv6Address) (len : ℕ)
    → len < 129
    → length a ≡ 16
    → All IsByte a
    → IsValid (make a len) × Agree len (make a len).addr a
unfolding make
make-IsValid a len h la ha = rw (mask_bits_lem len a ha) (
  record {
    length_fits = h;
    sixteen = length-keep len a ∙ la;
    bytes = keep-IsByte len a ha;
    masked = mask_bits_lem len (keep len a) (keep-IsByte len a ha) ∙ keep-keep len a;
  },
  (keep_iff len (keep len a) a (length-keep len a) (keep-IsByte len a ha) ha).0 (keep-keep len a),
)
