-- ===== src/Ipv4/Prefix/Netmask.antt =====
-- The builds of `Contains(const Ipv4Prefix &)` agree.
use native.Mathlib.Decide.{dec_lt}
use native.Mathlib.Nat.{div-eq_of_lt, mul-div_cancel, one-le-pow}
use lib_dwm.Base.{
  ℕ, zero, suc, ◌+◌, ◌-◌, ◌*◌, ◌/◌, ◌^◌, ◌≤◌, ◌<◌, ◌≡◌, refl, sym, ap, ◌∙◌, Bool, true, false, ◌&&◌,
  ◌↔◌, arith, leb, ◌==◌, bit_and, bit_xor, ==_iff, &&_left, &&_right, leb→le, le→leb,
}
use lib_dwm.Base.Bits.{bit_xor-lt_iff, countl_zero, le-countl_zero_iff}
use lib_dwm.Base.Masks.{bit_and_leading}
use lib_dwm.Ipv4.Prefix.{Ipv4Prefix, IsValid, netmask, contains, contains_by_netmask}

abbrev of_length : ℕ → Ipv4Prefix
of_length n = record { network = 0; mask_length = n }

netmasks_below : ℕ → Bool
netmasks_below zero = true
netmasks_below (suc n) = netmask (of_length n) == (2 ^ n - 1) * 2 ^ (32 - n) && netmasks_below n

netmasks_below_sound :
    (k n : ℕ) → netmasks_below k ≡ true → n < k → netmask (of_length n) ≡ (2 ^ n - 1) * 2 ^ (32 - n)
unfolding netmasks_below
netmasks_below_sound zero n h lt = absurd (omega arith)
netmasks_below_sound (suc k) n h lt = elim (dec_lt n k) [
  | yes p ↦ netmasks_below_sound k n (&&_right _ _ h) p
  | no p ↦
      rw (let e : n ≡ k = omega arith in e)
        ((==_iff (netmask (of_length k)) ((2 ^ k - 1) * 2 ^ (32 - k))).0 (&&_left _ _ h))
]

netmask_lem :
    (p : Ipv4Prefix)
    → p.mask_length < 33
    → netmask p ≡ (2 ^ p.mask_length - 1) * 2 ^ (32 - p.mask_length)
unfolding netmasks_below netmask
netmask_lem p h = netmasks_below_sound 33 p.mask_length refl h

same_truth : (a b : Bool) → ((a ≡ true) ↔ (b ≡ true)) → a ≡ b
same_truth true true h = refl
same_truth true false h = sym (h.0 refl)
same_truth false true h = h.1 refl
same_truth false false h = refl

-- For valid prefixes the comparison by leading zeros, of the build with SSE2, gives what the
-- comparison under the netmask gives, of the builds for Apple and ARM.
pub contains-contains_by_netmask :
    (p q : Ipv4Prefix) → IsValid p → IsValid q → contains p q ≡ contains_by_netmask p q
unfolding contains contains_by_netmask
contains-contains_by_netmask p q vp vq =
    ap (λ (b : Bool). leb p.mask_length q.mask_length && b)
      (same_truth _ _ (
        λ h. (==_iff _ _).1 (masked ∙ ap (λ (t : ℕ). t * 2 ^ d) (agree (leb→le _ _ h)) ∙ vp.masked),
        λ h. le→leb _ _ (agree' (cancel (sym masked ∙ (==_iff _ _).0 h ∙ sym vp.masked))),
      ))
  where
    d : ℕ
    d = 32 - p.mask_length

    fits : p.mask_length + d ≡ 32
    fits = omega (arith, vp.length_fits)

    masked : bit_and q.network (netmask p) ≡ q.network / 2 ^ d * 2 ^ d
    masked =
        ap (bit_and q.network) (netmask_lem p vp.length_fits)
        ∙ bit_and_leading p.mask_length d q.network (rw fits vq.address)

    small : bit_xor q.network p.network < 2 ^ 32
    small =
        (bit_xor-lt_iff 32 q.network p.network).1
          (div-eq_of_lt vq.address ∙ sym (div-eq_of_lt vp.address))

    agree :
        p.mask_length ≤ countl_zero 32 (bit_xor q.network p.network)
        → q.network / 2 ^ d ≡ p.network / 2 ^ d
    agree h =
        (bit_xor-lt_iff d q.network p.network).0
          ((le-countl_zero_iff 32 p.mask_length d _ (sym fits) small).0 h)

    agree' :
        q.network / 2 ^ d ≡ p.network / 2 ^ d
        → p.mask_length ≤ countl_zero 32 (bit_xor q.network p.network)
    agree' h =
        (le-countl_zero_iff 32 p.mask_length d _ (sym fits) small).1
          ((bit_xor-lt_iff d q.network p.network).1 h)

    cancel : {x y : ℕ} → x * 2 ^ d ≡ y * 2 ^ d → x ≡ y
    cancel {x} {y} h =
        sym (mul-div_cancel x (one-le-pow d 2 (omega arith)))
        ∙ ap (λ (t : ℕ). t / 2 ^ d) h
        ∙ mul-div_cancel y (one-le-pow d 2 (omega arith))
