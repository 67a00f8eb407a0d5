-- ===== src/Patricia/Key.antt =====
-- What the trie uses of a prefix class, and the laws that its correctness rests on. The laws say
-- of each operation what it means for the leading bits of the prefixes.
use lib_dwm.Base.{
  ℕ, ◌≤◌, ◌<◌, ◌≡◌, sym, ◌∙◌, Bool, true, Option, none, some, ap, ◌↔◌, ◌≢◌, arith, false, min,
  lt_of_not_ge, true≢false,
}

pub record PrefixKey : Type 1 where
  pub Prefix : Type 0
  pub mask_length : Prefix → ℕ
  pub bit : Prefix → ℕ → Bool
  pub same : Prefix → Prefix → Bool
  pub contains : Prefix → Prefix → Bool
  pub first_diff_bit : Prefix → Prefix → ℕ → Option ℕ
  -- The prefix of the given length on the network address of another.
  pub common : Prefix → ℕ → Prefix
  pub IsValid : Prefix → Type 0
  pub same_refl : (p : Prefix) → same p p ≡ true
  pub same_mask_length : (p q : Prefix) → same p q ≡ true → mask_length p ≡ mask_length q
  pub eq_of_same : (p q : Prefix) → IsValid p → IsValid q → same p q ≡ true → p ≡ q
  pub contains_iff :
      (p q : Prefix)
      → IsValid p
      → IsValid q
      → (contains p q ≡ true)
        ↔ ((mask_length p ≤ mask_length q) × ((i : ℕ) → i < mask_length p → bit p i ≡ bit q i))
  pub eq_of_bits :
      (p q : Prefix)
      → IsValid p
      → IsValid q
      → mask_length p ≡ mask_length q
      → ((i : ℕ) → i < mask_length p → bit p i ≡ bit q i)
      → p ≡ q
  pub first_diff_bit_none :
      (p q : Prefix) (m : ℕ)
      → IsValid p
      → IsValid q
      → m ≤ mask_length p
      → m ≤ mask_length q
      → first_diff_bit p q m ≡ none
      → (i : ℕ) → i < m
      → bit p i ≡ bit q i
  pub first_diff_bit_some :
      (p q : Prefix) (m d : ℕ)
      → IsValid p
      → IsValid q
      → m ≤ mask_length p
      → m ≤ mask_length q
      → first_diff_bit p q m ≡ some d
      → (d < m) × ((i : ℕ) → i < d → bit p i ≡ bit q i) × (bit p d ≢ bit q d)
  pub common_lem :
      (p : Prefix) (d : ℕ)
      → IsValid p
      → d < mask_length p
      → IsValid (common p d)
        × (mask_length (common p d) ≡ d)
        × ((i : ℕ) → i < d → bit (common p d) i ≡ bit p i)

module _ (K : PrefixKey) where
  open K use {
    Prefix, mask_length, bit, same, contains, first_diff_bit, common, IsValid, same_refl,
    contains_iff, eq_of_bits, first_diff_bit_none, first_diff_bit_some, common_lem,
  }

  pub same_of_eq : (p q : Prefix) → p ≡ q → same p q ≡ true
  same_of_eq p q e = ap (λ (x : Prefix). same x q) e ∙ same_refl q

  pub contains_mask :
      (p q : Prefix) → IsValid p → IsValid q → contains p q ≡ true → mask_length p ≤ mask_length q
  contains_mask p q vp vq h = ((contains_iff p q vp vq).0 h).0

  pub contains_bit :
      (p q : Prefix) (i : ℕ)
      → IsValid p
      → IsValid q
      → contains p q ≡ true
      → i < mask_length p
      → bit p i ≡ bit q i
  contains_bit p q i vp vq h = ((contains_iff p q vp vq).0 h).1 i

  pub contains_trans :
      (p q r : Prefix)
      → IsValid p
      → IsValid q
      → IsValid r
      → contains p q ≡ true
      → contains q r ≡ true
      → contains p r ≡ true
  contains_trans p q r vp vq vr h k = (contains_iff p r vp vr).1 (
    omega (arith, contains_mask p q vp vq h, contains_mask q r vq vr k),
    λ i lt.
        contains_bit p q i vp vq h lt
        ∙ contains_bit q r i vq vr k (omega (arith, contains_mask p q vp vq h)),
  )

  -- Of two prefixes that contain a third, the wider one contains the other.
  pub contains_comparable :
      (p q r : Prefix)
      → IsValid p
      → IsValid q
      → IsValid r
      → contains p r ≡ true
      → contains q r ≡ true
      → mask_length p ≤ mask_length q
      → contains p q ≡ true
  contains_comparable p q r vp vq vr h k le =
      (contains_iff p q vp vq).1
        (le, λ i lt. contains_bit p r i vp vr h lt ∙ sym (contains_bit q r i vq vr k (omega arith)))

  pub contains_antisymm :
      (p q : Prefix)
      → IsValid p
      → IsValid q
      → contains p q ≡ true
      → mask_length q ≤ mask_length p
      → p ≡ q
  contains_antisymm p q vp vq h le =
      eq_of_bits p q vp vq (omega (arith, contains_mask p q vp vq h))
        λ i lt. contains_bit p q i vp vq h lt

  pub contains_self : (p : Prefix) → IsValid p → contains p p ≡ true
  contains_self p v = (contains_iff p p v v).1 (omega arith, λ i lt j. bit p i)

  -- What the first different bit of two prefixes says, by the three ways that `addNode` takes.
  module _ (q p : Prefix) (vq : IsValid q) (vp : IsValid p) where
    abbrev shared : ℕ
    shared = min (mask_length q) (mask_length p)

    agree : first_diff_bit q p shared ≡ none → (i : ℕ) → i < shared → bit q i ≡ bit p i
    agree = first_diff_bit_none q p shared vq vp (omega arith) (omega arith)

    pub diff_none_below :
        first_diff_bit q p (min (mask_length q) (mask_length p)) ≡ none
        → mask_length q ≤ mask_length p
        → contains q p ≡ true
    diff_none_below e le = (contains_iff q p vq vp).1 (le, λ i lt. agree e i (omega arith))

    pub diff_none_above :
        first_diff_bit q p (min (mask_length q) (mask_length p)) ≡ none
        → mask_length p ≤ mask_length q
        → same q p ≡ false
        → (contains p q ≡ true) × (mask_length p < mask_length q)
    diff_none_above e le ne =
        let inside : contains p q ≡ true =
          (contains_iff p q vp vq).1 (le, λ i lt. sym (agree e i (omega arith))) in
        (
          inside,
          lt_of_not_ge λ ge.
              true≢false (sym (same_of_eq q p (sym (contains_antisymm p q vp vq inside ge))) ∙ ne),
        )

    pub diff_some :
        (d : ℕ)
        → first_diff_bit q p (min (mask_length q) (mask_length p)) ≡ some d
        → (d < mask_length q)
          × (d < mask_length p)
          × (bit q d ≢ bit p d)
          × IsValid (common q d)
          × (mask_length (common q d) ≡ d)
          × (contains (common q d) q ≡ true)
          × (contains (common q d) p ≡ true)
    diff_some d e =
        let (lt, upto, ne) = first_diff_bit_some q p shared d vq vp (omega arith) (omega arith) e in
        let (vc, mask, on_q) = common_lem q d vq (omega arith) in
        (
          omega arith,
          omega arith,
          ne,
          vc,
          mask,
          (contains_iff (common q d) q vc vq).1 (omega arith, λ i l. on_q i (omega arith)),
          (contains_iff (common q d) p vc vp).1
              (omega arith, λ i l. on_q i (omega arith) ∙ upto i (omega arith)),
        )
