-- ===== src/Ipv6/Prefix/Key.antt =====
-- The view that the trie has of the class Ipv6Prefix.
use lib_dwm.Base.{ℕ, ◌<◌, ◌≡◌, refl, sym, ◌∙◌, true, arith, ==_iff, &&_left, &&_intro}
use lib_dwm.Patricia.Key.{PrefixKey}
use lib_dwm.Ipv6.Bytes.{Agree}
use lib_dwm.Ipv6.Prefix.{Ipv6Prefix, IsValid, bit, same_prefix, contains, first_diff_bit, make}
use lib_dwm.Ipv6.Prefix.Masks.{bytes_same_iff}
use lib_dwm.Ipv6.Prefix.Laws.{
  bit-bit_at, SameBits, eq_of_bits, contains-SameBits, eq_of_same, first_diff_bit_none,
  first_diff_bit_some, make-IsValid,
}

pub same_prefix_refl : (p : Ipv6Prefix) → same_prefix p p ≡ true
unfolding same_prefix
same_prefix_refl p =
    &&_intro ((==_iff p.mask_length p.mask_length).1 refl) ((bytes_same_iff _ _ refl).1 refl)

pub same_prefix_mask_length :
    (p q : Ipv6Prefix) → same_prefix p q ≡ true → p.mask_length ≡ q.mask_length
unfolding same_prefix
same_prefix_mask_length p q h = (==_iff p.mask_length q.mask_length).0 (&&_left _ _ h)

-- The prefix of length d on the network of another.
pub common-IsValid :
    (p : Ipv6Prefix) (d : ℕ)
    → IsValid p
    → d < p.mask_length
    → IsValid (make p.addr d) × ((make p.addr d).mask_length ≡ d) × SameBits d (make p.addr d) p
common-IsValid p d v h = (
  made.0,
  on_d,
  λ i lt.
      bit-bit_at (make p.addr d) i (omega (arith, on_d)) (omega (arith, fits))
      ∙ made.1 i lt
      ∙ sym (bit-bit_at p i (omega arith) (omega (arith, fits))),
)
  where
    fits : p.mask_length < 129
    fits = v.length_fits

    made : IsValid (make p.addr d) × Agree d (make p.addr d).addr p.addr
    made = make-IsValid p.addr d (omega (arith, fits)) v.sixteen v.bytes

    on_d : (make p.addr d).mask_length ≡ d
    on_d = unfold make in refl

abbrev pub ipv6_key : PrefixKey
ipv6_key = record {
  Prefix = Ipv6Prefix;
  mask_length = λ p. p.mask_length;
  bit = bit;
  same = same_prefix;
  contains = contains;
  first_diff_bit = first_diff_bit;
  common = λ p d. make p.addr d;
  IsValid = IsValid;
  same_refl = same_prefix_refl;
  same_mask_length = same_prefix_mask_length;
  eq_of_same = eq_of_same;
  contains_iff = contains-SameBits;
  eq_of_bits = eq_of_bits;
  first_diff_bit_none = λ p q m vp vq hp hq. first_diff_bit_none p q vp vq m hp hq;
  first_diff_bit_some = λ p q m d vp vq hp hq. first_diff_bit_some p q vp vq m hp hq d;
  common_lem = common-IsValid;
}
