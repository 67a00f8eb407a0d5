-- ===== src/Ipv6/Prefix/Wire.antt =====
-- Ipv6Prefix on C++ streams: the mask length, and as many bytes of the address as it reaches into.
use mathlib.Core.List.{append_assoc}
use lib_dwm.Base.{
  ℕ, zero, suc, ◌+◌, ◌-◌, ◌/◌, ◌≡◌, refl, sym, ap, ◌∙◌, List, [], ◌∷◌, ◌++◌, arith, length, All,
  take, drop, take-append_length, drop-append_length, length-append,
}
use lib_dwm.Wire.Bytes.{IsByte}
use lib_dwm.Wire.Stream.{read_bytes-delivers, write_bytes}
use lib_dwm.Wire.Encoded.{overlay, zeros}
use lib_dwm.Wire.Containers.Codec.{Codec, input, output}
use lib_dwm.Ipv6.Bytes.{keep, tail_eq, cons_eq}
use lib_dwm.Ipv6.Bytes.Bits.{length-take}
use lib_dwm.Ipv6.Prefix.{Ipv6Prefix, IsValid, read_prefix, write_prefix}
use lib_dwm.Ipv6.Prefix.Masks.{keep_none}
use lib_dwm.Ipv6.Prefix.Laws.{kept}

-- The bytes behind those written are zeros.
overlay-zeros :
    (n : ℕ) (bs : List ℕ)
    → All IsByte bs
    → keep n bs ≡ bs
    → overlay (zeros (length bs)) (take ((n + 7) / 8) bs) ≡ bs
unfolding keep
overlay-zeros n [] h e = overlay_none (take ((n + 7) / 8) [])
  where
    overlay_none : (bs : List ℕ) → overlay [] bs ≡ []
    overlay_none [] = refl
    overlay_none (b ∷ bs) = refl
overlay-zeros zero (b ∷ bs) h e = sym (keep_none (b ∷ bs) h) ∙ e
overlay-zeros (suc n) (b ∷ bs) (hb, hbs) e =
    rw (let z : (suc n + 7) / 8 ≡ suc ((suc n - 8 + 7) / 8) = omega arith in z)
      (cons_eq refl (overlay-zeros (suc n - 8) bs hbs (tail_eq e)))

abbrev pub prefix_bytes : Ipv6Prefix → List ℕ
prefix_bytes p = p.mask_length ∷ take ((p.mask_length + 7) / 8) p.addr

pub write_prefix-output :
    (p : Ipv6Prefix) (sofar : List ℕ)
    → write_prefix p (output sofar) ≡ output (sofar ++ prefix_bytes p)
unfolding write_prefix write_bytes
write_prefix-output p sofar =
    ap output (append_assoc sofar (p.mask_length ∷ []) (take ((p.mask_length + 7) / 8) p.addr))

pub read_prefix-input :
    (p old : Ipv6Prefix) (rest : List ℕ)
    → IsValid p
    → read_prefix old (input (prefix_bytes p ++ rest)) ≡ (p, input rest)
unfolding read_prefix
read_prefix-input p old rest v =
    let n : ℕ = (p.mask_length + 7) / 8 in
    let (one, left) = read_bytes-delivers 1 (prefix_bytes p ++ rest) _ refl (omega arith) in
    let enough : length (take n p.addr) ≡ n =
      length-take n p.addr (omega (arith, v.length_fits, v.sixteen)) in
    let (got, left') =
      read_bytes-delivers n (take n p.addr ++ rest) _ refl
        (omega (arith, length-append (take n p.addr) rest, enough)) in
    let first : take n (take n p.addr ++ rest) ≡ take n p.addr =
      rw enough at (take-append_length (take n p.addr) rest) in
    let others : drop n (take n p.addr ++ rest) ≡ rest =
      rw enough at (drop-append_length (take n p.addr) rest) in
    let whole : overlay (zeros 16) (take n p.addr) ≡ p.addr =
      ap (λ (t : ℕ). overlay (zeros t) (take n p.addr)) (sym v.sixteen)
      ∙ overlay-zeros p.mask_length p.addr v.bytes (kept p v) in
    rw (one, left, got, left', first, others, whole) refl

-- Valid prefixes.
abbrev pub prefix_codec : Codec Ipv6Prefix
prefix_codec = record {
  write = write_prefix;
  read = read_prefix;
  wire = prefix_bytes;
  Fits = IsValid;
  writes = λ p sofar h. write_prefix-output p sofar;
  reads = read_prefix-input;
}
