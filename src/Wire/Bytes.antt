-- ===== src/Wire/Bytes.antt =====
-- classes/include/DwmEndianness.hh: the bytes of an unsigned integer of `w` bytes in the memory of
-- a host, whose byte order is a parameter, and the conversions of the header.
use mathlib.Core.List.{reverse}
use native.Mathlib.Nat.{div-div-eq-div-mul}
use lib_dwm.Base.{
  ℕ, zero, suc, ◌+◌, ◌*◌, ◌/◌, ◌%◌, ◌^◌, ◌<◌, ◌≡◌, refl, sym, ap, ◌∙◌, List, [], ◌∷◌, ◌++◌, arith,
  length, All,
}

-- std::endian.
pub data Endian : Type 0 where
  little : Endian
  big : Endian

-- `w` bytes, the least significant first.
unfoldable pub to_bytes : ℕ → ℕ → List ℕ
to_bytes zero v = []
to_bytes (suc w) v = v % 256 ∷ to_bytes w (v / 256)

unfoldable pub of_bytes : List ℕ → ℕ
of_bytes [] = 0
of_bytes (b ∷ bs) = b + of_bytes bs * 256

abbrev pub image : Endian → List ℕ → List ℕ
image little bs = bs
image big bs = reverse bs

-- The object representation of an unsigned integer on a host, and back.
unfoldable pub store : Endian → ℕ → ℕ → List ℕ
unfolding to_bytes
store host w v = image host (to_bytes w v)

unfoldable pub load : Endian → List ℕ → ℕ
unfolding of_bytes
load host bs = of_bytes (image host bs)

-- `Bswap`, std::byteswap.
unfoldable pub bswap : ℕ → ℕ → ℕ
unfolding to_bytes of_bytes
bswap w v = of_bytes (reverse (to_bytes w v))

-- `BE2Host` and `Host2BE`.
unfoldable pub be2host : Endian → ℕ → ℕ → ℕ
unfolding bswap
be2host little w v = bswap w v
be2host big w v = v

unfoldable pub host2be : Endian → ℕ → ℕ → ℕ
unfolding bswap
host2be little w v = bswap w v
host2be big w v = v

abbrev pub IsByte : ℕ → Type 0
IsByte b = b < 256

pub length-to_bytes : (w v : ℕ) → length (to_bytes w v) ≡ w
unfolding to_bytes
length-to_bytes zero v = refl
length-to_bytes (suc w) v = ap suc (length-to_bytes w (v / 256))

pub to_bytes-IsByte : (w v : ℕ) → All IsByte (to_bytes w v)
unfolding to_bytes
to_bytes-IsByte zero v = tt
to_bytes-IsByte (suc w) v = (omega arith, to_bytes-IsByte w (v / 256))

pub pow_256 : (w : ℕ) → 256 ^ suc w ≡ 256 ^ w * 256
pow_256 w = omega arith

pub of_bytes-to_bytes : (w v : ℕ) → v < 256 ^ w → of_bytes (to_bytes w v) ≡ v
unfolding to_bytes of_bytes
of_bytes-to_bytes zero v h = omega arith
of_bytes-to_bytes (suc w) v h =
    omega (arith, of_bytes-to_bytes w (v / 256) (omega (arith, pow_256 w)))

pub to_bytes-of_bytes : (bs : List ℕ) → All IsByte bs → to_bytes (length bs) (of_bytes bs) ≡ bs
unfolding to_bytes of_bytes
to_bytes-of_bytes [] h = refl
to_bytes-of_bytes (b ∷ bs) (hb, hbs) =
    rw
      (
        let e : (b + of_bytes bs * 256) % 256 ≡ b = omega arith in e,
        let e : (b + of_bytes bs * 256) / 256 ≡ of_bytes bs = omega arith in e,
      )
      (ap (◌∷◌ b) (to_bytes-of_bytes bs hbs))

pub of_bytes-lt : (bs : List ℕ) → All IsByte bs → of_bytes bs < 256 ^ length bs
unfolding of_bytes
of_bytes-lt [] h = omega arith
of_bytes-lt (b ∷ bs) (hb, hbs) = omega (arith, pow_256 (length bs), of_bytes-lt bs hbs)

-- The first bytes are those of the shorter integer, the others those of what is above it.
pub to_bytes_split : (n k v : ℕ) → to_bytes (n + k) v ≡ to_bytes n v ++ to_bytes k (v / 256 ^ n)
unfolding to_bytes
to_bytes_split zero k v =
    rw (let e : 0 + k ≡ k = omega arith in e, let e : v / 256 ^ 0 ≡ v = omega arith in e) refl
to_bytes_split (suc n) k v =
    ap (λ (t : ℕ). to_bytes t v) (let e : suc n + k ≡ suc (n + k) = omega arith in e)
    ∙ ap (◌∷◌ (v % 256)) (
        to_bytes_split n k (v / 256)
        ∙ ap (λ (t : ℕ). to_bytes n (v / 256) ++ to_bytes k t)
            (div-div-eq-div-mul v 256 (256 ^ n) ∙ ap (λ (t : ℕ). v / t) (omega (arith, pow_256 n))))

-- A swap of the bytes reads what was stored by a host of the other order.
pub bswap_lem :
    (w : ℕ) (bs : List ℕ)
    → length bs ≡ w
    → All IsByte bs
    → bswap w (of_bytes bs) ≡ of_bytes (reverse bs)
unfolding bswap
bswap_lem w bs e h =
    ap (λ (t : List ℕ). of_bytes (reverse t))
      (ap (λ (t : ℕ). to_bytes t (of_bytes bs)) (sym e) ∙ to_bytes-of_bytes bs h)
