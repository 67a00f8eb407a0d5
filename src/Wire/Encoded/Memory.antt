-- ===== src/Wire/Encoded/Memory.antt =====
-- The memory that an EncodedUnsigned leaves behind, and the value that a host makes of it.
use mathlib.Core.List.{reverse, reverse-append, reverse-reverse}
use native.Mathlib.Nat.{div-eq_of_lt}
use lib_dwm.Base.{
  ℕ, zero, suc, ◌+◌, ◌-◌, ◌^◌, ◌<◌, ◌≡◌, refl, sym, ap, ◌∙◌, Bool, true, false, List, [], ◌∷◌, ◌++◌,
  arith, length, All, if◌then◌else◌, length-append, take-append_length, drop-append_length,
}
use lib_dwm.Wire.Bytes.{
  Endian, little, big, store, load, bswap, to_bytes, of_bytes, image, IsByte, length-to_bytes,
  to_bytes-IsByte, of_bytes-to_bytes, to_bytes_split, bswap_lem,
}
use lib_dwm.Wire.Encoded.{data_bytes, overlay, write_at, zeros, first_place, same_order}

length-zeros : (n : ℕ) → length (zeros n) ≡ n
length-zeros zero = refl
length-zeros (suc n) = ap suc (length-zeros n)

pub length-reverse : (bs : List ℕ) → length (reverse bs) ≡ length bs
length-reverse [] = refl
length-reverse (b ∷ bs) =
    ap length (reverse-append (b ∷ []) bs)
    ∙ omega (arith, length-append (reverse bs) (b ∷ []), length-reverse bs)

zeros_add : (m n : ℕ) → zeros (m + n) ≡ zeros m ++ zeros n
zeros_add zero n = ap (λ (t : ℕ). zeros t) (omega arith)
zeros_add (suc m) n =
    ap (λ (t : ℕ). zeros t) (let e : suc m + n ≡ suc (m + n) = omega arith in e)
    ∙ ap (◌∷◌ 0) (zeros_add m n)

zeros-All : (n : ℕ) → All IsByte (zeros n)
zeros-All zero = tt
zeros-All (suc n) = (omega arith, zeros-All n)

All-append : (xs bs : List ℕ) → All IsByte xs → All IsByte bs → All IsByte (xs ++ bs)
All-append [] bs h k = k
All-append (x ∷ xs) bs (hx, hxs) k = (hx, All-append xs bs hxs k)

pub All-reverse : (bs : List ℕ) → All IsByte bs → All IsByte (reverse bs)
All-reverse [] h = tt
All-reverse (b ∷ bs) (hb, hbs) =
    rw (reverse-append (b ∷ []) bs) (All-append (reverse bs) (b ∷ []) (All-reverse bs hbs) (hb, tt))

reverse-zeros : (n : ℕ) → reverse (zeros n) ≡ zeros n
reverse-zeros zero = refl
reverse-zeros (suc n) =
    reverse-append (0 ∷ []) (zeros n)
    ∙ ap (λ (t : List ℕ). t ++ (0 ∷ [])) (reverse-zeros n)
    ∙ sym (zeros_add n 1)
    ∙ ap (λ (t : ℕ). zeros t) {y = suc n} (omega arith)

-- Two writes side by side.
pub overlay_two :
    (b : ℕ) (bs zs cs : List ℕ) → length zs ≡ length bs → overlay (zs ++ cs) bs ≡ bs ++ cs
overlay_two b [] [] cs e = refl
overlay_two b [] (z ∷ zs) cs e = absurd (omega arith)
overlay_two b (x ∷ bs) [] cs e = absurd (omega arith)
overlay_two b (x ∷ bs) (z ∷ zs) cs e = ap (◌∷◌ x) (overlay_two b bs zs cs (omega arith))

write_twice :
    (n k : ℕ) (b : ℕ) (bs cs : List ℕ)
    → k ≡ length bs
    → write_at (write_at (zeros n ++ (zeros (suc k) ++ cs)) n (b ∷ [])) (suc n) bs
      ≡ zeros n ++ ((b ∷ bs) ++ cs)
write_twice zero k b bs cs e = ap (◌∷◌ b) (overlay_two b bs (zeros k) cs (length-zeros k ∙ e))
write_twice (suc n) k b bs cs e = ap (◌∷◌ 0) (write_twice n k b bs cs e)

pub nothing_after : (bs : List ℕ) → bs ++ [] ≡ bs
nothing_after [] = refl
nothing_after (b ∷ bs) = ap (◌∷◌ b) (nothing_after bs)

append_none :
    (k b : ℕ) (bs : List ℕ)
    → write_at (write_at (zeros k ++ zeros (suc (length bs))) k (b ∷ [])) (suc k) bs
      ≡ zeros k ++ (b ∷ bs)
append_none k b bs =
    rw (nothing_after (zeros (suc (length bs))), nothing_after (b ∷ bs)) at
      (write_twice k (length bs) b bs [] refl)

-- The memory that the bytes of an integer leave, `k` of them being spare.
abbrev pub memory_after : Endian → ℕ → List ℕ → List ℕ
memory_after little k bs = bs ++ zeros k
memory_after big k bs = zeros k ++ bs

pub placed :
    (order : Endian) (w k b : ℕ) (bs : List ℕ)
    → w ≡ suc (length bs) + k
    → write_at
        (write_at (zeros w) (first_place order w (suc (length bs))) (b ∷ []))
        (first_place order w (suc (length bs)) + 1)
        bs
      ≡ memory_after order k (b ∷ bs)
placed little w k b bs e =
    rw (e, zeros_add (suc (length bs)) k) (write_twice zero (length bs) b bs (zeros k) refl)
placed big w k b bs e =
    rw
      (
        let at_ : w - suc (length bs) ≡ k = omega arith in at_,
        let next : k + 1 ≡ suc k = omega arith in next,
        let total : w ≡ k + suc (length bs) = omega arith in total,
        zeros_add k (suc (length bs)),
      )
      (append_none k b bs)

no_bytes : (k : ℕ) → to_bytes k 0 ≡ zeros k
unfolding to_bytes
no_bytes zero = refl
no_bytes (suc k) = ap (◌∷◌ 0) (no_bytes k)

-- The bytes of an integer that fits into fewer.
pub bytes_of_short :
    (w n k v : ℕ) → w ≡ n + k → v < 256 ^ n → to_bytes w v ≡ to_bytes n v ++ zeros k
bytes_of_short w n k v e h =
    rw (e, to_bytes_split n k v, div-eq_of_lt h)
      (ap (λ (t : List ℕ). to_bytes n v ++ t) (no_bytes k))

-- The bytes that are written, of either host.
pub data_bytes_lem :
    (host : Endian) (w n k v : ℕ)
    → w ≡ n + k
    → v < 256 ^ n
    → data_bytes host w n v ≡ image host (to_bytes n v)
unfolding store
data_bytes_lem little w n k v e h =
    rw (bytes_of_short w n k v e h)
      (rw (length-to_bytes n v) at (take-append_length (to_bytes n v) (zeros k)))
data_bytes_lem big w n k v e h =
    rw
      (
        bytes_of_short w n k v e h,
        reverse-append (to_bytes n v) (zeros k),
        reverse-zeros k,
        let d : w - n ≡ k = omega arith in d,
      )
      (rw (length-zeros k) at (drop-append_length (zeros k) (reverse (to_bytes n v))))

pub memory_after_lem :
    (order : Endian) (k : ℕ) (bs : List ℕ)
    → memory_after order k (image order bs) ≡ image order (bs ++ zeros k)
memory_after_lem little k bs = refl
memory_after_lem big k bs = rw (reverse-append bs (zeros k), reverse-zeros k) refl

pub swapped : (w v : ℕ) → v < 256 ^ w → bswap w (of_bytes (reverse (to_bytes w v))) ≡ v
swapped w v h =
    bswap_lem w (reverse (to_bytes w v)) (length-reverse (to_bytes w v) ∙ length-to_bytes w v)
      (All-reverse (to_bytes w v) (to_bytes-IsByte w v))
    ∙ ap of_bytes (reverse-reverse (to_bytes w v))
    ∙ of_bytes-to_bytes w v h

-- A swap undoes a swap.
pub bswap-bswap : (w v : ℕ) → v < 256 ^ w → bswap w (bswap w v) ≡ v
unfolding bswap
bswap-bswap = swapped

-- What a host makes of the bytes that another stored.
pub load-image :
    (host order : Endian) (w v : ℕ)
    → v < 256 ^ w
    → load host (image order (to_bytes w v)) ≡ (if same_order host order then v else bswap w v)
unfolding load bswap
load-image little little w v h = of_bytes-to_bytes w v h
load-image big big w v h = rw (reverse-reverse (to_bytes w v)) (of_bytes-to_bytes w v h)
load-image little big w v h = refl
load-image big little w v h = refl

pub if_twice :
    (b : Bool) (f : ℕ → ℕ) (x y z : ℕ)
    → x ≡ (if b then y else z)
    → (if b then x else f x) ≡ (if b then y else f z)
if_twice true f x y z e = e
if_twice false f x y z e = ap f e

pub if_both : (b : Bool) (x y : ℕ) → y ≡ x → (if b then x else y) ≡ x
if_both true x y e = refl
if_both false x y e = e

pub length-image : (order : Endian) (bs : List ℕ) → length (image order bs) ≡ length bs
length-image little bs = refl
length-image big bs = length-reverse bs
