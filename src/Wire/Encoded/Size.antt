-- ===== src/Wire/Encoded/Size.antt =====
-- The size of an encoding, and its start byte.
use native.Mathlib.Decide.{dec_lt}
use native.Mathlib.Nat.{pow-le-pow_right}
use lib_dwm.Base.{
  ℕ, zero, suc, ◌+◌, ◌-◌, ◌^◌, ◌≤◌, ◌<◌, ◌≡◌, ◌⊎◌, refl, Bool, true, ◌&&◌, inl, inr, arith, drop,
  ◌==◌, bit_and, ==_iff, List, ◌∷◌, leb_of_lt, le→leb, &&_left, &&_right,
}
use lib_dwm.Wire.Bytes.{Endian, little, big}
use lib_dwm.Wire.Encoded.{
  size_from_value, find_size, sk_size_thresholds, encoded_start_byte, encoding_of, same_order,
}

-- sizeof(T) for the types that the template takes.
abbrev pub IsWidth : ℕ → Type 0
IsWidth w = (w ≡ 2) ⊎ (w ≡ 4) ⊎ (w ≡ 8)

-- What the size of an encoding is to be: enough bytes and no more.
pub record IsSize (w v n : ℕ) : Type 0 where
  pub some_byte : 1 ≤ n
  pub fits : n ≤ w
  pub enough : v < 256 ^ n
  pub needed : (n ≡ 1) ⊎ (256 ^ (n - 1) ≤ v)

pow_mono : (m n : ℕ) → m ≤ n → 256 ^ m ≤ 256 ^ n
pow_mono m n h = pow-le-pow_right {n = 256} (omega arith) {i = m} {j = n} h

-- One row of the table.
row :
    (w v n limit : ℕ) (ts : List (ℕ × ℕ))
    → 1 ≤ w
    → v < 256 ^ w
    → 1 ≤ n
    → limit + 1 ≡ 256 ^ n
    → ((n ≡ 1) ⊎ (256 ^ (n - 1) ≤ v))
    → (limit < v → IsSize w v (find_size ts v w))
    → IsSize w v (find_size ((limit, n) ∷ ts) v w)
row w v n limit ts pos h lo e low later = elim (dec_lt limit v) [
  | yes gt ↦ rw (leb_of_lt limit v gt) (later gt)
  | no le ↦
      rw (le→leb v limit (omega arith), le→leb n w (fits low))
        (record { some_byte = lo; fits = fits low; enough = omega arith; needed = low })
]
  where
    fits : ((n ≡ 1) ⊎ (256 ^ (n - 1) ≤ v)) → n ≤ w
    fits (inl one) = omega arith
    fits (inr big_) = elim (dec_lt w n) [
      | yes short ↦ absurd (omega (arith, pow_mono w (n - 1) (omega arith)))
      | no long ↦ omega arith
    ]

-- For a value of the width, `SizeFromValue` is the least number of bytes, at least one, that hold
-- the value, and at most the width.
pub size_from_value_lem : (w v : ℕ) → IsWidth w → v < 256 ^ w → IsSize w v (size_from_value w v)
unfolding size_from_value
size_from_value_lem w v width h =
    row w v 1 0xFF (drop 1 sk_size_thresholds) pos h (omega arith) refl (inl refl) λ a.
      row w v 2 0xFFFF (drop 2 sk_size_thresholds) pos h (omega arith) refl (inr (omega arith)) λ b.
        row w v 3 0xFFFFFF (drop 3 sk_size_thresholds) pos h (omega arith) refl (inr (omega arith))
          λ c.
            row w v 4 0xFFFFFFFF (drop 4 sk_size_thresholds) pos h (omega arith) refl
              (inr (omega arith))
              λ d.
                row w v 5 0xFFFFFFFFFF (drop 5 sk_size_thresholds) pos h (omega arith) refl
                  (inr (omega arith))
                  λ e.
                    row w v 6 0xFFFFFFFFFFFF (drop 6 sk_size_thresholds) pos h (omega arith) refl
                      (inr (omega arith))
                      λ f.
                        row w v 7 0xFFFFFFFFFFFFFF (drop 7 sk_size_thresholds) pos h (omega arith)
                          refl (inr (omega arith))
                          λ g. record {
                            some_byte = pos;
                            fits = omega arith;
                            enough = h;
                            needed = inr (
                                omega
                                  (arith, g, pow_mono (w - 1) 7 (omega (arith, at_most width))));
                          }
  where
    pos : 1 ≤ w
    pos = ground (arith, width)

    at_most : IsWidth w → w ≤ 8
    at_most (inl two) = omega arith
    at_most (inr (inl four)) = omega arith
    at_most (inr (inr eight)) = omega arith

-- The start byte tells the size and the byte order.
start_byte_ok : Endian → ℕ → ℕ → Bool
unfolding encoded_start_byte
start_byte_ok host w n =
    ((bit_and (encoded_start_byte host w n) (w - 1) + 1) == n)
    && same_order (encoding_of (encoded_start_byte host w n)) host

all_start_bytes : Endian → ℕ → ℕ → Bool
all_start_bytes host w zero = true
all_start_bytes host w (suc n) = start_byte_ok host w (suc n) && all_start_bytes host w n

table_sound :
    (host : Endian) (w k n : ℕ)
    → all_start_bytes host w k ≡ true
    → 1 ≤ n
    → n ≤ k
    → start_byte_ok host w n ≡ true
unfolding all_start_bytes
table_sound host w zero n t lo hi = absurd (omega arith)
table_sound host w (suc k) n t lo hi = elim (dec_lt n (suc k)) [
  | yes lt ↦ table_sound host w k n (&&_right _ _ t) lo (omega arith)
  | no ge ↦ rw (let e : n ≡ suc k = omega arith in e) (&&_left _ _ t)
]

tables : (host : Endian) (w : ℕ) → IsWidth w → all_start_bytes host w w ≡ true
unfolding all_start_bytes start_byte_ok encoded_start_byte
tables little w (inl e) = rw e refl
tables little w (inr (inl e)) = rw e refl
tables little w (inr (inr e)) = rw e refl
tables big w (inl e) = rw e refl
tables big w (inr (inl e)) = rw e refl
tables big w (inr (inr e)) = rw e refl

same_order_sound : (a b : Endian) → same_order a b ≡ true → a ≡ b
same_order_sound little little h = refl
same_order_sound little big h = cc
same_order_sound big little h = cc
same_order_sound big big h = refl

pub encoded_start_byte_lem :
    (host : Endian) (w n : ℕ)
    → IsWidth w
    → 1 ≤ n
    → n ≤ w
    → (bit_and (encoded_start_byte host w n) (w - 1) + 1 ≡ n)
      × (encoding_of (encoded_start_byte host w n) ≡ host)
unfolding start_byte_ok
encoded_start_byte_lem host w n width lo hi =
    let t = table_sound host w w n (tables host w width) lo hi in
    ((==_iff _ n).0 (&&_left _ _ t), same_order_sound _ host (&&_right _ _ t))
