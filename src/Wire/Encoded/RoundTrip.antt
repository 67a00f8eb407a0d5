-- ===== src/Wire/Encoded/RoundTrip.antt =====
-- What one host writes as an EncodedUnsigned, another reads back.
use lib_dwm.Base.{
  ℕ, suc, ◌+◌, ◌-◌, ◌^◌, ◌<◌, ◌≡◌, refl, sym, ap, ◌∙◌, true, List, [], ◌∷◌, ◌++◌, arith, length,
  if◌then◌else◌, bit_and, ltb, some, lt→ltb, ==_iff,
}
use lib_dwm.Wire.Bytes.{Endian, load, bswap, to_bytes, image, length-to_bytes}
use lib_dwm.Wire.Stream.{Source, get_first, stream_source}
use lib_dwm.Wire.Encoded.{
  size_from_value, encoded_start_byte, encoding_of, data_bytes, make_native_endian_write_vector,
  streamed_length, two_bytes_processed, same_order, finish_reading, start_reading, read_object,
  read_stream, read_handle, Reading,
}
use lib_dwm.Wire.Encoded.Size.{IsWidth, IsSize, size_from_value_lem, encoded_start_byte_lem}
use lib_dwm.Wire.Encoded.Memory.{
  placed, bytes_of_short, data_bytes_lem, memory_after_lem, load-image, bswap-bswap, if_twice,
  if_both, length-image, memory_after,
}

module _ {S : Type 0} {get : ℕ → S → List ℕ × S} (src : Source get) where
  -- The second read, which is left out for a single byte.
  more_bytes :
      (bs rest : List ℕ) (s : S) (r : List ℕ × S)
      → src.Holds (bs ++ rest) s
      → r ≡ (if ltb 1 (suc (length bs)) then get (suc (length bs) - 1) s else ([], s))
      → (r.0 ≡ bs) × (src.Holds rest r.1)
  more_bytes [] rest s r e d = rw d (refl, e)
  more_bytes (b ∷ bs) rest s r e d =
      rw
        (
          d,
          lt→ltb 1 (suc (suc (length bs))) (omega arith),
          let m : suc (suc (length bs)) - 1 ≡ suc (length bs) = omega arith in m,
        )
        (get_first src s (b ∷ bs) rest e)

  -- Both reads succeed if the bytes are there, and the memory holds them in their order.
  read_parts :
      (host order : Endian) (w : ℕ) (fix : ℕ → ℕ) (k b0 b : ℕ) (bs rest : List ℕ) (s : S)
      → src.Holds (b0 ∷ b ∷ bs ++ rest) s
      → bit_and b0 (w - 1) + 1 ≡ suc (length bs)
      → encoding_of b0 ≡ order
      → w ≡ suc (length bs) + k
      → (r : Reading S) → r ≡ read_object get host w fix s
      → (r.value ≡ (
          if same_order host order
          then load host (memory_after order k (b ∷ bs))
          else fix (load host (memory_after order k (b ∷ bs)))))
        × (r.ok ≡ true)
        × (src.Holds rest r.source)
        × (r.bytes ≡ 2 + length bs)
  unfolding read_object start_reading finish_reading two_bytes_processed
  read_parts host order w fix k b0 b bs rest s e sz enc total r d =
      let (two, left) = get_first src s (b0 ∷ b ∷ []) (bs ++ rest) e in
      let (more, left') = more_bytes bs rest (get 2 s).1 _ left refl in
      let m : suc (length bs) - 1 ≡ length bs = omega arith in
      rw
        (
          d,
          two,
          sz,
          enc,
          more,
          m,
          (==_iff (length bs) (length bs)).1 refl,
          placed order w k b bs total,
        )
        (refl, refl, rw m at left', refl)

module _ {S : Type 0} {get : ℕ → S → List ℕ × S} (src : Source get) where
  read_encoded :
      (writer reader : Endian) (w v n : ℕ) (fix : ℕ → ℕ) (bs rest : List ℕ) (s : S)
      → IsWidth w
      → IsSize w v n
      → v < 256 ^ w
      → bs ≡ image writer (to_bytes n v)
      → src.Holds (encoded_start_byte writer w n ∷ bs ++ rest) s
      → (r : Reading S) → r ≡ read_object get reader w fix s
      → (r.value ≡ (if same_order reader writer then v else fix (bswap w v)))
        × (r.ok ≡ true)
        × (src.Holds rest r.source)
        × (r.bytes ≡ suc (length bs))
  read_encoded writer reader w v n fix [] rest s width size h e' e r d = absurd (
      omega (
        arith,
        size.some_byte,
        ap length e' ∙ length-image writer (to_bytes n v) ∙ length-to_bytes n v,
      ))
  read_encoded writer reader w v n fix (b ∷ bs) rest s width size h e' e r d =
      let len : suc (length bs) ≡ n =
        ap length e' ∙ length-image writer (to_bytes n v) ∙ length-to_bytes n v in
      let (sz, enc) = encoded_start_byte_lem writer w n width size.some_byte size.fits in
      let (val, ok, left, count) =
        read_parts src reader writer w fix (w - n) (encoded_start_byte writer w n) b bs rest s e
          (sz ∙ sym len) enc (omega (arith, size.fits, len)) r d in
      let memory : memory_after writer (w - n) (b ∷ bs) ≡ image writer (to_bytes w v) =
        ap (memory_after writer (w - n)) e'
        ∙ memory_after_lem writer (w - n) (to_bytes n v)
        ∙ ap (image writer)
            (sym (bytes_of_short w n (w - n) v (omega (arith, size.fits)) size.enough)) in
      (
        val
            ∙ rw memory (
                if_twice (same_order reader writer) fix _ v (bswap w v)
                  (load-image reader writer w v h)),
        ok,
        left,
        omega (arith, count),
      )

  -- What the reads leave of a value that any host wrote.
  pub read_object-fix :
      (writer reader : Endian) (w v : ℕ) (fix : ℕ → ℕ) (rest : List ℕ) (s : S)
      → IsWidth w
      → v < 256 ^ w
      → src.Holds (make_native_endian_write_vector writer w v ++ rest) s
      → (r : Reading S) → r ≡ read_object get reader w fix s
      → (r.value ≡ (if same_order reader writer then v else fix (bswap w v)))
        × (r.ok ≡ true)
        × (src.Holds rest r.source)
        × (r.bytes ≡ length (make_native_endian_write_vector writer w v))
  unfolding make_native_endian_write_vector
  read_object-fix writer reader w v fix rest s width h e r d =
      let n = size_from_value w v in
      let size = size_from_value_lem w v width h in
      read_encoded writer reader w v n fix (data_bytes writer w n v) rest s width size h
        (data_bytes_lem writer w n (w - n) v (omega (arith, size.fits)) size.enough) e r d

  -- What any host writes, any host reads back.
  pub read_object-written :
      (writer reader : Endian) (w v : ℕ) (rest : List ℕ) (s : S)
      → IsWidth w
      → v < 256 ^ w
      → src.Holds (make_native_endian_write_vector writer w v ++ rest) s
      → (r : Reading S) → r ≡ read_object get reader w (bswap w) s
      → (r.value ≡ v)
        × (r.ok ≡ true)
        × (src.Holds rest r.source)
        × (r.bytes ≡ length (make_native_endian_write_vector writer w v))
  read_object-written writer reader w v rest s width h e r d =
      let (val, ok, left, count) =
        read_object-fix writer reader w v (bswap w) rest s width h e r d in
      (val ∙ if_both (same_order reader writer) v _ (bswap-bswap w v h), ok, left, count)

  -- What `NWrite` puts on a descriptor for a value of 2, 4 or 8 bytes, `Read` gets back from it on a host of either byte order:
  -- it returns the number of bytes written and sets the value that was written, and the bytes that
  -- follow remain.
  pub read_handle-written :
      (writer reader : Endian) (w v : ℕ) (rest : List ℕ) (s : S)
      → IsWidth w
      → v < 256 ^ w
      → src.Holds (make_native_endian_write_vector writer w v ++ rest) s
      → ((read_handle get reader w (some s)).0
          ≡ some (length (make_native_endian_write_vector writer w v)))
        × ((read_handle get reader w (some s)).1 ≡ v)
        × (s' : S) × ((read_handle get reader w (some s)).2 ≡ some s')
        × src.Holds rest s'
  unfolding read_handle
  read_handle-written writer reader w v rest s width h e =
      let (val, ok, left, count) = read_object-written writer reader w v rest s width h e _ refl in
      (rw (ok, count) refl, val, _, refl, left)

-- What `Write` puts on an ostream for a value of 2, 4 or 8 bytes, `Read` gets back from an istream on a host of either byte order,
-- and the characters that follow remain.
pub read_stream-written :
    (writer reader : Endian) (w v : ℕ) (rest : List ℕ)
    → IsWidth w
    → v < 256 ^ w
    → read_stream reader w
        (record { rest = make_native_endian_write_vector writer w v ++ rest; good = true })
      ≡ (v, record { rest = rest; good = true })
unfolding read_stream
read_stream-written writer reader w v rest width h =
    let (val, ok, left, count) =
      read_object-written stream_source writer reader w v rest
        (record { rest = make_native_endian_write_vector writer w v ++ rest; good = true }) width h
        refl _ refl in
    λ i. (val i, left i)

-- The bytes on the wire of a value of 2, 4 or 8 bytes are as many as `StreamedLength` says.
pub length-make_native_endian_write_vector :
    (host : Endian) (w v : ℕ)
    → IsWidth w
    → v < 256 ^ w
    → length (make_native_endian_write_vector host w v) ≡ streamed_length w v
unfolding make_native_endian_write_vector streamed_length
length-make_native_endian_write_vector host w v width h =
    let n = size_from_value w v in
    let size = size_from_value_lem w v width h in
    omega (
      arith,
      ap length (data_bytes_lem host w n (w - n) v (omega (arith, size.fits)) size.enough)
          ∙ length-image host (to_bytes n v)
          ∙ length-to_bytes n v,
    )
