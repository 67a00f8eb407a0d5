-- ===== src/Wire/SizedLength.antt =====
-- classes/src/DwmSizedLength.cc: the length that the I/O classes write before a sequence, in the
-- format of an EncodedUnsigned of 64 bits.
use lib_dwm.Base.{
  ℕ, ◌+◌, ◌-◌, ◌^◌, ◌<◌, ◌≡◌, refl, ◌∙◌, true, ◌&&◌, Option, none, some, List, ◌∷◌, ◌++◌, inr,
  length, leb, ltb, ◌==◌, if◌then◌else◌, bit_and, bit_or,
}
use lib_dwm.Wire.Bytes.{Endian, little, big, bswap, be2host}
use lib_dwm.Wire.Stream.{InStream, OutStream, read_bytes, write_bytes, Source, stream_source}
use lib_dwm.Wire.Encoded.{
  sk_size_thresholds, find_size, size_from_value, size_to_wire, encoded_start_byte, data_bytes,
  make_native_endian_write_vector, read_object,
}
use lib_dwm.Wire.Encoded.RoundTrip.{read_object-written, read_object-fix}

-- `SizeFromLength`.
unfoldable pub size_from_length : ℕ → ℕ
size_from_length len = find_size sk_size_thresholds len 8

-- `SizeToWire`, with the mask 0x07.
unfoldable pub length_size_to_wire : ℕ → ℕ
length_size_to_wire s = if leb s (0x07 + 1) && ltb 0 s then bit_and (s - 1) 0x07 else 0

-- `EncodedStartByte`.
unfoldable pub length_start_byte : Endian → ℕ → ℕ
unfolding length_size_to_wire
length_start_byte little sz = length_size_to_wire sz
length_start_byte big sz = bit_or (length_size_to_wire sz) 0x80

-- `MakeNativeEndianWriteVector`.
unfoldable pub length_vector : Endian → ℕ → List ℕ
unfolding size_from_length length_start_byte
length_vector host len =
    let sz = size_from_length len in length_start_byte host sz ∷ data_bytes host 8 sz len

-- `NWrite(std::ostream &)`.
unfoldable pub write_length : Endian → ℕ → OutStream → OutStream
unfolding length_vector write_bytes
write_length host len os = write_bytes (length_vector host len) os

-- `Read(std::istream &)`.
unfoldable pub read_length : Endian → InStream → ℕ × InStream
unfolding read_object read_bytes bswap
read_length host is = let r = read_object read_bytes host 8 (bswap 8) is in (r.value, r.source)

module _ {S : Type 0} where
  -- `NWrite(FILE *)`: 1 or 0, what `fwrite` says of the one item.
  unfoldable pub write_length_file : (List ℕ → S → ℕ × S) → Endian → ℕ → Option S → ℕ × Option S
  unfolding length_vector
  write_length_file fwrite host len none = (0, none)
  write_length_file fwrite host len (some f) =
      let (taken, f') = fwrite (length_vector host len) f in
      (if taken == length (length_vector host len) then 1 else 0, some f')

  -- `Read(FILE *)`.
  unfoldable pub read_length_file : (ℕ → S → List ℕ × S) → Endian → S → ℕ × ℕ × S
  unfolding read_object bswap
  read_length_file fread host f =
      let r = read_object fread host 8 (bswap 8) f in (if r.ok then 1 else 0, r.value, r.source)

  -- `NWrite(int)`.
  unfoldable pub write_length_fd :
      (List ℕ → S → ℕ × S) → Endian → ℕ → Option S → Option ℕ × Option S
  unfolding length_vector
  write_length_fd write host len none = (none, none)
  write_length_fd write host len (some fd) =
      let (taken, fd') = write (length_vector host len) fd in
      (
        if taken == length (length_vector host len)
            then some (length (length_vector host len))
            else none,
        some fd',
      )

  -- `Read(int)`.
  unfoldable pub read_length_fd : (ℕ → S → List ℕ × S) → Endian → Option S → Option ℕ × ℕ × Option S
  unfolding read_object bswap
  read_length_fd read host none = (none, 0, none)
  read_length_fd read host (some fd) =
      let r = read_object read host 8 (bswap 8) fd in
      (if r.ok then some r.bytes else none, r.value, some r.source)

  -- `BZRead(BZFILE *)`; `Read(gzFile)` has the same body. A value in the other byte order goes
  -- through `BE2Host`.
  unfoldable pub read_length_bz : (ℕ → S → List ℕ × S) → Endian → Option S → Option ℕ × ℕ × Option S
  unfolding read_object be2host
  read_length_bz bzread host none = (none, 0, none)
  read_length_bz bzread host (some f) =
      let r = read_object bzread host 8 (be2host host 8) f in
      (if r.ok then some r.bytes else none, r.value, some r.source)

-- `NBZWrite(BZFILE *)` and `NWrite(gzFile)` have the body of `NWrite(int)`, and `Read(gzFile)` that
-- of `BZRead`.
module _ {S : Type 0} where
  unfoldable pub write_length_bz :
      (List ℕ → S → ℕ × S) → Endian → ℕ → Option S → Option ℕ × Option S
  unfolding write_length_fd
  write_length_bz bzwrite host len bzf = write_length_fd bzwrite host len bzf

  unfoldable pub write_length_gz :
      (List ℕ → S → ℕ × S) → Endian → ℕ → Option S → Option ℕ × Option S
  unfolding write_length_fd
  write_length_gz gzwrite host len gzf = write_length_fd gzwrite host len gzf

  unfoldable pub read_length_gz : (ℕ → S → List ℕ × S) → Endian → Option S → Option ℕ × ℕ × Option S
  unfolding read_length_bz
  read_length_gz gzread host gzf = read_length_bz gzread host gzf

-- The class writes what an EncodedUnsigned of 64 bits writes.
pub length_vector-EncodedUnsigned :
    (host : Endian) (len : ℕ) → length_vector host len ≡ make_native_endian_write_vector host 8 len
unfolding length_vector make_native_endian_write_vector size_from_length size_from_value
    length_start_byte encoded_start_byte length_size_to_wire size_to_wire
length_vector-EncodedUnsigned little len = refl
length_vector-EncodedUnsigned big len = refl

-- A length below 2 ^ 64 that a host of either byte order wrote to an ostream, a host of either byte order reads
-- from an istream, and the characters that follow remain.
pub read_length-written :
    (writer reader : Endian) (len : ℕ) (rest : List ℕ)
    → len < 2 ^ 64
    → read_length reader (record { rest = length_vector writer len ++ rest; good = true })
      ≡ (len, record { rest = rest; good = true })
unfolding read_length
read_length-written writer reader len rest h =
    let (val, ok, left, count) =
      read_object-written stream_source writer reader 8 len rest
        (record { rest = length_vector writer len ++ rest; good = true }) (inr (inr refl)) h
        (rw (length_vector-EncodedUnsigned writer len) refl) _ refl in
    λ i. (val i, left i)

module _ {S : Type 0} {get : ℕ → S → List ℕ × S} (src : Source get) where
  -- From a descriptor on which the bytes of a length below 2 ^ 64 stand, `Read` returns the number
  -- of bytes that `NWrite` made of it and sets the length.
  pub read_length_fd-written :
      (writer reader : Endian) (len : ℕ) (rest : List ℕ) (s : S)
      → len < 2 ^ 64
      → src.Holds (length_vector writer len ++ rest) s
      → ((read_length_fd get reader (some s)).0 ≡ some (length (length_vector writer len)))
        × ((read_length_fd get reader (some s)).1 ≡ len)
  unfolding read_length_fd
  read_length_fd-written writer reader len rest s h e =
      let (val, ok, left, count) =
        read_object-written src writer reader 8 len rest s (inr (inr refl)) h
          (rw (length_vector-EncodedUnsigned writer len) at e) _ refl in
      (rw (ok, count, length_vector-EncodedUnsigned writer len) refl, val)

  -- For a length below 2 ^ 64: through `BZRead` a little-endian host gets the length that a host of either byte order wrote. A
  -- big-endian host gets the length that a little-endian one wrote with its bytes reversed.
  pub read_length_bz-written :
      (writer reader : Endian) (len : ℕ) (rest : List ℕ) (s : S)
      → len < 2 ^ 64
      → src.Holds (length_vector writer len ++ rest) s
      → (reader ≡ little → (read_length_bz get reader (some s)).1 ≡ len)
        × (reader ≡ big → writer ≡ little → (read_length_bz get reader (some s)).1 ≡ bswap 8 len)
  unfolding read_length_bz be2host
  read_length_bz-written writer reader len rest s h e = (on_little reader, on_big reader)
    where
      held : src.Holds (make_native_endian_write_vector writer 8 len ++ rest) s
      held = rw (length_vector-EncodedUnsigned writer len) at e

      on_little : (host : Endian) → host ≡ little → (read_length_bz get host (some s)).1 ≡ len
      on_little host l =
          rw l (read_object-written src writer little 8 len rest s (inr (inr refl)) h held _ refl).0

      on_big :
          (host : Endian)
          → host ≡ big
          → writer ≡ little
          → (read_length_bz get host (some s)).1 ≡ bswap 8 len
      on_big host b l = rw b (
          (read_object-fix src writer big 8 len (be2host big 8) rest s (inr (inr refl)) h held _
            refl).0
          ∙ rw l refl)
