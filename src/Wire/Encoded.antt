-- ===== src/Wire/Encoded.antt =====
-- classes/include/DwmEncodedUnsigned.hh: a start byte with the size and the byte order, then as
-- many bytes as the value needs. `w` is sizeof(T), `host` the byte order of the machine.
pub mod Size
pub mod Memory
pub mod RoundTrip
use lib_dwm.Base.{
  ℕ, zero, suc, ◌+◌, ◌-◌, ◌*◌, ◌/◌, ◌%◌, ◌^◌, ◌≤◌, ◌<◌, ◌≡◌, Bool, true, false, ◌&&◌, Option, none,
  some, List, [], ◌∷◌, ◌++◌, length, take, drop, leb, ltb, ◌==◌, if◌then◌else◌, bit_and, bit_or,
}
use lib_dwm.Wire.Bytes.{Endian, little, big, store, load, bswap}
use lib_dwm.Wire.Stream.{InStream, OutStream, read_bytes, write_bytes}

-- The table of `SizeFromValue`, and `std::find_if` over it.
abbrev pub sk_size_thresholds : List (ℕ × ℕ)
sk_size_thresholds =
    (0xFF, 1)
    ∷ (0xFFFF, 2)
    ∷ (0xFFFFFF, 3)
    ∷ (0xFFFFFFFF, 4)
    ∷ (0xFFFFFFFFFF, 5)
    ∷ (0xFFFFFFFFFFFF, 6)
    ∷ (0xFFFFFFFFFFFFFF, 7)
    ∷ []

abbrev pub find_size : List (ℕ × ℕ) → ℕ → ℕ → ℕ
find_size [] v w = w
find_size ((limit, n) ∷ ts) v w =
    if leb v limit then (if leb n w then n else w) else find_size ts v w

-- `SizeFromValue`.
unfoldable pub size_from_value : ℕ → ℕ → ℕ
size_from_value w v = find_size sk_size_thresholds v w

-- `StreamedLength`.
unfoldable pub streamed_length : ℕ → ℕ → ℕ
unfolding size_from_value
streamed_length w v = 1 + size_from_value w v

-- `SizeToWire`.
unfoldable pub size_to_wire : ℕ → ℕ → ℕ
size_to_wire w s = if leb s ((w - 1) + 1) && ltb 0 s then bit_and (s - 1) (w - 1) else 0

-- `EncodedStartByte`.
unfoldable pub encoded_start_byte : Endian → ℕ → ℕ → ℕ
unfolding size_to_wire
encoded_start_byte little w sz = size_to_wire w sz
encoded_start_byte big w sz = bit_or (size_to_wire w sz) 0x80

-- The `sz` bytes of the value in memory that matter.
abbrev pub data_bytes : Endian → ℕ → ℕ → ℕ → List ℕ
data_bytes little w sz v = take sz (store little w v)
data_bytes big w sz v = drop (w - sz) (store big w v)

-- `MakeNativeEndianWriteVector`.
unfoldable pub make_native_endian_write_vector : Endian → ℕ → ℕ → List ℕ
unfolding size_from_value encoded_start_byte store
make_native_endian_write_vector host w v =
    let sz = size_from_value w v in encoded_start_byte host w sz ∷ data_bytes host w sz v

-- `encodings[buf[0] >> 7]`.
abbrev pub encoding_of : ℕ → Endian
encoding_of b = if b / 2 ^ 7 == 0 then little else big

-- `memory[at ...] = bytes`.
abbrev pub overlay : List ℕ → List ℕ → List ℕ
overlay m [] = m
overlay [] (b ∷ bs) = []
overlay (a ∷ m) (b ∷ bs) = b ∷ overlay m bs

abbrev pub write_at : List ℕ → ℕ → List ℕ → List ℕ
write_at m zero bs = overlay m bs
write_at [] (suc at_) bs = []
write_at (a ∷ m) (suc at_) bs = a ∷ write_at m at_ bs

abbrev pub zeros : ℕ → List ℕ
zeros zero = []
zeros (suc n) = 0 ∷ zeros n

-- Where the first data byte goes: `sp`, less the address of the value.
abbrev pub first_place : Endian → ℕ → ℕ → ℕ
first_place little w sz = 0
first_place big w sz = w - sz

-- `TwoBytesProcessed`.
pub record TwoBytesProcessed : Type 0 where
  pub encoding : Endian
  pub sz : ℕ
  pub sp : ℕ
  pub memory : List ℕ

unfoldable pub two_bytes_processed : ℕ → ℕ → ℕ → TwoBytesProcessed
two_bytes_processed w b0 b1 =
    let sz = bit_and b0 (w - 1) + 1 in
    let at_ = first_place (encoding_of b0) w sz in
    record {
      encoding = encoding_of b0;
      sz = sz;
      sp = at_ + 1;
      memory = write_at (zeros w) at_ (b1 ∷ []);
    }

abbrev pub same_order : Endian → Endian → Bool
same_order little little = true
same_order little big = false
same_order big little = false
same_order big big = true

-- What the calls to read leave: the value, the source, whether all bytes came, how many were read.
pub record Reading (S : Type 0) : Type 0 where
  pub value : ℕ
  pub source : S
  pub ok : Bool
  pub bytes : ℕ

-- The body that the overloads of `Read` share, for the call `get` that each of them makes. `fix`
-- is what is done to a value in the other byte order.
module _ {S : Type 0} (get : ℕ → S → List ℕ × S) (host : Endian) (w : ℕ) (fix : ℕ → ℕ) where
  unfoldable pub finish_reading : TwoBytesProcessed → S → Reading S
  unfolding load
  finish_reading two s =
      let (more, s') = if ltb 1 two.sz then get (two.sz - 1) s else ([], s) in
      let v = load host (write_at two.memory two.sp more) in
      if length more == two.sz - 1
      then record {
        value = if same_order host two.encoding then v else fix v;
        source = s';
        ok = true;
        bytes = 2 + (two.sz - 1);
      }
      else record { value = v; source = s'; ok = false; bytes = 2 + length more }

  unfoldable pub start_reading : List ℕ × S → Reading S
  unfolding finish_reading two_bytes_processed
  start_reading (b0 ∷ b1 ∷ [], s) = finish_reading (two_bytes_processed w b0 b1) s
  start_reading (buf, s) = record { value = 0; source = s; ok = false; bytes = length buf }

  unfoldable pub read_object : S → Reading S
  unfolding start_reading
  read_object s = start_reading (get 2 s)

-- `NWrite(std::ostream &)`, which `Write` calls.
unfoldable pub write_stream : Endian → ℕ → ℕ → OutStream → OutStream
unfolding make_native_endian_write_vector write_bytes
write_stream host w v os = write_bytes (make_native_endian_write_vector host w v) os

-- `Read(std::istream &)`, which `NRead` calls: the value afterwards and the stream.
unfoldable pub read_stream : Endian → ℕ → InStream → ℕ × InStream
unfolding read_object read_bytes bswap
read_stream host w is = let r = read_object read_bytes host w (bswap w) is in (r.value, r.source)

-- `NWrite` on a handle, through the call `put`, which gives the number of bytes that it took: the
-- handle may be invalid, and -1 is `none`.
unfoldable pub write_handle :
    {S : Type 0} → (List ℕ → S → ℕ × S) → Endian → ℕ → ℕ → Option S → Option ℕ × Option S
unfolding make_native_endian_write_vector
write_handle put host w v none = (none, none)
write_handle put host w v (some s) =
    let buf = make_native_endian_write_vector host w v in
    let (taken, s') = put buf s in
    (if taken == length buf then some (length buf) else none, some s')

-- `Read` on a file descriptor, `BZRead` and `Read` on a gzFile.
unfoldable pub read_handle :
    {S : Type 0} → (ℕ → S → List ℕ × S) → Endian → ℕ → Option S → Option ℕ × ℕ × Option S
unfolding read_object bswap
read_handle get host w none = (none, 0, none)
read_handle get host w (some s) =
    let r = read_object get host w (bswap w) s in
    (if r.ok then some r.bytes else none, r.value, some r.source)

-- `Read(FILE *)`, where `fread` gives one item or none.
unfoldable pub read_file : {S : Type 0} → (ℕ → S → List ℕ × S) → Endian → ℕ → S → ℕ × ℕ × S
unfolding read_object bswap
read_file fread host w s =
    let r = read_object fread host w (bswap w) s in (if r.ok then 1 else 0, r.value, r.source)

-- The overloads for BZFILE and gzFile, which have the same bodies over other calls.
module _ {S : Type 0} where
  unfoldable pub bz_write : (List ℕ → S → ℕ × S) → Endian → ℕ → ℕ → Option S → Option ℕ × Option S
  unfolding write_handle
  bz_write bzwrite host w v bzf = write_handle bzwrite host w v bzf

  unfoldable pub bz_read : (ℕ → S → List ℕ × S) → Endian → ℕ → Option S → Option ℕ × ℕ × Option S
  unfolding read_handle
  bz_read bzread host w bzf = read_handle bzread host w bzf

  unfoldable pub write_gz : (List ℕ → S → ℕ × S) → Endian → ℕ → ℕ → Option S → Option ℕ × Option S
  unfolding write_handle
  write_gz gzwrite host w v gzf = write_handle gzwrite host w v gzf

  unfoldable pub read_gz : (ℕ → S → List ℕ × S) → Endian → ℕ → Option S → Option ℕ × ℕ × Option S
  unfolding read_handle
  read_gz gzread host w gzf = read_handle gzread host w gzf
