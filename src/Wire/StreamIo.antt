-- ===== src/Wire/StreamIo.antt =====
-- classes/include/DwmStreamIO.hh and classes/src/DwmStreamIO.cc: integers in network byte order,
-- and strings behind their length.
use mathlib.Core.List.{append_assoc, reverse, reverse-reverse}
use lib_dwm.Base.{
  ℕ, suc, ◌^◌, ◌≤◌, ◌<◌, ◌≡◌, refl, sym, ◌∙◌, true, false, ◌&&◌, List, [], ◌∷◌, ◌++◌, inr, arith,
  length, take, drop, leb, ltb, if◌then◌else◌, le→leb, length-append, lt→ltb, take-append_length,
  drop-append_length, leb_of_lt,
}
use lib_dwm.Wire.Bytes.{
  Endian, little, big, store, load, be2host, host2be, bswap, to_bytes, length-to_bytes,
  to_bytes-IsByte, of_bytes-to_bytes, to_bytes-of_bytes,
}
use lib_dwm.Wire.Stream.{InStream, OutStream, read_bytes, write_bytes, read_bytes-delivers}
use lib_dwm.Wire.Encoded.{overlay, read_stream, write_stream, make_native_endian_write_vector}
use lib_dwm.Wire.Encoded.Memory.{overlay_two, length-reverse, swapped, All-reverse, nothing_after}
use lib_dwm.Wire.Encoded.RoundTrip.{read_stream-written}

-- `Read(std::istream &, T &)`; `old` is what the variable held, of which a short read leaves a part.
unfoldable pub read_int : Endian → ℕ → ℕ → InStream → ℕ × InStream
unfolding read_bytes load store be2host
read_int host w old is =
    let (bs, is') = read_bytes w is in
    let raw = load host (overlay (store host w old) bs) in
    (if is'.good then be2host host w raw else raw, is')

-- `Write(std::ostream &, const T &)`.
unfoldable pub write_int : Endian → ℕ → ℕ → OutStream → OutStream
unfolding store host2be write_bytes
write_int host w v os = write_bytes (store host w (host2be host w v)) os

-- `NRead` and `NWrite` of an integer, in the byte order of the host.
unfoldable pub nread_int : Endian → ℕ → ℕ → InStream → ℕ × InStream
unfolding read_bytes load store
nread_int host w old is =
    let (bs, is') = read_bytes w is in (load host (overlay (store host w old) bs), is')

unfoldable pub nwrite_int : Endian → ℕ → ℕ → OutStream → OutStream
unfolding store write_bytes
nwrite_int host w v os = write_bytes (store host w v) os

-- `NWrite(std::ostream &, const std::string &)`, which `Write` calls.
unfoldable pub write_string : Endian → List ℕ → OutStream → OutStream
unfolding write_stream write_bytes
write_string host s os =
    if os.good
    then (let os' = write_stream host 8 (length s) os in
        if os'.good && ltb 0 (length s) then write_bytes s os' else os')
    else os

-- The part of `Read(std::istream &, std::string &)` behind the length. `s.resize(len)` throws past
-- `max_size`, and the stream fails then; the characters of `s` are new ones.
unfoldable pub read_body : ℕ → ℕ × InStream → List ℕ × InStream
unfolding read_bytes
read_body max_size (len, is) =
    if is.good && ltb 0 len
    then (if leb len max_size
        then (let (s, is') = read_bytes len is in (if is'.good then s else [], is'))
        else ([], record is { good = false }))
    else ([], is)

-- `Read(std::istream &, std::string &)`.
unfoldable pub read_string : ℕ → Endian → InStream → List ℕ × InStream
unfolding read_stream read_body
read_string max_size host is =
    if is.good then read_body max_size (read_stream host 8 is) else ([], is)

-- The bytes of an integer in network byte order.
abbrev pub network_bytes : ℕ → ℕ → List ℕ
network_bytes w v = reverse (to_bytes w v)

pub length-network_bytes : (w v : ℕ) → length (network_bytes w v) ≡ w
length-network_bytes w v = length-reverse (to_bytes w v) ∙ length-to_bytes w v

pub store-host2be : (host : Endian) (w v : ℕ) → store host w (host2be host w v) ≡ network_bytes w v
unfolding store host2be bswap
store-host2be big w v = refl
store-host2be little w v =
    rw (length-network_bytes w v) at
      (to_bytes-of_bytes (network_bytes w v) (All-reverse (to_bytes w v) (to_bytes-IsByte w v)))

pub be2host-load :
    (host : Endian) (w v : ℕ) → v < 256 ^ w → be2host host w (load host (network_bytes w v)) ≡ v
unfolding load be2host
be2host-load little w v h = swapped w v h
be2host-load big w v h = rw (reverse-reverse (to_bytes w v)) (of_bytes-to_bytes w v h)

pub overlay_all : (m bs : List ℕ) → length m ≡ length bs → overlay m bs ≡ bs
overlay_all m bs e = rw (nothing_after m, nothing_after bs) at (overlay_two 0 bs m [] e)

pub length-store : (host : Endian) (w v : ℕ) → length (store host w v) ≡ w
unfolding store
length-store little w v = length-to_bytes w v
length-store big w v = length-network_bytes w v

-- An integer is written as its bytes with the most significant first, whatever the host is.
pub write_int_lem :
    (host : Endian) (w v : ℕ) (os : OutStream)
    → write_int host w v os ≡ write_bytes (network_bytes w v) os
unfolding write_int
write_int_lem host w v os = rw (store-host2be host w v) refl

-- An integer that fits its bytes and was written is read back by a host of either byte order, whatever the variable
-- held before, and the characters that follow remain.
pub read_int-written :
    (reader : Endian) (w v old : ℕ) (rest : List ℕ)
    → v < 256 ^ w
    → read_int reader w old (record { rest = network_bytes w v ++ rest; good = true })
      ≡ (v, record { rest = rest; good = true })
unfolding read_int
read_int-written reader w v old rest h =
    let (got, left) =
      read_bytes-delivers w (network_bytes w v ++ rest) _ refl
        (omega (arith, length-append (network_bytes w v) rest, length-network_bytes w v)) in
    let first : take w (network_bytes w v ++ rest) ≡ network_bytes w v =
      rw (length-network_bytes w v) at (take-append_length (network_bytes w v) rest) in
    let others : drop w (network_bytes w v ++ rest) ≡ rest =
      rw (length-network_bytes w v) at (drop-append_length (network_bytes w v) rest) in
    rw
      (
        got,
        left,
        first,
        others,
        overlay_all (store reader w old) (network_bytes w v)
            (length-store reader w old ∙ sym (length-network_bytes w v)),
        be2host-load reader w v h,
      )
      refl

-- With fewer characters than the integer has bytes, the read fails and takes what there is.
pub read_int-short :
    (reader : Endian) (w old : ℕ) (bs : List ℕ)
    → length bs < w
    → (read_int reader w old (record { rest = bs; good = true })).1
      ≡ record { rest = []; good = false }
unfolding read_int read_bytes
read_int-short reader w old bs h = rw (leb_of_lt (length bs) w h) refl

-- The characters of a string on the wire.
abbrev pub string_bytes : Endian → List ℕ → List ℕ
string_bytes host s = make_native_endian_write_vector host 8 (length s) ++ s

-- The body of the string once its length is known.
string_body :
    (max_size : ℕ) (s rest : List ℕ) (r : ℕ × InStream)
    → r ≡ (length s, record { rest = s ++ rest; good = true })
    → length s ≤ max_size
    → read_body max_size r ≡ (s, record { rest = rest; good = true })
unfolding read_body
string_body max_size [] rest r e fits = rw e refl
string_body max_size (c ∷ s) rest r e fits =
    let (got, left) =
      read_bytes-delivers (suc (length s)) (c ∷ s ++ rest) _ refl
        (omega (arith, length-append s rest)) in
    rw
      (
        e,
        lt→ltb 0 (suc (length s)) (omega arith),
        le→leb (suc (length s)) max_size fits,
        got,
        left,
        take-append_length s rest,
        drop-append_length s rest,
      )
      refl

-- A string whose length is below 2 ^ 64 and at most `max_size` is read back by a host of either byte order, and the characters that follow
-- remain.
pub read_string-written :
    (max_size : ℕ) (writer reader : Endian) (s rest : List ℕ)
    → length s < 2 ^ 64
    → length s ≤ max_size
    → read_string max_size reader (record { rest = string_bytes writer s ++ rest; good = true })
      ≡ (s, record { rest = rest; good = true })
unfolding read_string
read_string-written max_size writer reader s rest h fits =
    string_body max_size s rest
      (read_stream reader 8 (record { rest = string_bytes writer s ++ rest; good = true }))
      (rw (append_assoc (make_native_endian_write_vector writer 8 (length s)) s rest)
        (read_stream-written writer reader 8 (length s) (s ++ rest) (inr (inr refl)) h))
      fits
