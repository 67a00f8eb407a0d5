-- ===== src/Ipv4/Prefix/Wire.antt =====
-- Ipv4Prefix on C++ streams, classes/include/DwmIpv4Prefix.hh: the five bytes as they are.
use lib_dwm.Base.{
  ℕ, ◌^◌, ◌<◌, ◌≡◌, refl, sym, ap, ◌∙◌, List, [], ◌∷◌, ◌++◌, length, length-append, arith, take,
  drop, get_or, take-append_length, drop-append_length,
}
use lib_dwm.Wire.Bytes.{big, load, be2host}
use lib_dwm.Wire.Stream.{InStream, OutStream, read_bytes, write_bytes, read_bytes-delivers}
use lib_dwm.Wire.Encoded.{overlay}
use lib_dwm.Wire.StreamIo.{network_bytes, length-network_bytes, overlay_all, be2host-load}
use lib_dwm.Wire.Containers.Codec.{Codec, input, output}
use lib_dwm.Ipv4.Prefix.{Ipv4Prefix}

-- `_data`, the network in network byte order and the mask length, and the prefix of five bytes.
unfoldable pub data_of : Ipv4Prefix → List ℕ
data_of p = network_bytes 4 p.network ++ p.mask_length ∷ []

unfoldable pub prefix_of : List ℕ → Ipv4Prefix
prefix_of bs = record { network = load big (take 4 bs); mask_length = get_or (drop 4 bs) 0 0 }

-- `Write(std::ostream &)`.
unfoldable pub write_prefix : Ipv4Prefix → OutStream → OutStream
unfolding write_bytes data_of
write_prefix p os = write_bytes (data_of p) os

-- `Read(std::istream &)`.
unfoldable pub read_prefix : Ipv4Prefix → InStream → Ipv4Prefix × InStream
unfolding read_bytes data_of prefix_of
read_prefix old is = let (bs, is') = read_bytes 5 is in (prefix_of (overlay (data_of old) bs), is')

length-data_of : (p : Ipv4Prefix) → length (data_of p) ≡ 5
unfolding data_of
length-data_of p =
    length-append (network_bytes 4 p.network) (p.mask_length ∷ [])
    ∙ omega (arith, length-network_bytes 4 p.network)

load_big : (w v : ℕ) → v < 256 ^ w → load big (network_bytes w v) ≡ v
unfolding be2host
load_big w v h = be2host-load big w v h

prefix_of-data_of : (p : Ipv4Prefix) → p.network < 2 ^ 32 → prefix_of (data_of p) ≡ p
unfolding prefix_of data_of
prefix_of-data_of p h =
    let bs : List ℕ = network_bytes 4 p.network in
    let first : take 4 (bs ++ p.mask_length ∷ []) ≡ bs =
      rw (length-network_bytes 4 p.network) at (take-append_length bs (p.mask_length ∷ [])) in
    let last : drop 4 (bs ++ p.mask_length ∷ []) ≡ p.mask_length ∷ [] =
      rw (length-network_bytes 4 p.network) at (drop-append_length bs (p.mask_length ∷ [])) in
    λ i. record {
      network = (ap (load big) first ∙ load_big 4 p.network h) i;
      mask_length = ap (λ (m : List ℕ). get_or m 0 0) last i;
    }

pub write_prefix-output :
    (p : Ipv4Prefix) (sofar : List ℕ) → write_prefix p (output sofar) ≡ output (sofar ++ data_of p)
unfolding write_prefix write_bytes
write_prefix-output p sofar = refl

pub read_prefix-input :
    (p old : Ipv4Prefix) (rest : List ℕ)
    → p.network < 2 ^ 32
    → read_prefix old (input (data_of p ++ rest)) ≡ (p, input rest)
unfolding read_prefix
read_prefix-input p old rest h =
    let five = length-data_of p in
    let (got, left) =
      read_bytes-delivers 5 (data_of p ++ rest) _ refl
        (omega (arith, length-append (data_of p) rest, five)) in
    let first : take 5 (data_of p ++ rest) ≡ data_of p =
      rw five at (take-append_length (data_of p) rest) in
    let others : drop 5 (data_of p ++ rest) ≡ rest =
      rw five at (drop-append_length (data_of p) rest) in
    rw
      (
        got,
        left,
        first,
        others,
        overlay_all (data_of old) (data_of p) (length-data_of old ∙ sym five),
        prefix_of-data_of p h,
      )
      refl

-- Prefixes with a network of 32 bits.
abbrev pub prefix_codec : Codec Ipv4Prefix
prefix_codec = record {
  write = write_prefix;
  read = read_prefix;
  wire = data_of;
  Fits = λ p. p.network < 2 ^ 32;
  writes = λ p sofar h. write_prefix-output p sofar;
  reads = read_prefix-input;
}
