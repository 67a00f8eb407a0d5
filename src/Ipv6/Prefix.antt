-- ===== src/Ipv6/Prefix.antt =====
-- classes/include/DwmIpv6Prefix.hh and classes/src/DwmIpv6Prefix.cc, in the build without SSE2 or
-- ARM Neon, and `firstDiffBit` of classes/include/DwmIpv6PrefixPatricia.hh.
pub mod Masks
pub mod Differ
pub mod Laws
pub mod Key
pub mod Wire
use mathlib.Core.List.{reverse}
use mathlib.Core.Option
use lib_dwm.Base.{
  ℕ, zero, suc, ◌+◌, ◌-◌, ◌*◌, ◌/◌, ◌%◌, ◌^◌, ◌<◌, ◌≡◌, Bool, true, false, Option, none, some, List,
  [], ◌∷◌, ◌++◌, ◌==◌, ◌&&◌, ltb, leb, not, if◌then◌else◌, bit_and, bit_or, bit_xor, get_or, take,
  drop, length, All,
}
use lib_dwm.Base.Bits.{countl_zero}
use lib_dwm.Wire.Bytes.{IsByte}
use lib_dwm.Wire.Stream.{InStream, OutStream, read_bytes, write_bytes}
use lib_dwm.Wire.Encoded.{overlay, zeros}
use lib_dwm.Ipv6.Bytes.{number}
use lib_dwm.Ipv6.Address.{Ipv6Address, bytes_less, bytes_same, no_address, same, mask, increment}

-- `_addr` and `_length`.
pub record Ipv6Prefix : Type 0 where
  pub addr : List ℕ
  pub mask_length : ℕ

-- `SetBits`, into an array of so many bytes: the loop, the byte after it, and the zeros before.
unfoldable pub set_bits : ℕ → ℕ → List ℕ
set_bits zero n = []
set_bits (suc room) n =
    let rest = set_bits room (n - 8) in
    if leb 8 n then 255 ∷ rest else (if 0 == n then 0 else 255 - 255 / 2 ^ n) ∷ zeros room

-- `addr.s6_addr[byte] &= m`.
abbrev pub mask_byte : List ℕ → ℕ → ℕ → List ℕ
mask_byte bs byte m = take byte bs ++ bit_and (get_or bs byte 0) m ∷ drop (suc byte) bs

-- The `memset` to 0 from a byte on.
abbrev pub clear_from : List ℕ → ℕ → List ℕ
clear_from bs byte = take byte bs ++ zeros (length bs - byte)

-- `MaskBits`; an address has 128 bits.
abbrev pub mask_at : List ℕ → ℕ → ℕ → List ℕ
mask_at bs byte bits =
    if bits == 0
    then clear_from bs byte
    else clear_from (mask_byte bs byte (255 - 255 / 2 ^ bits)) (suc byte)

unfoldable pub mask_bits : List ℕ → ℕ → List ℕ
mask_bits bs n = if ltb n (8 * length bs) then mask_at bs (n / 8) (n - n / 8 * 8) else bs

-- The constructors.
unfoldable pub default_prefix : Ipv6Prefix
default_prefix = record { addr = no_address; mask_length = 128 }

unfoldable pub make : Ipv6Address → ℕ → Ipv6Prefix
make network len = record { addr = mask_bits network len; mask_length = len }

-- `Netmask`.
unfoldable pub netmask : Ipv6Prefix → Ipv6Address
netmask p = set_bits 16 p.mask_length

-- `MaskLength(maskLen)`.
unfoldable pub set_mask_length : Ipv6Prefix → ℕ → Ipv6Prefix
set_mask_length p len = record { addr = mask_bits p.addr len; mask_length = len }

-- The second loop of `LastAddress`.
unfoldable pub set_low_bits : ℕ → ℕ → ℕ
set_low_bits zero b = b
set_low_bits (suc k) b = bit_or (set_low_bits k b) (2 ^ k)

-- The first loop of `LastAddress`, on the bytes from the last to the first.
unfoldable pub fill_from_last : ℕ → List ℕ → List ℕ
fill_from_last low [] = []
fill_from_last low (b ∷ bs) =
    let rest = fill_from_last (low - 8) bs in
    if leb 8 low then 255 ∷ rest else set_low_bits low b ∷ bs

-- `LastAddress`.
unfoldable pub last_address : Ipv6Prefix → Ipv6Address
last_address p = reverse (fill_from_last (128 - p.mask_length) (reverse p.addr))

-- `Set`, which does not mask.
unfoldable pub set : Ipv6Prefix → Ipv6Address → ℕ → Ipv6Prefix × Bool
set p network len = (record { addr = network; mask_length = len }, true)

-- `operator <`, `operator >`, `operator ==` and `operator !=`; the third compares the bytes that
-- the mask length reaches into, the others all of them.
unfoldable pub less : Ipv6Prefix → Ipv6Prefix → Bool
less p q =
    if bytes_less p.addr q.addr
    then true
    else bytes_same p.addr q.addr && ltb p.mask_length q.mask_length

unfoldable pub greater : Ipv6Prefix → Ipv6Prefix → Bool
greater p q =
    if bytes_less q.addr p.addr
    then true
    else bytes_same p.addr q.addr && ltb q.mask_length p.mask_length

unfoldable pub same_prefix : Ipv6Prefix → Ipv6Prefix → Bool
same_prefix p q =
    p.mask_length == q.mask_length
    && (let n = (p.mask_length + 7) / 8 in bytes_same (take n p.addr) (take n q.addr))

unfoldable pub not_same_prefix : Ipv6Prefix → Ipv6Prefix → Bool
not_same_prefix p q =
    if p.mask_length == q.mask_length then not (bytes_same p.addr q.addr) else true

-- `operator ++`; `none` is where the address runs over.
unfoldable pub increment_prefix : Ipv6Prefix → Option Ipv6Prefix
unfolding last_address set
increment_prefix p = Option.map (λ a. (set p a p.mask_length).0) (increment (last_address p))

-- `Contains(const Ipv6Address &)` and `Contains(const Ipv6Prefix &)`.
unfoldable pub contains_address : Ipv6Prefix → Ipv6Address → Bool
unfolding netmask
contains_address p a = same (mask a (netmask p)) p.addr

unfoldable pub contains : Ipv6Prefix → Ipv6Prefix → Bool
unfolding netmask
contains p q =
    if leb p.mask_length q.mask_length then same (mask q.addr (netmask p)) p.addr else false

-- `Bit(b)`.
unfoldable pub bit : Ipv6Prefix → ℕ → Bool
bit p b =
    if leb p.mask_length b
    then false
    else not (bit_and (get_or p.addr (b % 128 / 8) 0) (0x80 / 2 ^ (b % 8)) == 0)

-- `StreamedLength`.
unfoldable pub streamed_length : Ipv6Prefix → ℕ
streamed_length p = 1 + (p.mask_length + 7) / 8

-- Eight bytes from an index on as `be64toh` gives them.
abbrev pub word : List ℕ → ℕ → ℕ
word bs i = number (take 8 (drop i bs))

-- `firstDiffBit`; `none` is its -1.
unfoldable pub first_diff_bit : Ipv6Prefix → Ipv6Prefix → ℕ → Option ℕ
first_diff_bit a b max_bits =
    if max_bits == 0
    then none
    else (let ip_bit = countl_zero 64 (bit_xor (word a.addr 0) (word b.addr 0)) in
        if ltb ip_bit 64
        then (if ltb ip_bit max_bits then some ip_bit else none)
        else (let ip_bit' = countl_zero 64 (bit_xor (word a.addr 8) (word b.addr 8)) in
            if ltb ip_bit' 64
            then (if ltb (ip_bit' + 64) max_bits then some (ip_bit' + 64) else none)
            else none))

-- `Write(std::ostream &)`, with `NumAddrBytes` of the address.
unfoldable pub write_prefix : Ipv6Prefix → OutStream → OutStream
unfolding write_bytes
write_prefix p os =
    let os' = write_bytes (p.mask_length ∷ []) os in
    if os'.good then write_bytes (take ((p.mask_length + 7) / 8) p.addr) os' else os'

-- `Read(std::istream &)`. A length above 128 makes the source write behind the sixteen bytes; here
-- what comes for them is kept.
unfoldable pub read_prefix : Ipv6Prefix → InStream → Ipv6Prefix × InStream
unfolding read_bytes
read_prefix old is =
    let (bs, is') = read_bytes 1 is in
    let len = get_or (overlay (old.mask_length ∷ []) bs) 0 0 in
    let (cs, is'') = read_bytes ((len + 7) / 8) is' in
    if is'.good
    then (record { addr = overlay (zeros 16) cs; mask_length = len }, is'')
    else (record { addr = zeros 16; mask_length = len }, is')

-- The prefixes that the constructor makes of an address and a length of at most 128.
pub record IsValid (p : Ipv6Prefix) : Type 0 where
  pub length_fits : p.mask_length < 129
  pub sixteen : length p.addr ≡ 16
  pub bytes : All IsByte p.addr
  pub masked : mask_bits p.addr p.mask_length ≡ p.addr
