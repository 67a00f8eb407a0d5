-- ===== src/Ipv4/Prefix.antt =====
-- classes/include/DwmIpv4Prefix.hh and classes/src/DwmIpv4Prefix.cc. The class keeps five bytes:
-- the network address in network byte order and the mask length. Here `network` is the number
-- that `ntohl` gives for the first four bytes, so two prefixes have the same bytes just if they
-- have the same fields.
pub mod Laws
pub mod Netmask
pub mod Wire
use lib_dwm.Base.{
  ℕ, ◌+◌, ◌-◌, ◌*◌, ◌/◌, ◌%◌, ◌^◌, ◌<◌, ◌≡◌, Bool, true, false, ◌&&◌, ◌||◌, Option, none, some,
  List, [], ◌∷◌, ltb, leb, ◌==◌, if◌then◌else◌, bit_and, bit_or, bit_xor, get_or,
}
use lib_dwm.Base.Bits.{countl_zero}
use lib_dwm.Ipv4.Address.{increment, decrement}

pub record Ipv4Prefix : Type 0 where
  pub network : ℕ
  pub mask_length : ℕ

-- `Bit(b)`: bit 0 is the most significant.
unfoldable pub bit : Ipv4Prefix → ℕ → Bool
bit p b = p.network / 2 ^ (31 - b) % 2 == 1

-- The table of netmasks, one for each length from 0 to 32.
abbrev pub sg_masks : List ℕ
sg_masks =
    0x00000000 ∷ 0x80000000 ∷ 0xc0000000 ∷ 0xe0000000 ∷ 0xf0000000 ∷ 0xf8000000 ∷ 0xfc000000
    ∷ 0xfe000000 ∷ 0xff000000 ∷ 0xff800000 ∷ 0xffc00000 ∷ 0xffe00000 ∷ 0xfff00000 ∷ 0xfff80000
    ∷ 0xfffc0000 ∷ 0xfffe0000 ∷ 0xffff0000 ∷ 0xffff8000 ∷ 0xffffc000 ∷ 0xffffe000 ∷ 0xfffff000
    ∷ 0xfffff800 ∷ 0xfffffc00 ∷ 0xfffffe00 ∷ 0xffffff00 ∷ 0xffffff80 ∷ 0xffffffc0 ∷ 0xffffffe0
    ∷ 0xfffffff0 ∷ 0xfffffff8 ∷ 0xfffffffc ∷ 0xfffffffe ∷ 0xffffffff ∷ []

-- `Set(network, maskLength)` on the object `old`.
unfoldable pub set : Ipv4Prefix → ℕ → ℕ → Bool × Ipv4Prefix
set old addr len =
    if ltb 32 len
    then (false, old)
    else (true, record { network = bit_and addr (get_or sg_masks len 0); mask_length = len })

-- The constructor from an address and a length; `uninit` is what the storage held before.
unfoldable pub make : Ipv4Prefix → ℕ → ℕ → Ipv4Prefix
unfolding set
make uninit addr len = (set uninit addr len).1

-- The constructor from an address alone.
unfoldable pub of_address : ℕ → Ipv4Prefix
of_address addr = record { network = addr; mask_length = 32 }

-- `Netmask()`; the shift by the length and the complement are those of a uint32_t.
unfoldable pub netmask : Ipv4Prefix → ℕ
netmask p =
    if p.mask_length == 0
    then 0
    else if p.mask_length == 32
    then 0xffff_ffff
    else 0xffff_ffff - 0xffff_ffff / 2 ^ p.mask_length

-- `MaskLength(uint8_t)`.
unfoldable pub set_mask_length : Ipv4Prefix → ℕ → Ipv4Prefix
set_mask_length p len =
    if ltb len p.mask_length
    then (if len == 0 then record { network = 0; mask_length = len } else record {
      network = bit_and p.network (0xffff_ffff * 2 ^ (32 - len) % 2 ^ 32);
      mask_length = len;
    })
    else if ltb len 33
    then record p { mask_length = len }
    else p

-- `LastAddress()`; `FirstAddress()` is the field `network`.
unfoldable pub last_address : Ipv4Prefix → ℕ
last_address p =
    if p.mask_length == 32 then p.network else bit_or p.network (0xffff_ffff / 2 ^ p.mask_length)

-- `operator <`.
unfoldable pub less : Ipv4Prefix → Ipv4Prefix → Bool
less p q =
    if ltb p.network q.network
    then true
    else if p.network == q.network
    then ltb p.mask_length q.mask_length
    else false

-- `operator ==`, a `memcmp` of the five bytes.
unfoldable pub same : Ipv4Prefix → Ipv4Prefix → Bool
same p q = p.network == q.network && p.mask_length == q.mask_length

-- `Contains(const Ipv4Address &)`.
unfoldable pub contains_address : Ipv4Prefix → ℕ → Bool
unfolding netmask
contains_address p addr = bit_and addr (netmask p) == p.network

-- `Contains(const Ipv4Prefix &)` of the build with SSE2.
unfoldable pub contains : Ipv4Prefix → Ipv4Prefix → Bool
contains p q =
    leb p.mask_length q.mask_length
    && leb p.mask_length (countl_zero 32 (bit_xor q.network p.network))

-- `Contains(const Ipv4Prefix &)` of the builds for Apple and ARM.
unfoldable pub contains_by_netmask : Ipv4Prefix → Ipv4Prefix → Bool
unfolding netmask
contains_by_netmask p q =
    leb p.mask_length q.mask_length && bit_and q.network (netmask p) == p.network

-- `LowerAdjacent` and `UpperAdjacent`, with the saturating steps of an address.
unfoldable pub lower_adjacent : Ipv4Prefix → Ipv4Prefix → Bool
unfolding increment last_address
lower_adjacent p q = increment (last_address q) == p.network

unfoldable pub upper_adjacent : Ipv4Prefix → Ipv4Prefix → Bool
unfolding decrement last_address
upper_adjacent p q = decrement q.network == last_address p

unfoldable pub adjacent : Ipv4Prefix → Ipv4Prefix → Bool
unfolding lower_adjacent upper_adjacent
adjacent p q = upper_adjacent p q || lower_adjacent p q

-- 255.255.255.255/32.
abbrev pub broadcast : Ipv4Prefix
broadcast = record { network = 0xffff_ffff; mask_length = 32 }

-- `Combine`; the difference of the lengths is an int that is cut to a uint8_t.
unfoldable pub combine : Ipv4Prefix → Ipv4Prefix → Ipv4Prefix → Bool × Ipv4Prefix
unfolding adjacent make contains same
combine uninit p q =
    let wider = make uninit q.network ((p.mask_length + 256 - 1) % 256) in
    if adjacent p q && p.mask_length == q.mask_length
    then (if contains wider p && contains wider q then (true, wider) else (false, broadcast))
    else if contains p q
    then (true, p)
    else if contains q p
    then (true, q)
    else (false, broadcast)

-- `Wider(bits)`.
unfoldable pub wider : Ipv4Prefix → Ipv4Prefix → ℕ → Ipv4Prefix
unfolding make
wider uninit p bits =
    if ltb bits p.mask_length then make uninit p.network (p.mask_length - bits) else make uninit 0 0

-- `operator ++` and `operator --`, prefix form. `Set` leaves the object alone past length 32.
unfoldable pub increment_prefix : Ipv4Prefix → Ipv4Prefix
unfolding set increment last_address
increment_prefix p = (set p (increment (last_address p)) p.mask_length).1

unfoldable pub decrement_prefix : Ipv4Prefix → Ipv4Prefix
unfolding set decrement
decrement_prefix p = if p.network == 0 then p else (set p (decrement p.network) p.mask_length).1

-- `firstDiffBit` of classes/include/DwmIpv4PrefixPatricia.hh; `none` is its -1.
unfoldable pub first_diff_bit : Ipv4Prefix → Ipv4Prefix → ℕ → Option ℕ
first_diff_bit a b max_bits =
    let ip_bit = countl_zero 32 (bit_xor a.network b.network) in
    if ltb ip_bit max_bits then some ip_bit else none

-- The prefixes that the class makes: a length of at most 32, and no address bit behind it.
pub record IsValid (p : Ipv4Prefix) : Type 0 where
  pub length_fits : p.mask_length < 33
  pub address : p.network < 2 ^ 32
  pub masked : p.network / 2 ^ (32 - p.mask_length) * 2 ^ (32 - p.mask_length) ≡ p.network
