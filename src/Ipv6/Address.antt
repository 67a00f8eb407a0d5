-- ===== src/Ipv6/Address.antt =====
-- classes/include/DwmIpv6Address.hh and classes/src/DwmIpv6Address.cc, in the build without SSE2
-- or ARM Neon: the sixteen bytes of `s6_addr`, the most significant first.
pub mod Increment
use mathlib.Core.List.{reverse}
use mathlib.Core.Option
use lib_dwm.Base.{
  ℕ, zero, suc, ◌+◌, Bool, true, false, Option, none, some, List, [], ◌∷◌, ◌==◌, ◌&&◌, ltb, not,
  if◌then◌else◌, bit_and, get_or,
}
use lib_dwm.Wire.Stream.{InStream, OutStream, read_bytes, write_bytes}
use lib_dwm.Wire.Encoded.{overlay, zeros}

abbrev pub Ipv6Address : Type 0
Ipv6Address = List ℕ

-- Whether `memcmp` of as many bytes as the first array has is negative, or 0.
unfoldable pub bytes_less : List ℕ → List ℕ → Bool
bytes_less [] bs = false
bytes_less (a ∷ rest) [] = false
bytes_less (a ∷ rest) (b ∷ bs) = if ltb a b then true else a == b && bytes_less rest bs

unfoldable pub bytes_same : List ℕ → List ℕ → Bool
bytes_same [] bs = true
bytes_same (a ∷ rest) [] = false
bytes_same (a ∷ rest) (b ∷ bs) = a == b && bytes_same rest bs

-- The default constructor.
unfoldable pub no_address : Ipv6Address
no_address = zeros 16

-- `operator <`, `operator >`, `operator ==` and `operator !=`.
unfoldable pub less : Ipv6Address → Ipv6Address → Bool
less a b = bytes_less a b

unfoldable pub greater : Ipv6Address → Ipv6Address → Bool
greater a b = bytes_less b a

unfoldable pub same : Ipv6Address → Ipv6Address → Bool
same a b = bytes_same a b

unfoldable pub not_same : Ipv6Address → Ipv6Address → Bool
unfolding same
not_same a b = not (same a b)

-- `operator &` and `operator &=`.
unfoldable pub mask : Ipv6Address → Ipv6Address → Ipv6Address
mask [] netmask = []
mask (a ∷ rest) [] = a ∷ rest
mask (a ∷ rest) (m ∷ netmask) = bit_and a m ∷ mask rest netmask

-- The loop of `operator ++`, on the bytes from the last to the first. Its test `i >= 0` always
-- holds; `none` is a step in front of the array.
unfoldable pub increment_from_last : List ℕ → Option (List ℕ)
increment_from_last [] = none
increment_from_last (b ∷ bs) =
    let rest = increment_from_last bs in
    if ltb b 255 then some ((b + 1) ∷ bs) else Option.map (λ r. 0 ∷ r) rest

unfoldable pub increment : Ipv6Address → Option Ipv6Address
increment a = Option.map reverse (increment_from_last (reverse a))

-- `IsLinkLocal` and `IsSiteLocal`.
unfoldable pub is_link_local : Ipv6Address → Bool
is_link_local a = get_or a 0 0 == 0xfe && bit_and (get_or a 1 0) 0xc0 == 0x80

unfoldable pub is_site_local : Ipv6Address → Bool
is_site_local a = get_or a 0 0 == 0xfe && bit_and (get_or a 1 0) 0xc0 == 0xc0

-- `Read(std::istream &)` and `Write(std::ostream &)`.
unfoldable pub read_address : Ipv6Address → InStream → Ipv6Address × InStream
unfolding read_bytes
read_address old is = let (bs, is') = read_bytes 16 is in (overlay old bs, is')

unfoldable pub write_address : Ipv6Address → OutStream → OutStream
unfolding write_bytes
write_address a os = write_bytes a os
