-- ===== src/Ipv4/Address.antt =====
-- classes/include/DwmIpv4Address.hh. The class keeps its 32 bits in network byte order and goes
-- through `ntohl` and `htonl` at each operation; here an address is the number in host order.
use lib_dwm.Base.{
  ℕ, ◌+◌, ◌-◌, ◌/◌, ◌%◌, ◌^◌, ◌≤◌, ◌<◌, ◌≡◌, Bool, ◌||◌, ltb, leb, ◌==◌, arith, if◌then◌else◌,
}

abbrev pub IsAddress : ℕ → Type 0
IsAddress a = a < 2 ^ 32

unfoldable pub less : ℕ → ℕ → Bool
less a b = ltb a b

unfoldable pub less_equal : ℕ → ℕ → Bool
less_equal a b = ltb a b || a == b

unfoldable pub greater_equal : ℕ → ℕ → Bool
greater_equal a b = ltb b a || a == b

-- `operator ++`, prefix form: the address 255.255.255.255 stays.
unfoldable pub increment : ℕ → ℕ
increment a = if a == 0xffff_ffff then a else (a + 1) % 2 ^ 32

-- `operator --`, prefix form: the address 0.0.0.0 stays.
unfoldable pub decrement : ℕ → ℕ
decrement a = if a == 0 then a else a - 1

-- `operator -= (uint32_t)`.
unfoldable pub subtract : ℕ → ℕ → ℕ
subtract a i = if leb i a then a - i else 0

-- `operator += (uint32_t)`: the test reads the wrapped sum.
unfoldable pub add : ℕ → ℕ → ℕ
add a i = if leb a ((a + i) % 2 ^ 32) then (a + i) % 2 ^ 32 else 0xffff_ffff

-- `GetBit`: bit 0 is the most significant.
unfoldable pub get_bit : ℕ → ℕ → ℕ
get_bit a bit = a / 2 ^ (31 - bit) % 2

-- For an address and an addend of 32 bits: the sum is the exact one where that is an address, and 255.255.255.255 elsewhere.
pub add-saturates :
    (a i : ℕ)
    → IsAddress a
    → IsAddress i
    → IsAddress (add a i)
      × (a + i < 2 ^ 32 → add a i ≡ a + i)
      × (2 ^ 32 ≤ a + i → add a i ≡ 0xffff_ffff)
unfolding add
add-saturates a i ha hi = (ground arith, λ h. ground arith, λ h. ground arith)

-- Adding and subtracting one agrees with the increment and decrement operators.
pub add_one-increment :
    (a : ℕ) → IsAddress a → (add a 1 ≡ increment a) × (subtract a 1 ≡ decrement a)
unfolding add subtract increment decrement
add_one-increment a h = (ground arith, ground arith)
