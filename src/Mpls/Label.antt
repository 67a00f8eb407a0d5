-- ===== src/Mpls/Label.antt =====
-- classes/include/DwmMplsLabel.hh and classes/src/DwmMplsLabel.cc: the 32 bits of a label, from the
-- top 20 of the label value, 3 of Exp, the S bit and 8 of the TTL.
use lib_dwm.Base.{ℕ, ◌/◌, ◌^◌, Bool, true, false, ◌==◌, if◌then◌else◌, bit_and}

-- `Label()`, `Exp()`, `S()` and `Ttl()`.
unfoldable pub label : ℕ → ℕ
label d = d / 2 ^ 12

unfoldable pub exp : ℕ → ℕ
exp d = bit_and (d / 2 ^ 9) 0x07

unfoldable pub s_bit : ℕ → Bool
s_bit d = if bit_and (d / 2 ^ 8) 0x01 == 0 then false else true

unfoldable pub ttl : ℕ → ℕ
ttl d = bit_and d 0xFF
