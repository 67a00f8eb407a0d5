-- ===== src/Ipv4/Examples.antt =====
-- Prefixes that the tests use: 10.0.0.0/8, 10.1.0.0/16, 10.1.2.0/24 and 192.168.0.0/16.
use lib_dwm.Base.{arith, refl}
use lib_dwm.Ipv4.Prefix.{Ipv4Prefix, IsValid}

abbrev pub ten : Ipv4Prefix
ten = record { network = 0x0a000000; mask_length = 8 }

abbrev pub ten_one : Ipv4Prefix
ten_one = record { network = 0x0a010000; mask_length = 16 }

abbrev pub ten_one_two : Ipv4Prefix
ten_one_two = record { network = 0x0a010200; mask_length = 24 }

abbrev pub private_net : Ipv4Prefix
private_net = record { network = 0xc0a80000; mask_length = 16 }

pub ten-IsValid : IsValid ten
ten-IsValid = record { length_fits = omega arith; address = omega arith; masked = refl }

pub ten_one-IsValid : IsValid ten_one
ten_one-IsValid = record { length_fits = omega arith; address = omega arith; masked = refl }

pub ten_one_two-IsValid : IsValid ten_one_two
ten_one_two-IsValid = record { length_fits = omega arith; address = omega arith; masked = refl }

pub private_net-IsValid : IsValid private_net
private_net-IsValid = record { length_fits = omega arith; address = omega arith; masked = refl }
