-- ===== src/Ipv4/Tests.antt =====
-- The theorems on addresses and prefixes at concrete ones.
use lib_dwm.Base.{◌≡◌, refl, arith}
use lib_dwm.Ipv4.Prefix.{Ipv4Prefix, IsValid, contains, contains_by_netmask}
use lib_dwm.Ipv4.Prefix.Netmask.{contains-contains_by_netmask}

abbrev net : Ipv4Prefix
net = record { network = 0x0a010000; mask_length = 16 }

abbrev subnet : Ipv4Prefix
subnet = record { network = 0x0a010200; mask_length = 24 }

net-IsValid : IsValid net
net-IsValid = record { length_fits = omega arith; address = omega arith; masked = refl }

subnet-IsValid : IsValid subnet
subnet-IsValid = record { length_fits = omega arith; address = omega arith; masked = refl }

contains-contains_by_netmask_example : contains net subnet ≡ contains_by_netmask net subnet
contains-contains_by_netmask_example =
    contains-contains_by_netmask net subnet net-IsValid subnet-IsValid
