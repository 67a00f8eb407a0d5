-- ===== src/Ipv4.antt =====
-- IPv4 addresses and prefixes: classes/include/DwmIpv4Address.hh, classes/include/DwmIpv4Prefix.hh
-- and classes/src/DwmIpv4Prefix.cc.
pub mod Address
pub mod Prefix
pub mod Examples
pub mod Routes
mod Tests
