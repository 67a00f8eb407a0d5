-- ===== src/Ipv6.antt =====
-- IPv6 addresses and prefixes, and the trie over them.
pub mod Bytes
pub mod Address
pub mod Prefix
pub mod Trie
mod Tests
