-- ===== src/Patricia.antt =====
-- The Patricia trie of classes/include/DwmIpv4PrefixPatricia.hh (and, with the same text,
-- classes/include/DwmIpv6PrefixPatricia.hh), over what it asks of its prefixes.
pub mod Key
pub mod Trie
pub mod Shape
pub mod Insert
pub mod Remove
pub mod Search
pub mod Map
pub mod Contract
pub mod Iterator
pub mod Stored
mod Tests
