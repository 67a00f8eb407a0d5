-- ===== src/Patricia/Remove.antt =====
-- Theorems about `removeNode` of classes/include/DwmIpv4PrefixPatricia.hh.
pub mod Compact
pub mod Cases
pub mod Lookup
pub mod Shape
