-- ===== src/Patricia/Insert.antt =====
-- Theorems about `addNode` of classes/include/DwmIpv4PrefixPatricia.hh.
pub mod Cases
pub mod Nodes
pub mod Lookup
pub mod Shape
