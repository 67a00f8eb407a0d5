-- ===== src/Patricia/Search.antt =====
-- Theorems about `find_longest`, `find_matches` and `find_wider` of
-- classes/include/DwmIpv4PrefixPatricia.hh.
pub mod Chain
pub mod Matches
pub mod Longest
