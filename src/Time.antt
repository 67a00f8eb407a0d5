-- ===== src/Time.antt =====
-- Times and intervals of time.
pub mod Value64
pub mod Interval64
mod Tests
