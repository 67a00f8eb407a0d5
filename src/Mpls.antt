-- ===== src/Mpls.antt =====
-- MPLS labels and stacks of them.
pub mod Label
pub mod Stack
mod Tests
