-- ===== src/Thread.antt =====
-- The queue between threads: classes/include/DwmThreadQueue.hh.
pub mod Queue
pub mod Waiting
pub mod Balancer
mod Tests
