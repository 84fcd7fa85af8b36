-- ===== src/Monitor.antt =====
-- The monitor package (monitor/).
pub mod Backoff
pub mod Samples
pub mod Uptime
pub mod Sth
pub mod State
pub mod Init
