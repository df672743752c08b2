-- ===== src/Webfilter.antt =====
-- The DNS filter of internal/webfilter.
pub mod Dns
pub mod Match
pub mod Filter
mod Tests
