-- ===== src/Httpsync.antt =====
-- The httpsync package: syncs over plain HTTP.
pub mod Fetch
pub mod Heads
pub mod Escape
pub mod Multiaddr
