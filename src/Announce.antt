-- ===== src/Announce.antt =====
-- The announce package.
pub mod Lru
pub mod Gossip
pub mod Receiver
