-- ===== src/Dtsync.antt =====
-- The dtsync package: syncs over go-data-transfer and graphsync.
pub mod Waits
pub mod Transfers
pub mod Syncer
pub mod Voucher
pub mod SetUp
pub mod Publisher
