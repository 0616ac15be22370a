-- ===== src/Shares.antt =====
-- internal/mpc/storage/key_share_storage.go: the encrypted files of key shares.
pub mod Files
pub mod RoundTrip
pub mod Distribute
pub mod Spread
