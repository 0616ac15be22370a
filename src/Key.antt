-- ===== src/Key.antt =====
-- internal/mpc/key/service.go: the keys' metadata, from the placeholder to deletion, and addresses.
pub mod Types
pub mod Service
pub mod Lifecycle
pub mod Promotion
pub mod Address
pub mod Dkg
