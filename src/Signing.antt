-- ===== src/Signing.antt =====
-- internal/mpc/signing: the signing service.
pub mod Types
pub mod Protocol
pub mod Service
pub mod Polling
pub mod Verified
pub mod Batch
pub mod Signer
