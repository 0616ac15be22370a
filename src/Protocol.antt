-- ===== src/Protocol.antt =====
-- internal/mpc/protocol: the protocol engines around the tss-lib library.
pub mod Bytes
pub mod Encoding
pub mod Widths
pub mod Der
pub mod Types
pub mod Registry
pub mod Requests
pub mod Supported
pub mod Run
pub mod Gg18
pub mod Restart
pub mod Verify
pub mod Parties
pub mod Keygen
pub mod Queues
pub mod Stuck
pub mod Frost
pub mod FrostKeys
pub mod Judged
