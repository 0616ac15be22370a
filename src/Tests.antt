-- ===== src/Tests.antt =====
-- Examples: concrete states on which the operations run, and the theorems applied to them.
pub mod Server
pub mod Sessions
pub mod Keygen
pub mod Logs
pub mod Keys
pub mod Nodes
pub mod Signatures
pub mod Rpc
pub mod Engines
pub mod Stores
pub mod Frost
