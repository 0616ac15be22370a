-- ===== src/Rpc.antt =====
-- internal/mpc/grpc/server.go: the server of a node for the calls of the coordinator and its peers.
pub mod Types
pub mod Tasks
pub mod Server
pub mod Steps
pub mod Effect
pub mod Once
pub mod Again
pub mod Fits
pub mod Endings
