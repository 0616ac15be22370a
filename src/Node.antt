-- ===== src/Node.antt =====
-- internal/mpc/node and internal/mpc/discovery: the nodes of the wallet, in the database and in Consul.
pub mod Types
pub mod Consul
pub mod Manager
pub mod Discovery
pub mod Naming
pub mod Health
pub mod Merge
pub mod Standing
