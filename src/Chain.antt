-- ===== src/Chain.antt =====
-- internal/mpc/chain: the adapters of the chains.
pub mod Address
