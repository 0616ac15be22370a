-- ===== src/Storage.antt =====
-- internal/mpc/storage: the records that the services exchange with the stores, the PostgreSQL
-- store of keys, nodes and sessions, and the Redis store that caches the sessions.
pub mod Types
pub mod World
pub mod Postgres
pub mod Cache
pub mod Laws
pub mod Rows
