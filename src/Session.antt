-- ===== src/Session.antt =====
-- internal/mpc/session: the signing and key generation sessions, kept in PostgreSQL and cached in
-- Redis, the progress of protocol rounds, and the log of uncommitted protocol events.
pub mod Types
pub mod Manager
pub mod Progress
pub mod Log
pub mod Coherence
pub mod Lookup
pub mod Update
pub mod Change
pub mod Members
pub mod Join
pub mod Finish
pub mod Timeout
pub mod Keygen
pub mod Activation
pub mod Retry
pub mod Create
pub mod Queue
pub mod Pointers
pub mod Replay
pub mod Rounds
