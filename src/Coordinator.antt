-- ===== src/Coordinator.antt =====
-- internal/mpc/coordinator: the opening of sessions.
pub mod Service
pub mod Leader
