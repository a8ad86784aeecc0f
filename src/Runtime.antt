-- ===== src/Runtime.antt =====
-- desktop/runtime: the daemon's own state.
pub mod Approval
pub mod Renegotiate
