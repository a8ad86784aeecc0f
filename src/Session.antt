-- ===== src/Session.antt =====
-- desktop/core/src/session.rs and pairing.rs: the handshake, pairing, and the envelopes of a session.
pub mod Wire
pub mod Capability
pub mod Replay
pub mod Pairing
pub mod Handshake
pub mod Connect
pub mod Loop
pub mod Framing
pub mod Qr
