-- ===== src/Dtls.antt =====
-- crates/meshcop-dtls: the DTLS 1.2 profile.
pub mod Error
pub mod Record
pub mod Replay
pub mod Hello
pub mod Handshake
pub mod Message
pub mod Reassembly
pub mod Protection
pub mod Flight
