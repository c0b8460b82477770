-- ===== src/Meshcop.antt =====
-- crates/meshcop/src/meshcop: the messages of the MeshCoP protocol, over the CoAP and TLV codecs.
pub mod Constants
pub mod Flags
pub mod State
pub mod Requests
pub mod Relay
pub mod Notifications
