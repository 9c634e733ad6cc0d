-- ===== src/Proto.antt =====
-- crates/tephra-proto: the wire protocol that server and client share.
pub mod Framing
pub mod Convert
