-- ===== src/Types.antt =====
-- crates/entangrid-types/src/lib.rs: the data that the other crates exchange.
pub mod Scheme
pub mod Records
pub mod Evidence
pub mod Floats
pub mod Classes
pub mod Encoding
pub mod Signature
