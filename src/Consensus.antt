-- ===== src/Consensus.antt =====
-- crates/entangrid-consensus/src/lib.rs: the `ConsensusEngine`. `none` stands for a panic: a
-- division by zero, or an index into an empty list.
pub mod Engine
pub mod Receipts
pub mod Committee
pub mod Score
pub mod Aggregates
pub mod Rotation
pub mod Assignments
pub mod Slots
pub mod Counters
