-- ===== src/Node.antt =====
-- crates/entangrid-node/src/lib.rs: the fork choice, the votes and the certificates of a node,
-- its limits on peers, and how chains are exchanged.
pub mod Receipts
pub mod State
pub mod Chains
pub mod Quality
pub mod Adoption
pub mod Certificates
pub mod Votes
pub mod Finality
pub mod Voting
pub mod Policy
pub mod Commitments
pub mod Gating
pub mod BlockChecks
pub mod Acceptance
pub mod Snapshots
pub mod SyncPolicy
pub mod Segments
pub mod Limits
