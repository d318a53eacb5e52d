-- ===== src/Tests.antt =====
-- The development at concrete inputs.
mod Fixtures
mod LedgerRuns
mod ConsensusRuns
mod VoteRuns
mod ChainRuns
mod BlockRuns
mod SyncRuns
mod TypeRuns
