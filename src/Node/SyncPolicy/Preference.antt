-- ===== src/Node/SyncPolicy/Preference.antt =====
-- Decisions between two chains exclude each other, and a full snapshot is always served.
use entangrid.Prelude.{
  ℕ, Option, none, true, false, not, ◌||◌, ◌≡◌, refl, is_some, arith, Bool-cases, inl, inr,
}
use entangrid.Types.Records.{HashBytes, StateSnapshot, ChainSnapshot}
use entangrid.Node.State.{NodeState, highest_local_qc}
use entangrid.Node.Quality.{
  Quality, compare_quality, is_greater, branch_quality_with_extra_tip_vote,
}
use entangrid.Node.SyncPolicy.{
  compare_snapshots, should_adopt_snapshot, should_adopt_certified_snapshot,
  should_adopt_chain_snapshot, should_push_local_snapshot_after_sync_response,
  snapshot_branch_quality, sync_request_known_state, is_force_full_snapshot_hint, ServedSyncRequest,
  sync_request_should_throttle,
}

snapshots_asym :
    (a b : StateSnapshot)
    → is_greater (compare_snapshots a b) ≡ true
    → is_greater (compare_snapshots b a) ≡ false
unfolding compare_snapshots
snapshots_asym a b h = ground arith

quality_asym :
    (a b : Quality)
    → is_greater (compare_quality a b) ≡ true
    → is_greater (compare_quality b a) ≡ false
quality_asym a b h = ground arith

-- Of two nodes at most one adopts the other's certified snapshot, so that two nodes that exchange
-- snapshots do not swap their chains.
pub should_adopt_certified_snapshot-asym :
    (local : StateSnapshot) (local_qc : ℕ) (remote : StateSnapshot) (remote_qc : ℕ)
    → should_adopt_certified_snapshot local local_qc remote remote_qc ≡ true
    → should_adopt_certified_snapshot remote remote_qc local local_qc ≡ false
unfolding should_adopt_certified_snapshot should_adopt_snapshot
should_adopt_certified_snapshot-asym local local_qc remote remote_qc h =
    ground (arith, snapshots_asym remote local)

-- A node that adopts the chain of a sync response does not push its own chain back, with or
-- without a certificate on its chain.
pub adopt_excludes_push :
    (s : NodeState) (local : StateSnapshot) (chain : ChainSnapshot)
    → should_adopt_chain_snapshot s local chain ≡ true
    → should_push_local_snapshot_after_sync_response s local chain ≡ false
unfolding should_adopt_chain_snapshot should_push_local_snapshot_after_sync_response
    should_adopt_snapshot
adopt_excludes_push s local chain h =
    elim (Bool-cases (not s.consensus_v2 || is_some (highest_local_qc s))) [
      | inl by_state ↦ rw by_state (snapshots_asym chain.snapshot local (rw by_state at h))
      | inr by_votes ↦ rw by_votes (
          quality_asym (snapshot_branch_quality chain.blocks chain.proposal_votes)
            (branch_quality_with_extra_tip_vote s s.blocks none) (rw by_votes at h))
    ]

-- A request for a full snapshot is never throttled, whatever was served before and whatever the
-- responder has.
pub full_snapshot-served :
    (served : ServedSyncRequest) (now height : ℕ) (tip : HashBytes) (local_height : ℕ)
    (local_tip : HashBytes) (qc_height : ℕ) (qc_hash : Option HashBytes)
    → sync_request_should_throttle served now
        (sync_request_known_state height tip true).0
        (sync_request_known_state height tip true).1
        local_height
        local_tip
        qc_height
        qc_hash
      ≡ false
unfolding sync_request_should_throttle sync_request_known_state is_force_full_snapshot_hint
full_snapshot-served served now height tip local_height local_tip qc_height qc_hash = refl
