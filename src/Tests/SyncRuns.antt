-- ===== src/Tests/SyncRuns.antt =====
-- Snapshots, segments, receipts and anchors at concrete inputs.
use entangrid.Prelude.{ℕ, ◌+◌, ◌≤◌, ◌≡◌, refl, List, [], ◌∷◌, true, false, ok, arith, All, map}
use entangrid.BTree.Key.{nat_key}
use entangrid.BTree.Map
use entangrid.BTree.Set
use entangrid.BTree.Set.{contains}
use entangrid.Quorum.{IsNodup}
use entangrid.Types.Records.{
  Block, TopologyCommitment, StateSnapshot, ChainSnapshot, ChainSegment, SyncQcAnchor,
}
use entangrid.Types.Encoding.{empty_hash}
use entangrid.Types.Floats.{default_service_score_weights}
use entangrid.Consensus.Engine.{
  epoch_for_slot, is_witness_for, assignment_for, is_relay_target_for, proposer_for_slot,
}
use entangrid.Consensus.Receipts.{compute_receipt_root}
use entangrid.Ledger.{replay_blocks, from_genesis, apply_block, apply_transactions, state_root}
use entangrid.Node.Acceptance.{import_buffered_proposal_votes_for_block}
use entangrid.Node.Quality.{branch_quality_with_extra_tip_vote}
use entangrid.Node.State.{NodeState, highest_local_qc}
use entangrid.Node.Receipts.{
  receipt_hash, receipt_event_hash, rebuild_seen_receipts, import_chain_receipts,
}
use entangrid.Node.Receipts.Unique.{IsUnique, adopted_receipts-IsUnique}
use entangrid.Node.Voting.{maybe_broadcast_local_proposal_vote}
use entangrid.Node.Chains.Links.{IsLinked}
use entangrid.Node.Adoption.Keeps.{IsCanonical}
use entangrid.Consensus.Score.{validate_block_basic, commitment_from_receipts_with_weights}
use entangrid.Node.Commitments.{
  validate_commitment_bundle, commitment_eq, validate_snapshot_receipts,
}
use entangrid.Node.Commitments.Evidence.{IsOf, IsWitnessed, validate_commitment_bundle-ok}
use entangrid.Node.Snapshots.{validate_chain_snapshot, apply_chain_snapshot, apply_chain_segment}
use entangrid.Node.Snapshots.Replayed.{validate_chain_snapshot-ok}
use entangrid.Node.Snapshots.Applied.{
  apply_chain_snapshot-IsCanonical, apply_chain_segment-IsCanonical,
}
use entangrid.Node.SyncPolicy.{
  merge_sync_qc_anchors, should_adopt_certified_snapshot, should_adopt_chain_snapshot,
  should_push_local_snapshot_after_sync_response,
}
use entangrid.Node.SyncPolicy.Preference.{adopt_excludes_push}
use entangrid.Node.SyncPolicy.Anchors.{IsMerge, merge_sync_qc_anchors-IsMerge}
use entangrid.Tests.Fixtures.{
  block_crypto, good_block, floats, engine, genesis, node, ledger, receipt,
}

empty_book-IsUnique : IsUnique block_crypto node.receipt_book
unfolding contains
empty_book-IsUnique = record { distinct = tt; seen = λ x. refl }

abbrev reporting_block : Block
reporting_block = record (good_block 1 0) { commitment_receipts = receipt ∷ receipt ∷ [] }

adopted_receipts-IsUnique_example : IsUnique block_crypto (
    rebuild_seen_receipts block_crypto
      (import_chain_receipts block_crypto node.receipt_book (reporting_block ∷ [])))
adopted_receipts-IsUnique_example =
    adopted_receipts-IsUnique block_crypto node.receipt_book (reporting_block ∷ [])
      empty_book-IsUnique

abbrev commitment : TopologyCommitment
commitment =
    commitment_from_receipts_with_weights floats block_crypto engine 1 0 (receipt ∷ []) 0 0
      default_service_score_weights

run_bundle :
    validate_commitment_bundle block_crypto engine floats commitment
      (receipt ∷ [])
      default_service_score_weights
    ≡ ok tt
unfolding validate_commitment_bundle commitment_from_receipts_with_weights epoch_for_slot
    is_witness_for assignment_for is_relay_target_for compute_receipt_root Map.get Map.insert
    contains Set.insert
run_bundle = refl

validate_commitment_bundle-ok_example :
    All (IsOf block_crypto engine commitment) (receipt ∷ [])
    × IsNodup (map (receipt_hash block_crypto) (receipt ∷ []))
    × IsNodup (map (receipt_event_hash block_crypto) (receipt ∷ []))
    × (commitment_eq floats
          (commitment_from_receipts_with_weights floats block_crypto engine commitment.validator_id
            commitment.epoch
            (receipt ∷ [])
            0
            0
            default_service_score_weights)
          commitment
        ≡ true)
validate_commitment_bundle-ok_example =
    validate_commitment_bundle-ok block_crypto engine floats commitment (receipt ∷ [])
      default_service_score_weights run_bundle

abbrev two_blocks : List Block
two_blocks = good_block 1 0 ∷ good_block 2 11 ∷ []

abbrev state_at : ℕ → StateSnapshot
state_at n = record ledger { tip_hash = 10 + n; height = n; last_slot = n }

abbrev snapshot : ChainSnapshot
snapshot = record {
  snapshot = state_at 2;
  blocks = two_blocks;
  receipts = receipt ∷ [];
  proposal_votes = [];
}

run_snapshot :
    validate_chain_snapshot block_crypto floats engine genesis snapshot
    ≡ ok (state_at 2, receipt ∷ [])
unfolding validate_chain_snapshot validate_snapshot_receipts epoch_for_slot is_witness_for
    assignment_for is_relay_target_for from_genesis validate_block_basic proposer_for_slot
    apply_block apply_transactions state_root Map.get Map.insert contains
run_snapshot = refl

validate_chain_snapshot-ok_example :
    IsLinked empty_hash 1 two_blocks
    × (replay_blocks block_crypto genesis two_blocks ≡ ok (state_at 2))
    × (state_at 2 ≡ snapshot.snapshot)
    × (receipt ∷ [] ≡ snapshot.receipts)
    × All (IsWitnessed block_crypto engine) snapshot.receipts
validate_chain_snapshot-ok_example =
    validate_chain_snapshot-ok block_crypto floats engine genesis snapshot run_snapshot

abbrev synced : NodeState
synced = record node {
  ledger = state_at 2;
  blocks = two_blocks;
  receipt_book = record {
    receipts = receipt ∷ [];
    seen_receipts = 7 ∷ [];
    seen_receipt_events = 7 ∷ [];
  };
  orphan_blocks = [];
  seen_blocks = 11 ∷ 12 ∷ [];
}

run_apply_snapshot :
    apply_chain_snapshot block_crypto
      (maybe_broadcast_local_proposal_vote block_crypto 1)
      floats
      node
      snapshot
    ≡ ok synced
unfolding apply_chain_snapshot validate_snapshot_receipts epoch_for_slot is_witness_for
    assignment_for is_relay_target_for from_genesis validate_block_basic proposer_for_slot
    apply_block apply_transactions state_root import_buffered_proposal_votes_for_block
    receipt_event_hash Map.get Map.insert contains Set.insert
run_apply_snapshot = refl

apply_chain_snapshot-IsCanonical_example : IsCanonical block_crypto synced
apply_chain_snapshot-IsCanonical_example =
    apply_chain_snapshot-IsCanonical block_crypto 1 floats node snapshot run_apply_snapshot

abbrev segment : ChainSegment
segment = record {
  base_height = 2;
  base_tip_hash = 12;
  target_snapshot = state_at 3;
  blocks = good_block 3 12 ∷ [];
  receipts = [];
  proposal_votes = [];
}

abbrev extended : NodeState
extended = record synced {
  ledger = state_at 3;
  blocks = good_block 1 0 ∷ good_block 2 11 ∷ good_block 3 12 ∷ [];
  seen_blocks = 11 ∷ 12 ∷ 13 ∷ [];
}

run_apply_segment :
    apply_chain_segment block_crypto
      (maybe_broadcast_local_proposal_vote block_crypto 1)
      floats
      synced
      segment
    ≡ ok extended
unfolding apply_chain_segment validate_snapshot_receipts replay_blocks from_genesis
    validate_block_basic proposer_for_slot apply_block apply_transactions state_root
    import_buffered_proposal_votes_for_block receipt_event_hash Map.get contains Set.insert
run_apply_segment = refl

apply_chain_segment-IsCanonical_example : IsCanonical block_crypto extended
apply_chain_segment-IsCanonical_example =
    apply_chain_segment-IsCanonical block_crypto 1 floats synced segment
      apply_chain_snapshot-IsCanonical_example run_apply_segment

abbrev anchor : ℕ → SyncQcAnchor
anchor n = record { block_hash = 10 + n; block_number = n }

abbrev IsReal : SyncQcAnchor → Type 0
IsReal a = 10 ≤ a.block_hash

merge_sync_qc_anchors-IsMerge_example :
    IsMerge 2
      (anchor 1 ∷ anchor 3 ∷ anchor 3 ∷ anchor 2 ∷ [])
      (merge_sync_qc_anchors (anchor 1 ∷ anchor 3 ∷ []) (anchor 3 ∷ anchor 2 ∷ []) 2)
    × All IsReal (merge_sync_qc_anchors (anchor 1 ∷ anchor 3 ∷ []) (anchor 3 ∷ anchor 2 ∷ []) 2)
merge_sync_qc_anchors-IsMerge_example =
    merge_sync_qc_anchors-IsMerge (anchor 1 ∷ anchor 3 ∷ []) (anchor 3 ∷ anchor 2 ∷ []) 2 IsReal
      (omega arith, (omega arith, (omega arith, (omega arith, tt))))

run_better : should_adopt_certified_snapshot (state_at 3) 1 (state_at 2) 2 ≡ true
unfolding should_adopt_certified_snapshot
run_better = refl

-- Without votes, the longer chain is the better one.
abbrev quiet : NodeState
quiet = record node { proposal_votes = [] }

run_adopt : should_adopt_chain_snapshot quiet (state_at 1) snapshot ≡ true
unfolding should_adopt_chain_snapshot highest_local_qc branch_quality_with_extra_tip_vote Map.get
run_adopt = refl

adopt_excludes_push_example :
    should_push_local_snapshot_after_sync_response quiet (state_at 1) snapshot ≡ false
adopt_excludes_push_example = adopt_excludes_push quiet (state_at 1) snapshot run_adopt
