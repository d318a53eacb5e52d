-- ===== src/Node/Commitments.antt =====
-- The receipts that come with a block's commitment or a snapshot: `validate_commitment_bundle`
-- and `validate_snapshot_receipts`.
pub mod Evidence
use entangrid.Prelude.{
  ℕ, List, [], ◌∷◌, Bool, true, false, not, ◌&&◌, ◌==◌, Result, ok, err, ◌>>=◌, ◌>>◌, bail_if,
  if◌then◌else◌,
}
use entangrid.BTree.Key.{nat_key}
use entangrid.BTree.Map.{BTreeMap}
use entangrid.BTree.Set
use entangrid.BTree.Set.{BTreeSet, contains}
use entangrid.Types.Records.{
  HashBytes, RelayReceipt, MessageClass, CommitmentSummary, TopologyCommitment, ServiceScoreWeights,
}
use entangrid.Types.Classes.{class_tag}
use entangrid.Types.Encoding.{Crypto}
use entangrid.Types.Floats.{Floats}
use entangrid.Consensus.Engine.{ConsensusEngine}
use entangrid.Consensus.Receipts.{validate_receipt_assignment}
use entangrid.Consensus.Score.{commitment_from_receipts_with_weights}
use entangrid.Node.Receipts.{receipt_hash, receipt_signing_hash, receipt_event_hash}

-- The derived `PartialEq` of the counts by class, of the summary and of `TopologyCommitment`.
abbrev classes_eq : BTreeMap MessageClass ℕ → BTreeMap MessageClass ℕ → Bool
classes_eq [] [] = true
classes_eq ((k, n) ∷ rest) ((k', n') ∷ rest') =
    class_tag k == class_tag k' && n == n' && classes_eq rest rest'
classes_eq _ _ = false

abbrev summary_eq : Floats → CommitmentSummary → CommitmentSummary → Bool
summary_eq f a b =
    classes_eq a.by_message_class b.by_message_class
    && a.distinct_peers == b.distinct_peers
    && f.eq a.relay_score b.relay_score

unfoldable pub commitment_eq : Floats → TopologyCommitment → TopologyCommitment → Bool
commitment_eq f a b =
    a.epoch == b.epoch
    && a.validator_id == b.validator_id
    && a.receipt_root == b.receipt_root
    && a.receipt_count == b.receipt_count
    && summary_eq f a.summary b.summary

module _ (c : Crypto) (e : ConsensusEngine) where
  -- The loop of `validate_commitment_bundle`, with the hashes that it has met.
  unfoldable pub check_commitment_receipts :
      TopologyCommitment
      → BTreeSet HashBytes
      → BTreeSet HashBytes
      → List RelayReceipt
      → Result (Unit {0})
  unfolding validate_receipt_assignment
  check_commitment_receipts commitment exact events [] = ok tt
  check_commitment_receipts commitment exact events (r ∷ rest) =
      let next =
        check_commitment_receipts commitment (Set.insert exact (receipt_hash c r))
          (Set.insert events (receipt_event_hash c r)) rest in
      bail_if (not (r.source_validator_id == commitment.validator_id))
        "commitment receipt source mismatch"
      >> bail_if (not (r.epoch == commitment.epoch)) "commitment receipt epoch mismatch"
      >> (c.verify r.witness_validator_id (receipt_signing_hash c r) r.signature >>= λ verified.
          bail_if (not verified) "invalid commitment receipt signature")
      >> validate_receipt_assignment c e r
      >> bail_if (contains exact (receipt_hash c r)) "duplicate receipt in commitment"
      >> bail_if (contains events (receipt_event_hash c r)) "duplicate receipt event in commitment"
      >> next

  unfoldable pub validate_commitment_bundle :
      Floats → TopologyCommitment → List RelayReceipt → ServiceScoreWeights → Result (Unit {0})
  unfolding check_commitment_receipts commitment_eq
  validate_commitment_bundle f commitment receipts weights =
      check_commitment_receipts commitment [] [] receipts
      >> bail_if
          (not (
            commitment_eq f
              (commitment_from_receipts_with_weights f c e commitment.validator_id commitment.epoch
                receipts 0 0 weights)
              commitment))
          "receipt root mismatch"

  -- The loop of `validate_snapshot_receipts`.
  unfoldable pub check_snapshot_receipts :
      BTreeSet HashBytes → BTreeSet HashBytes → List RelayReceipt → Result (List RelayReceipt)
  unfolding validate_receipt_assignment
  check_snapshot_receipts exact events [] = ok []
  check_snapshot_receipts exact events (r ∷ rest) =
      let next =
        check_snapshot_receipts (Set.insert exact (receipt_hash c r))
          (Set.insert events (receipt_event_hash c r)) rest in
      bail_if (contains exact (receipt_hash c r)) "duplicate receipt in snapshot"
      >> bail_if (contains events (receipt_event_hash c r)) "duplicate receipt event in snapshot"
      >> (c.verify r.witness_validator_id (receipt_signing_hash c r) r.signature >>= λ verified.
          bail_if (not verified) "invalid receipt signature in snapshot")
      >> validate_receipt_assignment c e r
      >> (next >>= λ sanitized. ok (r ∷ sanitized))

  unfoldable pub validate_snapshot_receipts : List RelayReceipt → Result (List RelayReceipt)
  unfolding check_snapshot_receipts
  validate_snapshot_receipts receipts = check_snapshot_receipts [] [] receipts
