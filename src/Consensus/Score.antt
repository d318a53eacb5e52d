-- ===== src/Consensus/Score.antt =====
-- Service scores, commitments and the gate on proposers.
use entangrid.Prelude.{
  ℕ, List, [], Option, none, some, Bool, ◌&&◌, Result, min, max, not, ◌==◌, if◌then◌else◌, length,
  bail_if, ◌>>◌, add_u64, unwrap_or, is_ok,
}
use entangrid.BTree.Key.{nat_key}
use entangrid.Types.Records.{
  F64, ValidatorId, Epoch, HashBytes, RelayReceipt, ServiceCounters, ServiceScoreWeights,
  ServiceAggregate, TopologyCommitment, Block,
}
use entangrid.Types.Floats.{Floats, f64_zero, clamp_unit, default_service_score_weights}
use entangrid.Types.Encoding.{Crypto}
use entangrid.Consensus.Engine.{ConsensusEngine, proposer_for_slot}
use entangrid.Consensus.Receipts.{
  no_tally, tally_receipts, count_classes, compute_receipt_root, counters_from_receipts,
  receipts_for_validator,
}
use entangrid.Consensus.Committee.{validate_service_aggregate}

module _ (f : Floats) where
  unfoldable pub ratio : ℕ → ℕ → F64
  unfolding clamp_unit
  ratio numerator denominator =
      if denominator == 0
      then f64_zero
      else clamp_unit f (f.div (f.of_u64 numerator) (f.of_u64 denominator))

  unfoldable pub capped_ratio : ℕ → ℕ → F64
  unfolding ratio
  capped_ratio numerator denominator = ratio (min numerator denominator) denominator

  unfoldable pub compute_service_score_with_weights : ServiceCounters → ServiceScoreWeights → F64
  unfolding capped_ratio
  compute_service_score_with_weights n weights =
      let uptime_ratio = capped_ratio n.uptime_windows n.total_windows in
      let delivery_ratio = capped_ratio n.timely_deliveries n.expected_deliveries in
      let diversity_ratio = capped_ratio n.distinct_peers n.expected_peers in
      let penalty_ratio =
        ratio (min (add_u64 n.failed_sessions n.invalid_receipts) (max n.total_windows 1))
          (max n.total_windows 1) in
      clamp_unit f (
        f.sub
          (f.add
            (f.add (f.mul weights.uptime_weight uptime_ratio)
              (f.mul weights.delivery_weight delivery_ratio))
            (f.mul weights.diversity_weight diversity_ratio))
          (f.mul weights.penalty_weight penalty_ratio))

  module _ (c : Crypto) (e : ConsensusEngine) where
    unfoldable pub commitment_from_receipts_with_weights :
        ValidatorId → Epoch → List RelayReceipt → ℕ → ℕ → ServiceScoreWeights → TopologyCommitment
    unfolding counters_from_receipts compute_service_score_with_weights count_classes
    commitment_from_receipts_with_weights validator_id epoch receipts failed invalid weights =
        let counters = counters_from_receipts c e validator_id epoch receipts failed invalid in
        record {
          epoch = epoch;
          validator_id = validator_id;
          receipt_root = compute_receipt_root c receipts;
          receipt_count = length receipts;
          summary = record {
            by_message_class = count_classes [] receipts;
            distinct_peers = length (tally_receipts e no_tally receipts).distinct_peers;
            relay_score = compute_service_score_with_weights counters weights;
          };
        }

    unfoldable pub commitment_for_validator_with_weights :
        ValidatorId → Epoch → List RelayReceipt → ℕ → ℕ → ServiceScoreWeights → TopologyCommitment
    unfolding commitment_from_receipts_with_weights receipts_for_validator
    commitment_for_validator_with_weights validator_id epoch receipts failed invalid weights =
        commitment_from_receipts_with_weights validator_id epoch
          (receipts_for_validator validator_id epoch receipts) failed invalid weights

    unfoldable pub confirmed_service_score_for_epoch :
        Option ServiceAggregate → ServiceScoreWeights → Epoch → Option F64
    confirmed_service_score_for_epoch none weights current_epoch = none
    confirmed_service_score_for_epoch (some aggregate) weights current_epoch =
        if not (add_u64 aggregate.epoch 1 == current_epoch)
        then none
        else if not (is_ok (validate_service_aggregate c e aggregate))
        then none
        else some (compute_service_score_with_weights aggregate.aggregate_counters weights)

    unfoldable pub proposer_is_service_eligible : Option ServiceAggregate → F64 → Epoch → Bool
    unfolding confirmed_service_score_for_epoch
    proposer_is_service_eligible aggregate threshold current_epoch = f.le threshold (
        unwrap_or
          (confirmed_service_score_for_epoch aggregate default_service_score_weights current_epoch)
          f64_zero)

    -- `none` from the proposer is the panic on an empty list of validators.
    unfoldable pub validate_block_basic :
        Block → HashBytes → Option F64 → Bool → F64 → Option (Result (Unit {0}))
    validate_block_basic block expected_parent_hash service_score enable_gating threshold =
        elim (proposer_for_slot c e block.header.slot) [
          | none ↦ none
          | some expected_proposer ↦ some do
            bail_if (not (block.header.proposer_id == expected_proposer)) "unexpected proposer"
            bail_if (not (block.header.parent_hash == expected_parent_hash))
                "unexpected parent hash"
            bail_if (enable_gating && f.lt (unwrap_or service_score f64_zero) threshold)
                "service gating rejected proposer"
        ]
