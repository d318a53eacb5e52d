-- ===== src/Node/Gating.antt =====
-- The gate on proposers: the confirmed evidence about a validator before an epoch, and whether a
-- block's proposer passes.
use entangrid.Prelude.{
  ℕ, ◌-◌, List, [], ◌∷◌, Option, none, some, Bool, true, false, not, ◌&&◌, ◌==◌, leb, max, map,
  filter, last, map_option, unwrap_or, is_ok, is_some, add_u64, saturating_add, saturating_mul,
  if◌then◌else◌,
}
use entangrid.BTree.Key.{nat_key}
use entangrid.BTree.Map
use entangrid.Types.Records.{ValidatorId, Epoch, F64, ServiceCounters, ServiceAggregate, Block}
use entangrid.Types.Encoding.{Crypto}
use entangrid.Types.Evidence.{no_counters}
use entangrid.Types.Floats.{Floats, f64_one}
use entangrid.Consensus.Committee.{validate_service_aggregate}
use entangrid.Consensus.Score.{compute_service_score_with_weights}
use entangrid.Node.State.{NodeState}

pub data V2ServiceEvidenceState : Type 0 where
  recent_confirmed : Epoch → ServiceCounters → F64 → V2ServiceEvidenceState
  stale_confirmed no_evidence : V2ServiceEvidenceState

pub data V2GatingState : Type 0 where
  allow_no_evidence allow_insufficient_evidence : V2GatingState
  allow_score reject_score : F64 → V2GatingState

unfoldable pub accumulate_weighted_counters :
    ServiceCounters → ServiceCounters → ℕ → ServiceCounters
accumulate_weighted_counters a n weight =
    let plus : ℕ → ℕ → ℕ = λ x y. saturating_add x (saturating_mul y weight) in
    record {
      uptime_windows = plus a.uptime_windows n.uptime_windows;
      total_windows = plus a.total_windows n.total_windows;
      timely_deliveries = plus a.timely_deliveries n.timely_deliveries;
      expected_deliveries = plus a.expected_deliveries n.expected_deliveries;
      distinct_peers = plus a.distinct_peers n.distinct_peers;
      expected_peers = plus a.expected_peers n.expected_peers;
      failed_sessions = plus a.failed_sessions n.failed_sessions;
      invalid_receipts = plus a.invalid_receipts n.invalid_receipts;
    }

-- `range((validator_id, first)..=(validator_id, last))` of the aggregates.
abbrev pub aggregates_in : NodeState → ValidatorId → Epoch → Epoch → List ServiceAggregate
aggregates_in s validator_id first final =
    map (λ e. e.1)
      (filter (λ e. e.0.0 == validator_id && leb first e.0.1 && leb e.0.1 final)
        s.service_aggregates)

unfoldable pub latest_service_aggregate_before_epoch :
    NodeState → ValidatorId → Epoch → Option ServiceAggregate
latest_service_aggregate_before_epoch s validator_id current_epoch =
    if current_epoch == 0 then none else last (aggregates_in s validator_id 0 (current_epoch - 1))

unfoldable pub service_score_for_validator : NodeState → ValidatorId → F64
service_score_for_validator s validator_id =
    unwrap_or (Map.get s.latest_service_scores validator_id) f64_one

unfoldable pub should_enforce_service_gating_for_block : Bool → Bool → Epoch → Epoch → Bool
should_enforce_service_gating_for_block enabled local_proposal epoch start_epoch =
    enabled && local_proposal && leb start_epoch epoch

module _ (f : Floats) (c : Crypto) where
  -- The loop of `weighted_recent_service_evidence_before_epoch`.
  unfoldable pub weigh_aggregates :
      NodeState
      → Epoch
      → List ServiceAggregate
      → ServiceCounters × Option Epoch
      → ServiceCounters × Option Epoch
  unfolding accumulate_weighted_counters
  weigh_aggregates s first_epoch [] so_far = so_far
  weigh_aggregates s first_epoch (aggregate ∷ rest) (counters, latest) =
      weigh_aggregates s first_epoch rest (
        if is_ok (validate_service_aggregate c s.consensus aggregate)
        then (
          accumulate_weighted_counters counters aggregate.aggregate_counters
              (add_u64 (aggregate.epoch - first_epoch) 1),
          some aggregate.epoch,
        )
        else (counters, latest))

  -- The fallback to the latest aggregate where the window has none.
  unfoldable pub or_fallback :
      NodeState
      → Option ServiceAggregate
      → ServiceCounters × Option Epoch
      → ServiceCounters × Option Epoch
  unfolding accumulate_weighted_counters
  or_fallback s (some fallback) (counters, none) =
      if is_ok (validate_service_aggregate c s.consensus fallback)
      then (
        accumulate_weighted_counters counters fallback.aggregate_counters 1,
        some fallback.epoch,
      )
      else (counters, none)
  or_fallback s _ so_far = so_far

  unfoldable pub weighted_recent_service_evidence_before_epoch :
      NodeState → ValidatorId → Epoch → Option (Epoch × ServiceCounters × F64)
  unfolding weigh_aggregates or_fallback latest_service_aggregate_before_epoch
  weighted_recent_service_evidence_before_epoch s validator_id current_epoch =
      let first_epoch = current_epoch - max s.service_score_window_epochs 1 in
      let weighed =
        or_fallback s (latest_service_aggregate_before_epoch s validator_id current_epoch) (
          weigh_aggregates s first_epoch
            (aggregates_in s validator_id first_epoch (current_epoch - 1)) (no_counters, none)) in
      if current_epoch == 0
      then none
      else map_option
          (λ latest_epoch. (
            latest_epoch,
            weighed.0,
            compute_service_score_with_weights f weighed.0 s.service_score_weights,
          ))
          weighed.1

  unfoldable pub v2_service_evidence_state :
      NodeState → ValidatorId → Epoch → V2ServiceEvidenceState
  unfolding weighted_recent_service_evidence_before_epoch
  v2_service_evidence_state s validator_id current_epoch =
      elim (weighted_recent_service_evidence_before_epoch s validator_id current_epoch) [
        | some (latest_epoch, counters, score) ↦
            V2ServiceEvidenceState.recent_confirmed latest_epoch counters score
        | none ↦
            if is_some (latest_service_aggregate_before_epoch s validator_id current_epoch)
            then V2ServiceEvidenceState.stale_confirmed
            else V2ServiceEvidenceState.no_evidence
      ]

  unfoldable pub v2_gating_state : NodeState → ValidatorId → Epoch → V2GatingState
  unfolding v2_service_evidence_state
  v2_gating_state s validator_id epoch =
      if epoch == 0
      then V2GatingState.allow_no_evidence
      else elim (v2_service_evidence_state s validator_id epoch) [
        | V2ServiceEvidenceState.recent_confirmed _ _ score ↦
            if f.lt score s.service_gating_threshold
            then V2GatingState.reject_score score
            else V2GatingState.allow_score score
        | V2ServiceEvidenceState.stale_confirmed ↦ V2GatingState.allow_insufficient_evidence
        | V2ServiceEvidenceState.no_evidence ↦ V2GatingState.allow_no_evidence
      ]

  -- What the gate's answer means: whether it is enforced, and on which score.
  abbrev gate_of : V2GatingState → Bool × Option F64
  gate_of (V2GatingState.allow_score score) = (true, some score)
  gate_of (V2GatingState.reject_score score) = (true, some score)
  gate_of _ = (false, none)

  -- `service_gating_enforced` and `service_score` of `accept_block`.
  unfoldable pub gate_for_block : NodeState → Block → Bool → Bool × Option F64
  unfolding v2_gating_state service_score_for_validator should_enforce_service_gating_for_block
  gate_for_block s block local_proposal =
      if not (
        should_enforce_service_gating_for_block s.enable_service_gating local_proposal
          block.header.epoch s.service_gating_start_epoch)
      then (false, none)
      else if s.consensus_v2
      then gate_of (v2_gating_state s block.header.proposer_id block.header.epoch)
      else (true, some (service_score_for_validator s block.header.proposer_id))
