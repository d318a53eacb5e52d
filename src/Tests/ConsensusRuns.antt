-- ===== src/Tests/ConsensusRuns.antt =====
-- Assignments, aggregates, slots and counters with three validators.
use entangrid.Prelude.{◌+◌, ◌*◌, ◌≤◌, ◌<◌, ◌≡◌, refl, [], ◌∷◌, some, true, ok, arith, ◌↔◌, length}
use entangrid.BTree.Key.{nat_key}
use entangrid.BTree.Map
use entangrid.BTree.Set
use entangrid.BTree.Set.{contains}
use entangrid.Quorum.{IsNodup, IsSubset, shared}
use entangrid.Types.Records.{EpochAssignment}
use entangrid.Types.Evidence.{
  aggregate_is_well_formed, aggregate_service_counters, add_attestations, add_counters,
}
use entangrid.Types.Encoding.Words.{le_bytes, hash_bytes, leading_u64, from_le_bytes}
use entangrid.Consensus.Engine.{
  slot_at, epoch_for_slot, rotate_left, relations, epoch_seed, rotated_ids, assignment_at,
  assign_from, assignments_for_epoch, assignment_for,
}
use entangrid.Consensus.Receipts.{validate_receipt_assignment, counters_from_receipts}
use entangrid.Consensus.Committee.{
  service_committee_for, service_committee_threshold, validate_service_aggregate, to_set,
  attest_members,
}
use entangrid.Consensus.Aggregates.{attesters, validate_service_aggregate-ok, aggregates_overlap}
use entangrid.Consensus.Assignments.{
  IsFairAssignment, assignment_for-IsFair, validate_receipt_assignment_iff,
}
use entangrid.Consensus.Slots.{slot_at_interval}
use entangrid.Consensus.Counters.{IsPlausible, counters_from_receipts-IsPlausible}
use entangrid.Tests.Fixtures.{crypto, engine, receipt, aggregate}

run_slot : slot_at engine 7500 ≡ some 2
unfolding slot_at
run_slot = refl

slot_at_interval_example : (5000 + 1000 * 2 ≤ 7500) × (7500 < 5000 + 1000 * (2 + 1))
slot_at_interval_example = slot_at_interval engine 7500 2 run_slot (omega arith)

distinct_ids : IsNodup engine.validator_ids
unfolding contains
distinct_ids = (refl, (refl, (refl, tt)))

known_validator : contains engine.validator_ids 1 ≡ true
unfolding contains
known_validator = refl

assignment_for-IsFair_example :
    (a : EpochAssignment) × (assignment_for crypto engine 0 1 ≡ some a)
    × IsFairAssignment engine.validator_ids engine.genesis.witness_count 1 a
assignment_for-IsFair_example = assignment_for-IsFair crypto engine distinct_ids 0 1 known_validator

validate_receipt_assignment_iff_example :
    (validate_receipt_assignment crypto engine receipt ≡ ok tt) ↔ (
      (epoch_for_slot engine 3 ≡ 0)
      × (contains (service_committee_for crypto engine 0 1) 3 ≡ true)
      × (contains (service_committee_for crypto engine 0 1) 2 ≡ true))
validate_receipt_assignment_iff_example =
    validate_receipt_assignment_iff crypto engine receipt distinct_ids

run_aggregate : validate_service_aggregate crypto engine aggregate ≡ ok tt
unfolding validate_service_aggregate aggregate_is_well_formed aggregate_service_counters
    add_attestations add_counters service_committee_for service_committee_threshold to_set
    attest_members contains Set.insert assignment_for assignments_for_epoch assign_from
    assignment_at relations rotated_ids rotate_left epoch_seed leading_u64 from_le_bytes le_bytes
    hash_bytes Map.get Map.insert
run_aggregate = refl

validate_service_aggregate-ok_example :
    (aggregate_is_well_formed crypto aggregate ≡ true)
    × IsNodup (attesters aggregate.attestations)
    × IsSubset (attesters aggregate.attestations) (service_committee_for crypto engine 0 1)
    × (service_committee_threshold (length (service_committee_for crypto engine 0 1))
        ≤ length (attesters aggregate.attestations))
validate_service_aggregate-ok_example =
    validate_service_aggregate-ok crypto engine aggregate run_aggregate

aggregates_overlap_example :
    length (service_committee_for crypto engine 0 1)
    < 3 * length (shared (attesters aggregate.attestations) (attesters aggregate.attestations))
aggregates_overlap_example =
    aggregates_overlap crypto engine aggregate aggregate run_aggregate run_aggregate refl refl

receipt_epoch : epoch_for_slot engine 3 ≡ 0
unfolding epoch_for_slot
receipt_epoch = refl

counters_from_receipts-IsPlausible_example :
    IsPlausible (receipt ∷ []) (counters_from_receipts crypto engine 1 0 (receipt ∷ []) 0 0)
counters_from_receipts-IsPlausible_example =
    counters_from_receipts-IsPlausible crypto engine 1 0 (receipt ∷ []) 0 0 (omega arith)
      (receipt_epoch, tt)
