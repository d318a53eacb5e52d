-- ===== src/Consensus/Receipts.antt =====
-- Relay receipts: whose they may be, and the counters and commitments that are made of them.
use entangrid.Prelude.{
  ℕ, List, [], ◌∷◌, map, Result, not, max, leb, ◌==◌, ◌&&◌, if◌then◌else◌, length, filter, is_empty,
  bail_if, ◌>>◌, add_u64, unwrap_or,
}
use entangrid.BTree.Key.{nat_key}
use entangrid.BTree.Map
use entangrid.BTree.Map.{BTreeMap}
use entangrid.BTree.Set
use entangrid.BTree.Set.{BTreeSet, contains}
use entangrid.Types.Records.{
  ValidatorId, Epoch, HashBytes, RelayReceipt, EpochAssignment, MessageClass, ServiceCounters,
}
use entangrid.Types.Classes.{class_key, is_heartbeat}
use entangrid.Types.Evidence.{no_counters}
use entangrid.Types.Encoding.{Crypto, Hashed}
use entangrid.Consensus.Engine.{
  ConsensusEngine, sort, epoch_for_slot, assignment_for, is_witness_for, is_relay_target_for,
}

unfoldable pub receipts_for_validator : ValidatorId → Epoch → List RelayReceipt → List RelayReceipt
receipts_for_validator validator_id epoch receipts =
    filter (λ r. r.source_validator_id == validator_id && r.epoch == epoch) receipts

-- What the loops over receipts collect: the slots of heartbeats, the receipts in time, the peers.
pub record Tally : Type 0 where
  pub heartbeat_slots : BTreeSet ℕ
  pub timely_deliveries : ℕ
  pub distinct_peers : BTreeSet ValidatorId

abbrev pub no_tally : Tally
no_tally = record { heartbeat_slots = []; timely_deliveries = 0; distinct_peers = [] }

module _ (e : ConsensusEngine) where
  -- One round of the loop of `counters_from_receipts`.
  unfoldable pub tally_receipt : Tally → RelayReceipt → Tally
  tally_receipt t r = record {
    heartbeat_slots =
        if is_heartbeat r.message_class
        then Set.insert t.heartbeat_slots r.slot
        else t.heartbeat_slots;
    timely_deliveries =
        if leb r.latency_bucket_ms e.genesis.slot_duration_millis
        then add_u64 t.timely_deliveries 1
        else t.timely_deliveries;
    distinct_peers = Set.insert t.distinct_peers r.destination_validator_id;
  }

  unfoldable pub tally_receipts : Tally → List RelayReceipt → Tally
  unfolding tally_receipt
  tally_receipts t [] = t
  tally_receipts t (r ∷ rest) = tally_receipts (tally_receipt t r) rest

-- The number of receipts of each class: `entry(class).or_insert(0) += 1`.
unfoldable pub count_classes : BTreeMap MessageClass ℕ → List RelayReceipt → BTreeMap MessageClass ℕ
count_classes m [] = m
count_classes m (r ∷ rest) =
    count_classes
      (Map.insert m r.message_class (add_u64 (unwrap_or (Map.get m r.message_class) 0) 1)) rest

module _ (c : Crypto) where
  unfoldable pub compute_receipt_root : List RelayReceipt → HashBytes
  compute_receipt_root receipts =
      c.canonical_hash
        (Hashed.hashes (sort (map (λ r. c.canonical_hash (Hashed.receipt r)) receipts)))

module _ (c : Crypto) (e : ConsensusEngine) where
  unfoldable pub validate_receipt_assignment : RelayReceipt → Result (Unit {0})
  validate_receipt_assignment r = do
    bail_if (not (epoch_for_slot e r.slot == r.epoch)) "receipt epoch does not match slot"
    bail_if (not (is_witness_for c e r.witness_validator_id r.source_validator_id r.epoch))
        "receipt witness is not assigned for source validator"
    bail_if (not (is_relay_target_for c e r.source_validator_id r.destination_validator_id r.epoch))
        "receipt destination is not an assigned relay target"

  -- `assignment_for(…).unwrap_or(EpochAssignment { witnesses: [], relay_targets: [] })`
  unfoldable pub assignment_or_empty : Epoch → ValidatorId → EpochAssignment
  assignment_or_empty epoch validator_id =
      unwrap_or (assignment_for c e epoch validator_id)
        (record { epoch = epoch; validator_id = validator_id; witnesses = []; relay_targets = [] })

  unfoldable pub counters_from_receipts :
      ValidatorId → Epoch → List RelayReceipt → ℕ → ℕ → ServiceCounters
  unfolding assignment_or_empty tally_receipts
  counters_from_receipts validator_id epoch receipts failed_sessions invalid_receipts =
      let t = tally_receipts e no_tally receipts in
      record {
        uptime_windows = length t.heartbeat_slots;
        total_windows = max e.genesis.slots_per_epoch 1;
        timely_deliveries = t.timely_deliveries;
        expected_deliveries = max e.genesis.slots_per_epoch 1;
        distinct_peers = length t.distinct_peers;
        expected_peers = max (length (assignment_or_empty epoch validator_id).relay_targets) 1;
        failed_sessions = failed_sessions;
        invalid_receipts = invalid_receipts;
      }

  unfoldable pub counters_for_validator :
      ValidatorId → Epoch → List RelayReceipt → ℕ → ℕ → ServiceCounters
  unfolding counters_from_receipts receipts_for_validator
  counters_for_validator validator_id epoch receipts failed_sessions invalid_receipts =
      counters_from_receipts validator_id epoch (receipts_for_validator validator_id epoch receipts)
        failed_sessions invalid_receipts

  -- What one observer can attest. The loop's peers are not read here.
  unfoldable pub counters_for_validator_from_observer :
      ValidatorId → ValidatorId → Epoch → List RelayReceipt → ServiceCounters
  unfolding assignment_or_empty tally_receipts
  counters_for_validator_from_observer validator_id observer epoch receipts =
      let observed =
        filter
          (λ r.
            r.source_validator_id == validator_id
            && r.epoch == epoch
            && r.witness_validator_id == observer)
          receipts in
      let t = tally_receipts e no_tally observed in
      if not (contains (assignment_or_empty epoch validator_id).witnesses observer)
      then no_counters
      else record {
        uptime_windows = length t.heartbeat_slots;
        total_windows = max e.genesis.slots_per_epoch 1;
        timely_deliveries = t.timely_deliveries;
        expected_deliveries = max e.genesis.slots_per_epoch 1;
        distinct_peers = if is_empty observed then 0 else 1;
        expected_peers = 1;
        failed_sessions = 0;
        invalid_receipts = 0;
      }
