-- ===== src/Types/Evidence.antt =====
-- Quorum certificates and service aggregates: their roots, sums and well-formedness.
use entangrid.Prelude.{List, [], ◌∷◌, Bool, ◌&&◌, ◌==◌, not, is_empty, all, add_u64}
use entangrid.Types.Records.{
  HashBytes, ProposalVote, QuorumCertificate, ServiceAttestation, ServiceAggregate, ServiceCounters,
}
use entangrid.Types.Encoding.{Crypto, Hashed}

-- `ServiceCounters::default`
abbrev pub no_counters : ServiceCounters
no_counters = record {
  uptime_windows = 0;
  total_windows = 0;
  timely_deliveries = 0;
  expected_deliveries = 0;
  distinct_peers = 0;
  expected_peers = 0;
  failed_sessions = 0;
  invalid_receipts = 0;
}

-- The derived `PartialEq` of `ServiceCounters`.
abbrev pub counters_eq : ServiceCounters → ServiceCounters → Bool
counters_eq a b =
    a.uptime_windows == b.uptime_windows
    && a.total_windows == b.total_windows
    && a.timely_deliveries == b.timely_deliveries
    && a.expected_deliveries == b.expected_deliveries
    && a.distinct_peers == b.distinct_peers
    && a.expected_peers == b.expected_peers
    && a.failed_sessions == b.failed_sessions
    && a.invalid_receipts == b.invalid_receipts

-- One round of the loop of `aggregate_service_counters`.
unfoldable pub add_counters : ServiceCounters → ServiceCounters → ServiceCounters
add_counters a b = record {
  uptime_windows = add_u64 a.uptime_windows b.uptime_windows;
  total_windows = add_u64 a.total_windows b.total_windows;
  timely_deliveries = add_u64 a.timely_deliveries b.timely_deliveries;
  expected_deliveries = add_u64 a.expected_deliveries b.expected_deliveries;
  distinct_peers = add_u64 a.distinct_peers b.distinct_peers;
  expected_peers = add_u64 a.expected_peers b.expected_peers;
  failed_sessions = add_u64 a.failed_sessions b.failed_sessions;
  invalid_receipts = add_u64 a.invalid_receipts b.invalid_receipts;
}

-- The loop over the attestations, from the counters that it has so far.
unfoldable pub add_attestations : ServiceCounters → List ServiceAttestation → ServiceCounters
unfolding add_counters
add_attestations counters [] = counters
add_attestations counters (attestation ∷ rest) =
    add_attestations (add_counters counters attestation.counters) rest

unfoldable pub aggregate_service_counters : List ServiceAttestation → ServiceCounters
unfolding add_attestations
aggregate_service_counters attestations = add_attestations no_counters attestations

module _ (c : Crypto) where
  abbrev pub quorum_certificate_vote_root : List ProposalVote → HashBytes
  quorum_certificate_vote_root votes = c.canonical_hash (Hashed.votes votes)

  abbrev pub service_attestation_root : List ServiceAttestation → HashBytes
  service_attestation_root attestations = c.canonical_hash (Hashed.attestations attestations)

  -- `QuorumCertificate::is_well_formed`
  unfoldable pub qc_is_well_formed : QuorumCertificate → Bool
  qc_is_well_formed qc =
      not (is_empty qc.votes)
      && qc.vote_root == quorum_certificate_vote_root qc.votes
      && all
          (λ vote.
            vote.block_hash == qc.block_hash
            && vote.block_number == qc.block_number
            && vote.epoch == qc.epoch
            && vote.slot == qc.slot)
          qc.votes

  -- `ServiceAggregate::is_well_formed`
  unfoldable pub aggregate_is_well_formed : ServiceAggregate → Bool
  unfolding aggregate_service_counters
  aggregate_is_well_formed aggregate =
      not (is_empty aggregate.attestations)
      && aggregate.attestation_root == service_attestation_root aggregate.attestations
      && counters_eq aggregate.aggregate_counters
          (aggregate_service_counters aggregate.attestations)
      && all
          (λ attestation.
            attestation.subject_validator_id == aggregate.subject_validator_id
            && attestation.epoch == aggregate.epoch)
          aggregate.attestations
