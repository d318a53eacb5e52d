-- ===== src/Consensus/Committee.antt =====
-- The service committee of a validator, its aggregators, and the aggregates that it signs.
use entangrid.Prelude.{
  ℕ, ◌+◌, ◌*◌, ◌/◌, List, [], ◌∷◌, Bool, Result, ok, err, min, not, ltb, ◌==◌, if◌then◌else◌,
  length, take, bail_if, ◌>>◌, ◌>>=◌, map_option, unwrap_or,
}
use entangrid.BTree.Key.{nat_key}
use entangrid.BTree.Set
use entangrid.BTree.Set.{BTreeSet, contains}
use entangrid.Types.Records.{ValidatorId, Epoch, ServiceAttestation, ServiceAggregate}
use entangrid.Types.Encoding.{Crypto}
use entangrid.Types.Evidence.{aggregate_is_well_formed}
use entangrid.Consensus.Engine.{ConsensusEngine, sort, assignment_for}

unfoldable pub service_committee_threshold : ℕ → ℕ
service_committee_threshold committee_size =
    if committee_size == 0 then 0 else committee_size * 2 / 3 + 1

unfoldable pub service_aggregator_count : ℕ → ℕ
service_aggregator_count committee_size = min committee_size 3

-- `into_iter().collect::<BTreeSet<_>>()`
unfoldable pub to_set : List ℕ → BTreeSet ℕ
to_set [] = []
to_set (x ∷ xs) = Set.insert (to_set xs) x

-- The loop over the attestations of `validate_service_aggregate`: the members that have attested,
-- from those so far.
unfoldable pub attest_members :
    BTreeSet ValidatorId
    → BTreeSet ValidatorId
    → List ServiceAttestation
    → Result (BTreeSet ValidatorId)
attest_members committee_members attested [] = ok attested
attest_members committee_members attested (a ∷ rest) =
    let next = attest_members committee_members (Set.insert attested a.committee_member_id) rest in
    if not (contains committee_members a.committee_member_id)
    then err "attestation signer is not in the service committee"
    else if contains attested a.committee_member_id
    then err "duplicate committee attestation"
    else next

module _ (c : Crypto) (e : ConsensusEngine) where
  unfoldable pub service_committee_for : Epoch → ValidatorId → List ValidatorId
  service_committee_for epoch subject =
      unwrap_or (map_option (λ a. a.witnesses) (assignment_for c e epoch subject)) []

  unfoldable pub service_aggregators_for : Epoch → ValidatorId → List ValidatorId
  unfolding service_aggregator_count
  service_aggregators_for epoch subject =
      let committee = sort (service_committee_for epoch subject) in
      take (service_aggregator_count (length committee)) committee

  unfoldable pub is_service_aggregator_for : Epoch → ValidatorId → ValidatorId → Bool
  unfolding service_aggregators_for
  is_service_aggregator_for epoch subject validator_id =
      contains (service_aggregators_for epoch subject) validator_id

  unfoldable pub validate_service_aggregate : ServiceAggregate → Result (Unit {0})
  validate_service_aggregate aggregate = do
    bail_if (not (aggregate_is_well_formed c aggregate)) "aggregate payload is malformed"
    let committee = service_committee_for aggregate.epoch aggregate.subject_validator_id
    let threshold = service_committee_threshold (length committee)
    attested ← attest_members (to_set committee) [] aggregate.attestations
    bail_if (ltb (length attested) threshold) "aggregate does not meet service committee threshold"
