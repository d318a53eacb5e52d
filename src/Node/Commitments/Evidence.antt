-- ===== src/Node/Commitments/Evidence.antt =====
-- What accepted receipts and commitments are worth.
use entangrid.Prelude.{
  List, [], ◌∷◌, Bool, true, false, not, ◌≡◌, refl, ap, map, All, Result, ok, ◌>>=◌, >>=-eq-ok,
  bail_if, arith, ==_iff, ok-injective, >>-eq-ok, bail_if-ok, String, err, sym, ◌∙◌,
}
use entangrid.BTree.Key.{nat_key}
use entangrid.BTree.Set
use entangrid.BTree.Set.{BTreeSet, contains}
use entangrid.Quorum.{IsNodup}
use entangrid.Types.Records.{HashBytes, RelayReceipt, TopologyCommitment, ServiceScoreWeights}
use entangrid.Types.Encoding.{Crypto}
use entangrid.Types.Floats.{Floats}
use entangrid.Consensus.Engine.{ConsensusEngine}
use entangrid.Consensus.Receipts.{validate_receipt_assignment}
use entangrid.Consensus.Score.{commitment_from_receipts_with_weights}
use entangrid.Node.Receipts.{receipt_hash, receipt_signing_hash, receipt_event_hash}
use entangrid.Node.Receipts.Unique.{IsFresh, IsFresh-cons}
use entangrid.Node.Commitments.{
  check_commitment_receipts, commitment_eq, validate_commitment_bundle, check_snapshot_receipts,
  validate_snapshot_receipts,
}

pub not-false : (b : Bool) → not b ≡ false → b ≡ true
not-false b h = ground arith

verified-ok :
    (answer : Result Bool) (text : String)
    → (answer >>= λ verified. bail_if (not verified) text) ≡ ok tt
    → answer ≡ ok true
verified-ok (ok true) text h = refl
verified-ok (ok false) text h = cc
verified-ok (err reason) text h = cc

module _ (c : Crypto) (e : ConsensusEngine) where
  -- The witness has signed the receipt, and was assigned for its source, epoch and destination.
  pub record IsWitnessed (r : RelayReceipt) : Type 0 where
    pub signed : c.verify r.witness_validator_id (receipt_signing_hash c r) r.signature ≡ ok true
    pub assigned : validate_receipt_assignment c e r ≡ ok tt

  -- Receipts of one validator and epoch.
  pub record IsOf (commitment : TopologyCommitment) (r : RelayReceipt) : Type 0 where
    pub source : r.source_validator_id ≡ commitment.validator_id
    pub epoch : r.epoch ≡ commitment.epoch
    pub witnessed : IsWitnessed r

  check_commitment_receipts-ok :
      (commitment : TopologyCommitment) (exact events : BTreeSet HashBytes)
      (receipts : List RelayReceipt)
      → check_commitment_receipts c e commitment exact events receipts ≡ ok tt
      → All (IsOf commitment) receipts
        × IsFresh exact (map (receipt_hash c) receipts)
        × IsFresh events (map (receipt_event_hash c) receipts)
  unfolding check_commitment_receipts contains
  check_commitment_receipts-ok commitment exact events [] h = (
    tt,
    record { distinct = tt; fresh = λ x k. refl },
    record { distinct = tt; fresh = λ x k. refl },
  )
  check_commitment_receipts-ok commitment exact events (r ∷ rest) h =
      let (h6, next) = >>-eq-ok _ _ h in
      let (h5, new_event) = >>-eq-ok _ _ h6 in
      let (h4, new_hash) = >>-eq-ok _ _ h5 in
      let (h3, assigned) = >>-eq-ok _ _ h4 in
      let (h2, signed) = >>-eq-ok _ _ h3 in
      let (same_source, same_epoch) = >>-eq-ok _ _ h2 in
      let (all_rest, hashes, event_hashes) =
        check_commitment_receipts-ok commitment (Set.insert exact (receipt_hash c r))
          (Set.insert events (receipt_event_hash c r)) rest next in
      (
        (
          record {
            source =
                (==_iff r.source_validator_id commitment.validator_id).0
                  (not-false _ (bail_if-ok _ _ same_source));
            epoch = (==_iff r.epoch commitment.epoch).0 (not-false _ (bail_if-ok _ _ same_epoch));
            witnessed = record { signed = verified-ok _ _ signed; assigned = assigned };
          },
          all_rest,
        ),
        IsFresh-cons exact (receipt_hash c r) _ (bail_if-ok _ _ new_hash) hashes,
        IsFresh-cons events (receipt_event_hash c r) _ (bail_if-ok _ _ new_event) event_hashes,
      )

  -- A commitment that passes `validate_commitment_bundle` with its receipts is the one that the
  -- receipts make, all of them of its validator and epoch, each signed by a witness that the
  -- engine assigned, and no two of them the same or about the same event.
  pub validate_commitment_bundle-ok :
      (f : Floats) (commitment : TopologyCommitment) (receipts : List RelayReceipt)
      (weights : ServiceScoreWeights)
      → validate_commitment_bundle c e f commitment receipts weights ≡ ok tt
      → All (IsOf commitment) receipts
        × IsNodup (map (receipt_hash c) receipts)
        × IsNodup (map (receipt_event_hash c) receipts)
        × (commitment_eq f
              (commitment_from_receipts_with_weights f c e commitment.validator_id commitment.epoch
                receipts 0 0 weights)
              commitment
            ≡ true)
  unfolding validate_commitment_bundle
  validate_commitment_bundle-ok f commitment receipts weights h =
      let (checked, same) = >>-eq-ok _ _ h in
      let (of, hashes, events) = check_commitment_receipts-ok commitment [] [] receipts checked in
      (of, hashes.distinct, events.distinct, not-false _ (bail_if-ok _ _ same))

  check_snapshot_receipts-ok :
      (exact events : BTreeSet HashBytes) (receipts : List RelayReceipt) {out : List RelayReceipt}
      → check_snapshot_receipts c e exact events receipts ≡ ok out
      → (out ≡ receipts)
        × All IsWitnessed receipts
        × IsFresh exact (map (receipt_hash c) receipts)
        × IsFresh events (map (receipt_event_hash c) receipts)
  unfolding check_snapshot_receipts contains
  check_snapshot_receipts-ok exact events [] {out} h = (
    let same : [] ≡ out = ok-injective h in sym same,
    tt,
    record { distinct = tt; fresh = λ x k. refl },
    record { distinct = tt; fresh = λ x k. refl },
  )
  check_snapshot_receipts-ok exact events (r ∷ rest) {out} h =
      let (h4, h5) = >>-eq-ok _ _ h in
      let (h3, assigned) = >>-eq-ok _ _ h4 in
      let (h2, signed) = >>-eq-ok _ _ h3 in
      let (new_hash, new_event) = >>-eq-ok _ _ h2 in
      let (sanitized, next, made) = >>=-eq-ok _ _ h5 in
      let (kept, all_rest, hashes, event_hashes) =
        check_snapshot_receipts-ok (Set.insert exact (receipt_hash c r))
          (Set.insert events (receipt_event_hash c r)) rest next in
      let out_is : r ∷ sanitized ≡ out = ok-injective made in
      (
        sym out_is ∙ ap (λ z. r ∷ z) kept,
        (record { signed = verified-ok _ _ signed; assigned = assigned }, all_rest),
        IsFresh-cons exact (receipt_hash c r) _ (bail_if-ok _ _ new_hash) hashes,
        IsFresh-cons events (receipt_event_hash c r) _ (bail_if-ok _ _ new_event) event_hashes,
      )

  pub validate_snapshot_receipts-ok :
      (receipts : List RelayReceipt) {out : List RelayReceipt}
      → validate_snapshot_receipts c e receipts ≡ ok out
      → (out ≡ receipts) × All IsWitnessed receipts × IsNodup (map (receipt_event_hash c) receipts)
  unfolding validate_snapshot_receipts
  validate_snapshot_receipts-ok receipts h =
      let (kept, witnessed, hashes, events) = check_snapshot_receipts-ok [] [] receipts h in
      (kept, witnessed, events.distinct)
