-- ===== src/Node/Finality/Built.antt =====
-- The certificates that a node builds from the votes that it has stored.
use entangrid.Prelude.{
  suc, ◌≤◌, ◌≡◌, refl, [], ◌∷◌, none, some, true, false, arith, length, ok, ap, Option-cases, inl,
  inr,
}
use entangrid.BTree.Key.{nat_key}
use entangrid.BTree.Map
use entangrid.BTree.Map.{BTreeMap, values}
use entangrid.BTree.Map.Laws.{Above, IsOrdered, get-insert_self}
use entangrid.BTree.Set.{contains}
use entangrid.Quorum.{IsNodup}
use entangrid.Types.Records.{ValidatorId, HashBytes, Block, ProposalVote, QuorumCertificate}
use entangrid.Types.Encoding.{Crypto}
use entangrid.Types.Evidence.{qc_is_well_formed}
use entangrid.Node.State.{NodeState, known_block}
use entangrid.Node.Certificates.{quorum_certificate_threshold}
use entangrid.Node.Certificates.Voters.{voters}
use entangrid.Node.Finality.{
  certificate_of, record_qc, maybe_build_qc, prune_votes_not_extending_certified_block,
}

-- Each vote stands under the validator that it names, in the order of a `BTreeMap`.
abbrev pub IsKeyed : BTreeMap ValidatorId ProposalVote → Type 0
IsKeyed [] = Unit
IsKeyed ((validator_id, vote) ∷ votes) = (vote.validator_id ≡ validator_id) × IsKeyed votes

absent_of_Above :
    (k : ValidatorId) (m : BTreeMap ValidatorId ProposalVote)
    → IsKeyed m
    → Above k m
    → contains (voters (values m)) k ≡ false
unfolding contains
absent_of_Above k [] keyed a = refl
absent_of_Above k ((j, vote) ∷ m) (e, keyed) (lt, a) =
    let ih = absent_of_Above k m keyed a in ground arith

values-IsNodup :
    (m : BTreeMap ValidatorId ProposalVote) → IsKeyed m → IsOrdered m → IsNodup (voters (values m))
values-IsNodup [] keyed o = tt
values-IsNodup ((k, vote) ∷ m) (e, keyed) (a, o) =
    (rw e (absent_of_Above k m keyed a), values-IsNodup m keyed o)

length-values : (m : BTreeMap ValidatorId ProposalVote) → length (values m) ≡ length m
length-values [] = refl
length-values (e ∷ m) = ap suc (length-values m)

-- What a node has after it built a certificate.
pub record IsBuilt (c : Crypto) (s s' : NodeState) (block_hash : HashBytes) (qc : QuorumCertificate)
    : Type 0 where
  pub hash : qc.block_hash ≡ block_hash
  pub formed : qc_is_well_formed c qc ≡ true
  pub distinct : IsNodup (voters qc.votes)
  pub enough : quorum_certificate_threshold (length s.genesis.validators) ≤ length qc.votes
  pub recorded : Map.get s'.quorum_certificates block_hash ≡ some qc
  pub chain : s'.blocks ≡ s.blocks

module _ (c : Crypto) (s : NodeState) where
  maybe_build_qc-parts :
      (block_hash : HashBytes) {qc : QuorumCertificate} {s' : NodeState}
      → Map.get s.quorum_certificates block_hash ≡ none
      → maybe_build_qc c s block_hash ≡ ok (some qc, s')
      → (block : Block) × (votes : BTreeMap ValidatorId ProposalVote) × (Map.get s.proposal_votes
            block_hash
          ≡ some votes)
        × (quorum_certificate_threshold (length s.genesis.validators) ≤ length votes)
        × (record_qc c s (certificate_of c block block_hash (values votes)) ≡ ok (some qc, s'))
  unfolding maybe_build_qc
  maybe_build_qc-parts block_hash fresh h = elim (Option-cases (known_block s block_hash)) [
    | inl unknown ↦ absurd (ground arith)
    | inr (block, known) ↦ elim (Option-cases (Map.get s.proposal_votes block_hash)) [
      | inl none_yet ↦ absurd (ground arith)
      | inr (votes, found) ↦ (block, votes, found, ground arith, ground arith)
    ]
  ]

  record_qc-parts :
      (built : QuorumCertificate) {qc : QuorumCertificate} {s' : NodeState}
      → record_qc c s built ≡ ok (some qc, s')
      → (qc ≡ built)
        × (qc_is_well_formed c built ≡ true)
        × (s'.quorum_certificates ≡ Map.insert s.quorum_certificates built.block_hash built)
        × (s'.blocks ≡ s.blocks)
  unfolding record_qc prune_votes_not_extending_certified_block
  record_qc-parts built h = ground arith

  -- A certificate that a node newly builds for a block, where its votes on the block stand under
  -- their validators in order, is well formed, has a quorum of votes of pairwise different
  -- validators, and is recorded for the block; the node's chain stays as it was.
  pub maybe_build_qc-IsBuilt :
      (block_hash : HashBytes) {qc : QuorumCertificate} {s' : NodeState}
      → ((votes : BTreeMap ValidatorId ProposalVote)
          → Map.get s.proposal_votes block_hash ≡ some votes
          → IsKeyed votes × IsOrdered votes)
      → Map.get s.quorum_certificates block_hash ≡ none
      → maybe_build_qc c s block_hash ≡ ok (some qc, s')
      → IsBuilt c s s' block_hash qc
  unfolding certificate_of
  maybe_build_qc-IsBuilt block_hash {qc} {s'} book fresh h =
      let (block, votes, found, enough, recorded) = maybe_build_qc-parts block_hash fresh h in
      let (keyed, ordered) = book votes found in
      let built = certificate_of c block block_hash (values votes) in
      let (same, formed, qcs, blocks) = record_qc-parts built recorded in
      let n = length-values votes in
      record {
        hash = rw same refl;
        formed = rw same formed;
        distinct = rw same (values-IsNodup votes keyed ordered);
        enough = rw (same, n) enough;
        recorded = rw (qcs, same) (get-insert_self s.quorum_certificates block_hash built);
        chain = blocks;
      }
