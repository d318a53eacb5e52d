-- ===== src/Node/Certificates/Voters.antt =====
-- Who stands behind an accepted certificate.
use entangrid.Prelude.{
  ℕ, suc, ◌+◌, ◌*◌, ◌/◌, ◌<◌, ◌≤◌, ◌≡◌, refl, List, [], ◌∷◌, map, true, any, ◌==◌, length, arith,
  All, ok, subst, ap, all, ◌&&◌,
}
use entangrid.BTree.Set.{contains}
use entangrid.BTree.Key.{nat_key}
use entangrid.Quorum.{IsNodup, IsSubset, shared, shared_third}
use entangrid.Types.Records.{ValidatorId, Block, ProposalVote, QuorumCertificate, ValidatorConfig}
use entangrid.Types.Encoding.{Crypto}
use entangrid.Types.Evidence.{qc_is_well_formed, quorum_certificate_vote_root}
use entangrid.Node.State.{NodeState}
use entangrid.Node.Certificates.{
  proposal_vote_signing_hash, quorum_certificate_threshold,
  validate_proposal_vote_signature_and_signer, validate_proposal_vote_for_block, validate_votes,
  validate_quorum_certificate_for_block,
}

abbrev pub voters : List ProposalVote → List ValidatorId
voters = map (λ vote. vote.validator_id)

abbrev pub validator_ids : List ValidatorConfig → List ValidatorId
validator_ids = map (λ v. v.validator_id)

any-contains :
    (vs : List ValidatorConfig) (x : ValidatorId)
    → any (λ v. v.validator_id == x) vs ≡ true
    → contains (validator_ids vs) x ≡ true
unfolding contains
any-contains [] x h = cc
any-contains (v ∷ vs) x h = ground (arith, any-contains vs x)

length-validator_ids : (vs : List ValidatorConfig) → length (validator_ids vs) ≡ length vs
length-validator_ids [] = refl
length-validator_ids (v ∷ vs) = ap suc (length-validator_ids vs)

length-voters : (votes : List ProposalVote) → length (voters votes) ≡ length votes
length-voters [] = refl
length-voters (v ∷ votes) = ap suc (length-voters votes)

module _ (c : Crypto) (s : NodeState) where
  -- A vote of a validator, signed by it, on the block's number, epoch and slot.
  pub record IsVoteFor (block : Block) (vote : ProposalVote) : Type 0 where
    pub signer : contains (validator_ids s.genesis.validators) vote.validator_id ≡ true
    pub signed :
        c.verify vote.validator_id (proposal_vote_signing_hash c vote) vote.signature ≡ ok true
    pub block_number : vote.block_number ≡ block.header.block_number
    pub epoch : vote.epoch ≡ block.header.epoch
    pub slot : vote.slot ≡ block.header.slot

  pub validate_proposal_vote_for_block-IsVoteFor :
      (vote : ProposalVote) (block : Block)
      → validate_proposal_vote_for_block c s vote block ≡ ok tt
      → IsVoteFor block vote
  unfolding validate_proposal_vote_for_block validate_proposal_vote_signature_and_signer
  validate_proposal_vote_for_block-IsVoteFor vote block h = record {
    signer = any-contains s.genesis.validators vote.validator_id (ground arith);
    signed = ground arith;
    block_number = ground arith;
    epoch = ground arith;
    slot = ground arith;
  }

  validate_votes-cons :
      (block : Block) (vote : ProposalVote) (rest : List ProposalVote)
      → validate_votes c s block (vote ∷ rest) ≡ ok tt
      → (validate_proposal_vote_for_block c s vote block ≡ ok tt)
        × (validate_votes c s block rest ≡ ok tt)
  unfolding validate_votes
  validate_votes-cons block vote rest h = ground arith

  validate_votes-IsVoteFor :
      (block : Block) (votes : List ProposalVote)
      → validate_votes c s block votes ≡ ok tt
      → All (IsVoteFor block) votes
  validate_votes-IsVoteFor block [] h = tt
  validate_votes-IsVoteFor block (vote ∷ rest) h =
      let (first, next) = validate_votes-cons block vote rest h in
      (
        validate_proposal_vote_for_block-IsVoteFor vote block first,
        validate_votes-IsVoteFor block rest next,
      )

  voters-IsSubset :
      (block : Block) (votes : List ProposalVote)
      → All (IsVoteFor block) votes
      → IsSubset (voters votes) (validator_ids s.genesis.validators)
  voters-IsSubset block [] a = tt
  voters-IsSubset block (vote ∷ rest) (v, a) = (v.signer, voters-IsSubset block rest a)

  -- What a node knows of a certificate that it accepts for a block.
  pub record IsCertified (block : Block) (qc : QuorumCertificate) : Type 0 where
    pub block_hash : qc.block_hash ≡ block.block_hash
    pub block_number : qc.block_number ≡ block.header.block_number
    pub named : all (λ vote. vote.block_hash == block.block_hash) qc.votes ≡ true
    pub root : qc.vote_root ≡ quorum_certificate_vote_root c qc.votes
    pub votes : All (IsVoteFor block) qc.votes
    pub enough : quorum_certificate_threshold (length s.genesis.validators) ≤ length qc.votes

  named_of_formed :
      (h n e t : ℕ) (votes : List ProposalVote)
      → all
          (λ vote.
            vote.block_hash == h && vote.block_number == n && vote.epoch == e && vote.slot == t)
          votes
        ≡ true
      → all (λ vote. vote.block_hash == h) votes ≡ true
  named_of_formed h n e t [] p = refl
  named_of_formed h n e t (v ∷ votes) p = ground (arith, named_of_formed h n e t votes)

  validate_quorum_certificate_for_block-parts :
      (qc : QuorumCertificate) (block : Block)
      → validate_quorum_certificate_for_block c s qc block ≡ ok tt
      → (qc.block_hash ≡ block.block_hash)
        × (qc.block_number ≡ block.header.block_number)
        × (qc_is_well_formed c qc ≡ true)
        × (quorum_certificate_threshold (length s.genesis.validators) ≤ length qc.votes)
        × (qc.vote_root ≡ quorum_certificate_vote_root c qc.votes)
        × (validate_votes c s block qc.votes ≡ ok tt)
  unfolding validate_quorum_certificate_for_block
  validate_quorum_certificate_for_block-parts qc block h = ground arith

  -- A certificate that a node accepts for a block carries at least a quorum of votes, each
  -- signed by a validator and for that block's hash, number, epoch and slot, and its root is
  -- the root of those votes.
  pub validate_quorum_certificate_for_block-IsCertified :
      (qc : QuorumCertificate) (block : Block)
      → validate_quorum_certificate_for_block c s qc block ≡ ok tt
      → IsCertified block qc
  unfolding qc_is_well_formed
  validate_quorum_certificate_for_block-IsCertified qc block h =
      let (hash, number, formed, enough, root, valid) =
        validate_quorum_certificate_for_block-parts qc block h in
      record {
        block_hash = hash;
        block_number = number;
        named =
            subst (λ z. all (λ vote. vote.block_hash == z) qc.votes ≡ true) hash
              (named_of_formed qc.block_hash qc.block_number qc.epoch qc.slot qc.votes
                (ground arith));
        root = root;
        votes = validate_votes-IsVoteFor block qc.votes valid;
        enough = enough;
      }

  -- Where there are validators, two accepted certificates, each with pairwise different voters,
  -- share more than a third of the validators as voters, whatever blocks they are for.
  pub certificates_overlap :
      (a b : QuorumCertificate) (block_a block_b : Block)
      → 0 < length s.genesis.validators
      → validate_quorum_certificate_for_block c s a block_a ≡ ok tt
      → validate_quorum_certificate_for_block c s b block_b ≡ ok tt
      → IsNodup (voters a.votes)
      → IsNodup (voters b.votes)
      → length s.genesis.validators < 3 * length (shared (voters a.votes) (voters b.votes))
  unfolding quorum_certificate_threshold
  certificates_overlap a b block_a block_b some_validators ha hb da db =
      let ca = validate_quorum_certificate_for_block-IsCertified a block_a ha in
      let cb = validate_quorum_certificate_for_block-IsCertified b block_b hb in
      let ids = validator_ids s.genesis.validators in
      let n : length ids ≡ length s.genesis.validators =
        length-validator_ids s.genesis.validators in
      let ta : length ids * 2 / 3 + 1 ≤ length (voters a.votes) =
        ground (arith, n, ca.enough, length-voters a.votes) in
      let tb : length ids * 2 / 3 + 1 ≤ length (voters b.votes) =
        ground (arith, n, cb.enough, length-voters b.votes) in
      rw (← n) (
        shared_third (voters a.votes) (voters b.votes) ids da db
          (voters-IsSubset block_a a.votes ca.votes) (voters-IsSubset block_b b.votes cb.votes) ta
          tb)
