-- ===== src/Node/Certificates.antt =====
-- Votes and quorum certificates: what a node checks before it accepts one.
pub mod Voters
pub mod Accountable
use entangrid.Prelude.{
  ℕ, ◌+◌, ◌*◌, ◌/◌, List, [], ◌∷◌, Bool, not, ◌&&◌, ◌||◌, any, ◌==◌, if◌then◌else◌, length, ltb,
  Result, ok, err, ◌>>=◌, ◌>>◌, bail_if,
}
use entangrid.Types.Scheme.{default_signature, SignatureScheme, signature_scheme_eq, TypedSignature}
use entangrid.Types.Records.{HashBytes, Block, ProposalVote, QuorumCertificate}
use entangrid.Types.Encoding.{Crypto, Hashed}
use entangrid.Types.Evidence.{quorum_certificate_vote_root, qc_is_well_formed}
use entangrid.Node.State.{NodeState}

abbrev pub proposal_vote_signing_hash : Crypto → ProposalVote → HashBytes
proposal_vote_signing_hash c vote =
    c.canonical_hash (Hashed.vote (record vote { signature = default_signature }))

-- More than two thirds.
unfoldable pub quorum_certificate_threshold : ℕ → ℕ
quorum_certificate_threshold validator_count =
    if validator_count == 0 then 0 else validator_count * 2 / 3 + 1

module _ (c : Crypto) (s : NodeState) where
  unfoldable pub validate_proposal_vote_signature_and_signer : ProposalVote → Result (Unit {0})
  validate_proposal_vote_signature_and_signer vote =
      bail_if (not (any (λ v. v.validator_id == vote.validator_id) s.genesis.validators))
        "proposal vote signer is not a validator"
      >> (c.verify vote.validator_id (proposal_vote_signing_hash c vote) vote.signature
          >>= λ verified. bail_if (not verified) "invalid proposal vote signature")

  unfoldable pub validate_hybrid_proposal_vote_policy : ProposalVote → Result (Unit {0})
  validate_hybrid_proposal_vote_policy vote =
      if not s.require_hybrid_validator_signatures
      then ok tt
      else bail_if (not (signature_scheme_eq vote.signature.scheme SignatureScheme.hybrid))
          "hybrid enforcement requires proposal vote from validator to use a hybrid signature"

  unfoldable pub validate_proposal_vote_for_block : ProposalVote → Block → Result (Unit {0})
  unfolding validate_proposal_vote_signature_and_signer validate_hybrid_proposal_vote_policy
  validate_proposal_vote_for_block vote block =
      validate_proposal_vote_signature_and_signer vote
      >> validate_hybrid_proposal_vote_policy vote
      >> bail_if
          (not (vote.block_number == block.header.block_number)
            || not (vote.epoch == block.header.epoch)
            || not (vote.slot == block.header.slot))
          "proposal vote metadata does not match block"

  -- The loop over the votes of a certificate.
  unfoldable pub validate_votes : Block → List ProposalVote → Result (Unit {0})
  unfolding validate_proposal_vote_for_block
  validate_votes block [] = ok tt
  validate_votes block (vote ∷ rest) =
      let next = validate_votes block rest in validate_proposal_vote_for_block vote block >> next

  unfoldable pub validate_quorum_certificate_for_block :
      QuorumCertificate → Block → Result (Unit {0})
  unfolding qc_is_well_formed quorum_certificate_threshold validate_votes
  validate_quorum_certificate_for_block qc block =
      bail_if
        (not (qc.block_hash == block.block_hash)
          || not (qc.block_number == block.header.block_number)
          || not (qc.epoch == block.header.epoch)
          || not (qc.slot == block.header.slot))
        "quorum certificate metadata does not match block"
      >> bail_if (not (qc_is_well_formed c qc)) "malformed quorum certificate"
      >> bail_if
          (ltb (length qc.votes) (quorum_certificate_threshold (length s.genesis.validators)))
          "quorum certificate does not meet threshold"
      >> bail_if (not (quorum_certificate_vote_root c qc.votes == qc.vote_root))
          "quorum certificate vote root mismatch"
      >> validate_votes block qc.votes
