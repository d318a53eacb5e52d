-- ===== src/Node/Finality/Forged.antt =====
-- A certificate with one vote in it many times.
use entangrid.Prelude.{
  ℕ, zero, suc, ◌≤◌, ◌≡◌, refl, List, [], ◌∷◌, Bool, true, ◌&&◌, ◌==◌, all, length, arith, ok,
}
use entangrid.Types.Records.{Block, ProposalVote}
use entangrid.Types.Encoding.{Crypto}
use entangrid.Types.Evidence.{qc_is_well_formed}
use entangrid.Node.State.{NodeState}
use entangrid.Node.Certificates.{
  quorum_certificate_threshold, validate_proposal_vote_for_block, validate_votes,
  validate_quorum_certificate_for_block,
}
use entangrid.Node.Certificates.Voters.{validate_proposal_vote_for_block-IsVoteFor}
use entangrid.Node.Finality.{certificate_of}

abbrev pub repeat : ℕ → ProposalVote → List ProposalVote
repeat zero vote = []
repeat (suc n) vote = vote ∷ repeat n vote

length-repeat : (n : ℕ) (vote : ProposalVote) → length (repeat n vote) ≡ n
length-repeat zero vote = refl
length-repeat (suc n) vote = omega (arith, length-repeat n vote)

module _ (c : Crypto) (s : NodeState) (block : Block) (vote : ProposalVote) where
  validate_votes-repeat :
      (n : ℕ)
      → validate_proposal_vote_for_block c s vote block ≡ ok tt
      → validate_votes c s block (repeat n vote) ≡ ok tt
  unfolding validate_votes
  validate_votes-repeat zero h = refl
  validate_votes-repeat (suc n) h = rw (h, validate_votes-repeat n h) refl

  all-repeat : (p : ProposalVote → Bool) (n : ℕ) → p vote ≡ true → all p (repeat n vote) ≡ true
  all-repeat p zero h = refl
  all-repeat p (suc n) h = ground (arith, all-repeat p n h)

  well_formed-repeat :
      (n : ℕ)
      → vote.block_hash ≡ block.block_hash
      → vote.block_number ≡ block.header.block_number
      → vote.epoch ≡ block.header.epoch
      → vote.slot ≡ block.header.slot
      → qc_is_well_formed c (certificate_of c block block.block_hash (repeat (suc n) vote)) ≡ true
  unfolding qc_is_well_formed certificate_of
  well_formed-repeat n h1 h2 h3 h4 = ground (
    arith,
    all-repeat
        (λ v.
          v.block_hash == block.block_hash
          && v.block_number == block.header.block_number
          && v.epoch == block.header.epoch
          && v.slot == block.header.slot)
        n,
  )

  -- A certificate that holds one valid vote for a block a quorum of times, and no other vote,
  -- is accepted: the check does not ask for different voters.
  pub repeated_vote_certificate :
      (n : ℕ)
      → quorum_certificate_threshold (length s.genesis.validators) ≤ suc n
      → vote.block_hash ≡ block.block_hash
      → validate_proposal_vote_for_block c s vote block ≡ ok tt
      → validate_quorum_certificate_for_block c s
          (certificate_of c block block.block_hash (repeat (suc n) vote))
          block
        ≡ ok tt
  unfolding validate_quorum_certificate_for_block
  repeated_vote_certificate n enough same valid =
      let v = validate_proposal_vote_for_block-IsVoteFor c s vote block valid in
      let formed = well_formed-repeat n same v.block_number v.epoch v.slot in
      let votes = validate_votes-repeat (suc n) valid in
      let len = length-repeat (suc n) vote in unfold certificate_of in ground arith
