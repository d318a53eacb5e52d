-- ===== src/Node/Voting.antt =====
-- `maybe_broadcast_local_proposal_vote`: the node's own vote. Its import may finish a certificate
-- or move the chain, after which the node may vote again: the fuel bounds how often.
pub mod Kept
use entangrid.Prelude.{ℕ, zero, suc, String, Bool, not, Result, ok, err, ◌>>=◌, if◌then◌else◌}
use text.Mathlib.Text.{◌==◌ as str_eq}
use entangrid.Types.Scheme.{default_signature}
use entangrid.Types.Records.{Block, ProposalVote}
use entangrid.Types.Encoding.{Crypto}
use entangrid.Node.State.{NodeState, Fault, Outcome, at}
use entangrid.Node.Certificates.{proposal_vote_signing_hash}
use entangrid.Node.Votes.{local_vote_would_scatter_before_qc}
use entangrid.Node.Finality.{import_proposal_vote}

module _ (c : Crypto) where
  unfoldable pub build_local_proposal_vote : NodeState → Block → Result ProposalVote
  build_local_proposal_vote s block = do
    let vote : ProposalVote = record {
      validator_id = s.validator_id;
      block_hash = block.block_hash;
      block_number = block.header.block_number;
      epoch = block.header.epoch;
      slot = block.header.slot;
      signature = default_signature;
    }
    signature ← c.sign s.validator_id (proposal_vote_signing_hash c vote)
    ok (record vote { signature = signature })

  -- An import that is refused for a conflict of votes is no error; any other error stands.
  unfoldable pub cast_or_skip : Outcome (Bool × NodeState) → Outcome NodeState
  cast_or_skip (ok (imported, s)) = ok s
  cast_or_skip (err (Fault.refused text s)) =
      if str_eq text "conflicting proposal vote" then ok s else err (Fault.refused text s)
  cast_or_skip (err Fault.out_of_fuel) = err Fault.out_of_fuel

  unfoldable pub maybe_broadcast_local_proposal_vote : ℕ → NodeState → Block → Outcome NodeState
  unfolding at build_local_proposal_vote local_vote_would_scatter_before_qc cast_or_skip
  maybe_broadcast_local_proposal_vote zero s block = err Fault.out_of_fuel
  maybe_broadcast_local_proposal_vote (suc fuel) s block = if not s.consensus_v2 then ok s else do
    vote ← at s (build_local_proposal_vote s block)
    if local_vote_would_scatter_before_qc s vote
        then ok s
        else cast_or_skip (import_proposal_vote c (maybe_broadcast_local_proposal_vote fuel) s vote)
