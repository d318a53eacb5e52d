-- ===== src/Node/Votes.antt =====
-- The votes that a node stores, by block and validator: conflicts between votes of a validator,
-- their replacement, and the certificate that enough votes make. The log and the files are not
-- part of the state.
pub mod Conflicts
pub mod Removed
pub mod Gone
use entangrid.Prelude.{
  ℕ, List, [], ◌∷◌, ◌++◌, Option, none, some, Bool, true, false, not, ◌&&◌, ◌||◌, any, filter, ◌==◌,
  if◌then◌else◌, ltb, is_empty, is_some, length, last, map_option, option_eq, unwrap_or, Result, ok,
  err, ◌>>=◌, add_u64,
}
use entangrid.BTree.Key.{nat_key}
use entangrid.BTree.Map
use entangrid.BTree.Map.{BTreeMap, values}
use entangrid.Types.Records.{ValidatorId, HashBytes, Block, ProposalVote, QuorumCertificate}
use entangrid.Types.Scheme.{signature_eq}
use entangrid.Types.Encoding.{Crypto}
use entangrid.Types.Evidence.{quorum_certificate_vote_root, qc_is_well_formed}
use entangrid.Node.State.{
  NodeState, Outcome, at, VoteMap, known_block, highest_local_qc, certified_head_only_active,
  current_certified_head,
}
use entangrid.Node.Chains.{
  BranchRelation, branch_relation, is_same_chain, build_chain_to_tip, has_block,
  proposal_vote_branches_are_compatible,
}
use entangrid.Node.Quality.{compare_branch_quality, is_greater}
use entangrid.Node.Certificates.{proposal_vote_signing_hash, quorum_certificate_threshold}

abbrev is_incompatible : BranchRelation → Bool
is_incompatible BranchRelation.incompatible = true
is_incompatible _ = false

-- The `match` on the two chains.
unfoldable pub better_pre_qc :
    NodeState → ProposalVote → ProposalVote → Option (List Block) → Option (List Block) → Bool
unfolding branch_relation
better_pre_qc s existing candidate (some existing_chain) (some candidate_chain) =
    is_incompatible (branch_relation s existing.block_hash candidate.block_hash)
    && is_greater (compare_branch_quality s candidate_chain existing_chain)
better_pre_qc s existing candidate none (some candidate_chain) = true
better_pre_qc s existing candidate _ none = false

unfoldable pub can_replace_pre_qc_conflicting_vote : NodeState → ProposalVote → ProposalVote → Bool
unfolding better_pre_qc build_chain_to_tip
can_replace_pre_qc_conflicting_vote s existing candidate =
    if existing.block_hash == candidate.block_hash
    then false
    else if not
        (option_eq (map_option (λ b. b.block_hash) (last s.blocks)) (some candidate.block_hash))
    then false
    else better_pre_qc s existing candidate (build_chain_to_tip s existing.block_hash)
        (build_chain_to_tip s candidate.block_hash)

-- The checks after the certified head and the two blocks are known.
unfoldable pub better_child :
    ProposalVote → Option (HashBytes × ℕ) → Option Block → Option Block → Bool
better_child existing (some (certified_head_hash, height)) (some existing_block)
      (some candidate_block) =
    if not (existing.block_number == add_u64 height 1)
    then false
    else if not (existing_block.header.parent_hash == certified_head_hash)
        || not (candidate_block.header.parent_hash == certified_head_hash)
    then false
    else ltb existing_block.header.slot candidate_block.header.slot
better_child existing _ _ _ = false

unfoldable pub can_replace_conflicting_proposal_vote :
    NodeState → ProposalVote → ProposalVote → Bool
unfolding highest_local_qc certified_head_only_active can_replace_pre_qc_conflicting_vote
    better_child current_certified_head known_block
can_replace_conflicting_proposal_vote s existing candidate =
    if not (is_some (highest_local_qc s))
    then can_replace_pre_qc_conflicting_vote s existing candidate
    else if not (certified_head_only_active s)
        || not (existing.block_number == candidate.block_number)
    then false
    else if Map.contains_key s.quorum_certificates existing.block_hash
    then false
    else better_child existing (current_certified_head s) (known_block s existing.block_hash)
        (known_block s candidate.block_hash)

unfoldable pub remove_vote : VoteMap → ProposalVote → VoteMap
remove_vote votes vote = elim (Map.get votes vote.block_hash) [
  | none ↦ votes
  | some by_validator ↦
      let rest = Map.remove by_validator vote.validator_id in
      if is_empty rest
      then Map.remove votes vote.block_hash
      else Map.insert votes vote.block_hash rest
]

unfoldable pub remove_proposal_vote_from_maps : NodeState → ProposalVote → NodeState
unfolding remove_vote
remove_proposal_vote_from_maps s vote = record s {
  proposal_votes = remove_vote s.proposal_votes vote;
  buffered_proposal_votes = remove_vote s.buffered_proposal_votes vote;
}

-- The votes of both maps, block by block.
abbrev pub vote_maps : NodeState → List (BTreeMap ValidatorId ProposalVote)
vote_maps s = values s.proposal_votes ++ values s.buffered_proposal_votes

-- Whether the local vote on one block stands in the way of one on the candidate's.
unfoldable pub scatters : NodeState → ProposalVote → ProposalVote → Bool
unfolding branch_relation can_replace_conflicting_proposal_vote
scatters s candidate existing =
    not (existing.block_hash == candidate.block_hash)
    && (if is_same_chain (branch_relation s existing.block_hash candidate.block_hash)
        then false
        else not (can_replace_conflicting_proposal_vote s existing candidate))

unfoldable pub local_vote_would_scatter_before_qc : NodeState → ProposalVote → Bool
unfolding certified_head_only_active highest_local_qc scatters
local_vote_would_scatter_before_qc s candidate =
    if certified_head_only_active s || is_some (highest_local_qc s)
    then false
    else any
        (λ votes.
          unwrap_or (map_option (scatters s candidate) (Map.get votes s.validator_id)) false)
        (vote_maps s)

-- Whether a vote at another height and slot lies on the same branch.
abbrev pub stands_beside : NodeState → ProposalVote → ProposalVote → Bool
stands_beside s existing vote =
    not (existing.block_number == vote.block_number)
    && not (existing.epoch == vote.epoch && existing.slot == vote.slot)
    && proposal_vote_branches_are_compatible s existing.block_hash vote.block_hash

-- The first loop of `resolve_conflicting_proposal_vote`: the votes to take away.
unfoldable pub collect_conflicts :
    NodeState → ProposalVote → List (BTreeMap ValidatorId ProposalVote) → Result (List ProposalVote)
unfolding can_replace_conflicting_proposal_vote proposal_vote_branches_are_compatible
collect_conflicts s vote [] = ok []
collect_conflicts s vote (existing_votes ∷ rest) =
    let next = collect_conflicts s vote rest in
    elim (Map.get existing_votes vote.validator_id) [
      | none ↦ next
      | some existing ↦
          if existing.block_hash == vote.block_hash
          then next
          else if can_replace_conflicting_proposal_vote s existing vote
          then next >>= (λ conflicts. ok (existing ∷ conflicts))
          else if stands_beside s existing vote
          then next
          else err "conflicting proposal vote"
    ]

-- The second loop.
unfoldable pub remove_all : NodeState → List ProposalVote → NodeState
unfolding remove_proposal_vote_from_maps
remove_all s [] = s
remove_all s (vote ∷ votes) = remove_all (remove_proposal_vote_from_maps s vote) votes

unfoldable pub resolve_conflicting_proposal_vote : NodeState → ProposalVote → Result NodeState
unfolding collect_conflicts remove_all
resolve_conflicting_proposal_vote s vote =
    collect_conflicts s vote (vote_maps s) >>= λ conflicts. ok (remove_all s conflicts)

-- The entry of the vote's block and validator: whether the vote is new, and the map with it.
unfoldable pub put_vote : Crypto → VoteMap → ProposalVote → Result (Bool × VoteMap)
put_vote c votes vote =
    let by_validator = unwrap_or (Map.get votes vote.block_hash) [] in
    elim (Map.get by_validator vote.validator_id) [
      | none ↦
          ok (
            true,
            Map.insert votes vote.block_hash (Map.insert by_validator vote.validator_id vote),
          )
      | some existing ↦
          if proposal_vote_signing_hash c existing == proposal_vote_signing_hash c vote
            && signature_eq existing.signature vote.signature
          then ok (false, votes)
          else err "conflicting proposal vote"
    ]

unfoldable pub store_proposal_vote : Crypto → NodeState → ProposalVote → Outcome (Bool × NodeState)
unfolding resolve_conflicting_proposal_vote put_vote at
store_proposal_vote c s vote = do
  s' ← at s (resolve_conflicting_proposal_vote s vote)
  (inserted, votes) ← at s' (put_vote c s'.proposal_votes vote)
  ok (inserted, record s' { proposal_votes = votes })

unfoldable pub store_buffered_proposal_vote :
    Crypto → NodeState → ProposalVote → Outcome (Bool × NodeState)
unfolding resolve_conflicting_proposal_vote put_vote at
store_buffered_proposal_vote c s vote = do
  s' ← at s (resolve_conflicting_proposal_vote s vote)
  (inserted, votes) ← at s' (put_vote c s'.buffered_proposal_votes vote)
  ok (inserted, record s' { buffered_proposal_votes = votes })
