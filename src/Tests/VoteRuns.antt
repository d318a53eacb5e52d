-- ===== src/Tests/VoteRuns.antt =====
-- Votes and certificates of three validators.
use entangrid.Prelude.{
  ℕ, Bool-cases, inl, inr, arith, ◌==◌, err, ℕ, List, ◌≢◌, ◌*◌, ◌<◌, ◌≤◌, ◌≡◌, refl, [], ◌∷◌, some,
  none, true, ok, arith, All, length, subst, suc,
}
use mathlib.Core.Option.{some-injective}
use entangrid.BTree.Key.{nat_key}
use entangrid.BTree.Map
use entangrid.BTree.Map.{BTreeMap}
use entangrid.BTree.Map.Laws.{IsOrdered}
use entangrid.BTree.Set
use entangrid.BTree.Set.{contains}
use entangrid.Quorum.{IsNodup}
use entangrid.Types.Records.{ProposalVote, ValidatorId, Block, QuorumCertificate}
use entangrid.Types.Evidence.{qc_is_well_formed}
use entangrid.Node.State.{Fault, at, NodeState, highest_local_qc, known_block}
use entangrid.Node.Chains.{
  branch_relation, relate_chains, build_chain_to_tip, index_blocks, walk_back, checked_chain,
  is_linked, proposal_vote_branches_are_compatible,
}
use entangrid.Node.Certificates.{
  validate_proposal_vote_signature_and_signer, validate_hybrid_proposal_vote_policy,
  validate_proposal_vote_for_block, validate_votes, validate_quorum_certificate_for_block,
  quorum_certificate_threshold,
}
use entangrid.Node.Certificates.Voters.{
  IsCertified, voters, validate_quorum_certificate_for_block-IsCertified,
}
use entangrid.Node.Votes.{
  vote_maps, better_pre_qc, remove_vote, remove_proposal_vote_from_maps, store_proposal_vote,
  store_buffered_proposal_vote, resolve_conflicting_proposal_vote, collect_conflicts, remove_all,
  put_vote, can_replace_conflicting_proposal_vote, can_replace_pre_qc_conflicting_vote,
}
use entangrid.Node.Votes.Gone.{AreBooks}
use entangrid.Node.Votes.Conflicts.{AreReconciled, Holds, store_proposal_vote-reconciled}
use entangrid.Node.Certificates.Accountable.{IsDoubleVoter, certificates_convict}
use entangrid.Node.Finality.{
  certificate_of, record_qc, maybe_build_qc, prune_votes_not_extending_certified_block,
  vote_extends_certified_block,
}
use entangrid.Node.Finality.Forged.{repeat, repeated_vote_certificate}
use entangrid.Node.Finality.Built.{IsKeyed, IsBuilt, maybe_build_qc-IsBuilt}
use entangrid.Types.Scheme.{signature_eq, components_eq}
use entangrid.Node.Finality.{
  import_proposal_vote, settle_vote, maybe_finalize_quorum_certificate, import_quorum_certificate,
  store_certified_votes, remove_conflicting_votes_for_certified_vote, settle_qc,
}
use entangrid.Node.Adoption.{
  adopt_vote_supported_branch, adopt_if_better, maybe_adopt_certified_branch,
  adopt_better_uncertified_child, current_uncertified_child_for_certified_head, child_may_change,
}
use entangrid.Node.State.{
  certified_head_only_active, highest_locked_qc_hash, known_uncertified_children_for_certified_head,
  best_known_uncertified_child_for_certified_head, unique_blocks, latest_block, latest_from,
  later_block, current_certified_head, certified_height,
}
use entangrid.Node.Quality.{
  compare_branch_quality, latest_certified_height, branch_quality_with_extra_tip_vote,
  pre_qc_tip_support_quality, votes_for, branch_weighted_vote_support,
}
use entangrid.Node.Adoption.Kept.{IsKept}
use entangrid.Node.Voting.{maybe_broadcast_local_proposal_vote}
use entangrid.Node.Voting.Kept.{
  import_proposal_vote-IsKept, import_proposal_vote-fails, import_quorum_certificate-IsKept,
}
use entangrid.Tests.Fixtures.{
  crypto, block, node, certificate, first_block, second_block, vote, votes_on,
}

run_certificate : validate_quorum_certificate_for_block crypto node certificate first_block ≡ ok tt
unfolding validate_quorum_certificate_for_block qc_is_well_formed quorum_certificate_threshold
    validate_votes validate_proposal_vote_for_block validate_proposal_vote_signature_and_signer
    validate_hybrid_proposal_vote_policy
run_certificate = refl

validate_quorum_certificate_for_block-IsCertified_example :
    IsCertified crypto node first_block certificate
validate_quorum_certificate_for_block-IsCertified_example =
    validate_quorum_certificate_for_block-IsCertified crypto node certificate first_block
      run_certificate

-- The same votes for another block of the same height.
abbrev rival_block : Block
rival_block = block 1 0 21 []

abbrev rival_certificate : QuorumCertificate
rival_certificate = record certificate {
  block_hash = 21;
  votes = vote 1 rival_block ∷ vote 2 rival_block ∷ vote 3 rival_block ∷ [];
}

run_rival : validate_quorum_certificate_for_block crypto node rival_certificate rival_block ≡ ok tt
unfolding validate_quorum_certificate_for_block qc_is_well_formed quorum_certificate_threshold
    validate_votes validate_proposal_vote_for_block validate_proposal_vote_signature_and_signer
    validate_hybrid_proposal_vote_policy
run_rival = refl

rivals : first_block.block_hash ≢ rival_block.block_hash
rivals = λ e. omega arith

distinct_voters : IsNodup (voters certificate.votes)
unfolding contains
distinct_voters = (refl, (refl, (refl, tt)))

certificates_convict_example :
    (culprits : List ValidatorId) × (3 < 3 * length culprits)
    × IsNodup culprits
    × All (IsDoubleVoter crypto node first_block rival_block) culprits
certificates_convict_example =
    certificates_convict crypto node certificate rival_certificate first_block rival_block
      (omega arith) refl rivals run_certificate run_rival distinct_voters distinct_voters

run_vote : validate_proposal_vote_for_block crypto node (vote 1 first_block) first_block ≡ ok tt
unfolding validate_proposal_vote_for_block validate_proposal_vote_signature_and_signer
    validate_hybrid_proposal_vote_policy
run_vote = refl

three_enough : quorum_certificate_threshold (length node.genesis.validators) ≤ suc 2
unfolding quorum_certificate_threshold
three_enough = omega arith

repeated_vote_certificate_example :
    validate_quorum_certificate_for_block crypto node
      (certificate_of crypto first_block 11 (repeat (suc 2) (vote 1 first_block)))
      first_block
    ≡ ok tt
repeated_vote_certificate_example =
    repeated_vote_certificate crypto node first_block (vote 1 first_block) 2 three_enough refl
      run_vote

abbrev certified : NodeState
certified = record node { quorum_certificates = (11, certificate) ∷ [] }

run_build : maybe_build_qc crypto node 11 ≡ ok (some certificate, certified)
unfolding maybe_build_qc known_block quorum_certificate_threshold certificate_of record_qc
    qc_is_well_formed prune_votes_not_extending_certified_block vote_extends_certified_block Map.get
    Map.insert
run_build = refl

no_certificate : Map.get node.quorum_certificates 11 ≡ none
unfolding Map.get
no_certificate = refl

book :
    (votes : BTreeMap ℕ ProposalVote)
    → Map.get node.proposal_votes 11 ≡ some votes
    → IsKeyed votes × IsOrdered votes
unfolding Map.get
book votes h =
    subst (λ m. IsKeyed m × IsOrdered m) (some-injective _ _ h)
      ((refl, (refl, (refl, tt))), ((refl, (refl, tt)), ((refl, tt), (tt, tt))))

maybe_build_qc-IsBuilt_example : IsBuilt crypto node certified 11 certificate
maybe_build_qc-IsBuilt_example = maybe_build_qc-IsBuilt crypto node 11 book no_certificate run_build

abbrev voted_twice : NodeState
voted_twice = record node {
  proposal_votes = (11, votes_on first_block) ∷ (12, (2, vote 2 second_block) ∷ []) ∷ [];
}

run_store : store_proposal_vote crypto node (vote 2 second_block) ≡ ok (true, voted_twice)
unfolding store_proposal_vote resolve_conflicting_proposal_vote collect_conflicts
    can_replace_conflicting_proposal_vote can_replace_pre_qc_conflicting_vote highest_local_qc
    proposal_vote_branches_are_compatible branch_relation relate_chains build_chain_to_tip
    index_blocks walk_back checked_chain is_linked remove_all put_vote contains Set.insert Map.get
    Map.insert
run_store = refl

-- The second validator voted for the rival, the others for the tip.
abbrev voted_rival : NodeState
voted_rival = record node {
  orphan_blocks = rival_block ∷ [];
  proposal_votes =
      (11, (1, vote 1 first_block) ∷ (3, vote 3 first_block) ∷ [])
      ∷ (21, (2, vote 2 rival_block) ∷ [])
      ∷ [];
}

abbrev voted_again : NodeState
voted_again = record voted_rival { proposal_votes = (11, votes_on first_block) ∷ [] }

run_replace : store_proposal_vote crypto voted_rival (vote 2 first_block) ≡ ok (true, voted_again)
unfolding store_proposal_vote resolve_conflicting_proposal_vote collect_conflicts
    can_replace_conflicting_proposal_vote can_replace_pre_qc_conflicting_vote better_pre_qc
    highest_local_qc compare_branch_quality latest_certified_height
    branch_quality_with_extra_tip_vote pre_qc_tip_support_quality votes_for branch_relation
    relate_chains build_chain_to_tip index_blocks walk_back checked_chain is_linked remove_all
    remove_proposal_vote_from_maps remove_vote put_vote contains Set.insert Map.get Map.insert
    Map.remove at
run_replace = refl

entries_ascend :
    (hash : ℕ) (votes : BTreeMap ℕ ProposalVote)
    → Map.get voted_rival.proposal_votes hash ≡ some votes
    → IsOrdered votes
unfolding Map.get
entries_ascend hash votes found = elim (Bool-cases (hash == 11)) [
  | inl tip ↦
      let e : (1, vote 1 first_block) ∷ (3, vote 3 first_block) ∷ [] ≡ votes = ground arith in
      rw (← e) ((refl, tt), (tt, tt))
  | inr other ↦ elim (Bool-cases (hash == 21)) [
    | inl here ↦ let e : (2, vote 2 rival_block) ∷ [] ≡ votes = ground arith in rw (← e) (tt, tt)
    | inr there ↦ absurd (ground arith)
  ]
]

rival_books : AreBooks voted_rival
unfolding Map.get
rival_books = record {
  stored = record { blocks = ((refl, tt), (tt, tt)); validators = entries_ascend };
  buffered = record { blocks = tt; validators = λ hash votes found. absurd (ground arith) };
}

store_proposal_vote-reconciled_example :
    All (AreReconciled voted_rival voted_again (vote 2 first_block)) (vote_maps voted_rival)
    × Holds crypto voted_again.proposal_votes (vote 2 first_block)
store_proposal_vote-reconciled_example =
    store_proposal_vote-reconciled crypto voted_rival (vote 2 first_block) rival_books run_replace

run_import :
    import_proposal_vote crypto
      (maybe_broadcast_local_proposal_vote crypto 1)
      node
      (vote 2 second_block)
    ≡ ok (true, voted_twice)
unfolding import_proposal_vote settle_vote maybe_finalize_quorum_certificate maybe_build_qc
    quorum_certificate_threshold known_block validate_proposal_vote_for_block
    validate_proposal_vote_signature_and_signer validate_hybrid_proposal_vote_policy
    adopt_vote_supported_branch adopt_if_better certified_head_only_active highest_locked_qc_hash
    compare_branch_quality latest_certified_height branch_quality_with_extra_tip_vote
    pre_qc_tip_support_quality votes_for store_proposal_vote resolve_conflicting_proposal_vote
    collect_conflicts can_replace_conflicting_proposal_vote can_replace_pre_qc_conflicting_vote
    highest_local_qc proposal_vote_branches_are_compatible branch_relation relate_chains
    build_chain_to_tip index_blocks walk_back checked_chain is_linked remove_all put_vote contains
    Set.insert Map.get Map.insert
run_import = refl

import_proposal_vote-IsKept_example : IsKept crypto node voted_twice
import_proposal_vote-IsKept_example =
    import_proposal_vote-IsKept crypto 1 node (vote 2 second_block) run_import

-- The first validator has voted for another block of the height.
run_refused :
    import_proposal_vote crypto
      (maybe_broadcast_local_proposal_vote crypto 1)
      node
      (vote 1 rival_block)
    ≡ err (Fault.refused "conflicting proposal vote" node)
unfolding import_proposal_vote known_block validate_proposal_vote_signature_and_signer
    validate_hybrid_proposal_vote_policy store_buffered_proposal_vote
    resolve_conflicting_proposal_vote collect_conflicts can_replace_conflicting_proposal_vote
    can_replace_pre_qc_conflicting_vote highest_local_qc Map.get at
run_refused = refl

import_proposal_vote-fails_example : IsKept crypto node node
import_proposal_vote-fails_example =
    import_proposal_vote-fails crypto 1 node (vote 1 rival_block) run_refused

run_import_certificate :
    import_quorum_certificate crypto (maybe_broadcast_local_proposal_vote crypto 1) node certificate
    ≡ ok (true, certified)
unfolding import_quorum_certificate store_certified_votes
    remove_conflicting_votes_for_certified_vote settle_qc prune_votes_not_extending_certified_block
    vote_extends_certified_block maybe_adopt_certified_branch adopt_better_uncertified_child
    known_uncertified_children_for_certified_head best_known_uncertified_child_for_certified_head
    current_uncertified_child_for_certified_head unique_blocks latest_block latest_from later_block
    child_may_change current_certified_head certified_height validate_quorum_certificate_for_block
    qc_is_well_formed validate_votes quorum_certificate_threshold known_block
    validate_proposal_vote_for_block validate_proposal_vote_signature_and_signer
    validate_hybrid_proposal_vote_policy adopt_if_better certified_head_only_active
    highest_locked_qc_hash compare_branch_quality latest_certified_height
    branch_quality_with_extra_tip_vote branch_weighted_vote_support pre_qc_tip_support_quality
    votes_for store_proposal_vote resolve_conflicting_proposal_vote collect_conflicts
    highest_local_qc build_chain_to_tip index_blocks walk_back checked_chain is_linked remove_all
    put_vote signature_eq components_eq contains Set.insert Map.get Map.insert
run_import_certificate = refl

import_quorum_certificate-IsKept_example : IsKept crypto node certified
import_quorum_certificate-IsKept_example =
    import_quorum_certificate-IsKept crypto 1 node certificate run_import_certificate
