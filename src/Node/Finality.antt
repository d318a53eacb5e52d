-- ===== src/Node/Finality.antt =====
-- Certificates in a node: how enough votes become one, how one is imported, and which votes a
-- certificate takes away. `local_vote` casts the node's own vote after an adoption. Messages,
-- files and the log are not part of the state; a step that fails keeps what it changed before.
pub mod Built
pub mod Kept
pub mod Failed
pub mod Imports
pub mod Forged
use entangrid.Prelude.{
  ℕ, List, [], ◌∷◌, Option, none, some, Bool, true, false, not, ◌&&◌, any, filter, map, ◌==◌,
  if◌then◌else◌, ltb, is_empty, length, Result, ok, err, ◌>>=◌, ◌>>◌, bail_if,
}
use entangrid.BTree.Key.{nat_key}
use entangrid.BTree.Map
use entangrid.BTree.Map.{BTreeMap, values}
use entangrid.Types.Records.{ValidatorId, HashBytes, Block, ProposalVote, QuorumCertificate}
use entangrid.Types.Encoding.{Crypto}
use entangrid.Types.Evidence.{quorum_certificate_vote_root, qc_is_well_formed}
use entangrid.Node.State.{
  NodeState, Outcome, at, VoteMap, known_block, highest_local_qc, find_block, LocalVote,
}
use entangrid.Node.State.Recovery.{recovery_sync_only_active}
use entangrid.Node.Chains.{build_chain_to_tip, has_block}
use entangrid.Node.Adoption.{
  maybe_adopt_certified_branch, adopt_better_uncertified_child, adopt_vote_supported_branch,
}
use entangrid.Node.Certificates.{
  quorum_certificate_threshold, validate_quorum_certificate_for_block,
  validate_proposal_vote_signature_and_signer, validate_hybrid_proposal_vote_policy,
  validate_proposal_vote_for_block,
}
use entangrid.Node.Votes.{store_proposal_vote, store_buffered_proposal_vote}

unfoldable pub vote_extends_certified_block : NodeState → HashBytes → HashBytes → ℕ → Bool
unfolding known_block build_chain_to_tip
vote_extends_certified_block s block_hash certified_hash certified_height =
    if block_hash == certified_hash then true else elim (known_block s block_hash) [
      | none ↦ true
      | some block ↦
          if ltb block.header.block_number certified_height
          then true
          else elim (build_chain_to_tip s block_hash) [
            | none ↦ false
            | some chain ↦ has_block certified_hash chain
          ]
    ]

-- `retain` on one of the maps of votes.
abbrev pub keep_extending : NodeState → HashBytes → ℕ → VoteMap → VoteMap
keep_extending s certified_hash certified_height =
    filter (λ e.
      vote_extends_certified_block s e.0 certified_hash certified_height && not (is_empty e.1))

unfoldable pub prune_votes_not_extending_certified_block : NodeState → HashBytes → ℕ → NodeState
unfolding vote_extends_certified_block
prune_votes_not_extending_certified_block s certified_hash certified_height = record s {
  proposal_votes = keep_extending s certified_hash certified_height s.proposal_votes;
  buffered_proposal_votes =
      keep_extending s certified_hash certified_height s.buffered_proposal_votes;
}

-- Whether a vote of the certified vote's validator is for another block of the same height.
abbrev pub contradicts : ProposalVote → ValidatorId → ProposalVote → Bool
contradicts vote validator_id existing =
    validator_id == vote.validator_id
    && not (existing.block_hash == vote.block_hash)
    && existing.block_number == vote.block_number

abbrev pub drop_contradicting : ProposalVote → VoteMap → VoteMap
drop_contradicting vote votes =
    filter (λ e. not (is_empty e.1))
      (map
        (λ e. (
          e.0,
          (if not (e.0 == vote.block_hash)
              then filter (λ v. not (contradicts vote v.0 v.1)) e.1
              else e.1),
        ))
        votes)

unfoldable pub remove_conflicting_votes_for_certified_vote : NodeState → ProposalVote → NodeState
remove_conflicting_votes_for_certified_vote s vote = record s {
  proposal_votes = drop_contradicting vote s.proposal_votes;
  buffered_proposal_votes = drop_contradicting vote s.buffered_proposal_votes;
}

module _ (c : Crypto) where
  -- The certificate that the votes on a block make.
  unfoldable pub certificate_of : Block → HashBytes → List ProposalVote → QuorumCertificate
  certificate_of block block_hash votes = record {
    block_hash = block_hash;
    block_number = block.header.block_number;
    epoch = block.header.epoch;
    slot = block.header.slot;
    vote_root = quorum_certificate_vote_root c votes;
    votes = votes;
  }

  -- The end of `maybe_build_qc`, from the check of the certificate that it has built.
  unfoldable pub record_qc :
      NodeState → QuorumCertificate → Result (Option QuorumCertificate × NodeState)
  unfolding qc_is_well_formed prune_votes_not_extending_certified_block
  record_qc s qc =
      bail_if (not (qc_is_well_formed c qc)) "built malformed quorum certificate"
      >> ok (
        some qc,
        prune_votes_not_extending_certified_block
            (record s { quorum_certificates = Map.insert s.quorum_certificates qc.block_hash qc })
            qc.block_hash qc.block_number,
      )

  unfoldable pub maybe_build_qc :
      NodeState → HashBytes → Result (Option QuorumCertificate × NodeState)
  unfolding known_block quorum_certificate_threshold certificate_of record_qc
  maybe_build_qc s block_hash = elim (Map.get s.quorum_certificates block_hash) [
    | some existing ↦ ok (some existing, s)
    | none ↦ elim (known_block s block_hash) [
      | none ↦ ok (none, s)
      | some block ↦ elim (Map.get s.proposal_votes block_hash) [
        | none ↦ ok (none, s)
        | some by_validator ↦
            if ltb (length by_validator)
              (quorum_certificate_threshold (length s.genesis.validators))
            then ok (none, s)
            else record_qc s (certificate_of block block_hash (values by_validator))
      ]
    ]
  ]

  -- The loop over the votes of an imported certificate.
  unfoldable pub store_certified_votes : NodeState → List ProposalVote → Outcome NodeState
  unfolding remove_conflicting_votes_for_certified_vote
  store_certified_votes s [] = ok s
  store_certified_votes s (vote ∷ votes) = do
    (_, s') ← store_proposal_vote c (remove_conflicting_votes_for_certified_vote s vote) vote
    store_certified_votes s' votes

  -- The loop of `restore_quorum_certificates`.
  unfoldable pub restore_each : NodeState → List QuorumCertificate → Outcome NodeState
  unfolding store_certified_votes at
  restore_each s [] = ok s
  restore_each s (qc ∷ qcs) = elim (find_block qc.block_hash s.blocks) [
    | none ↦ restore_each s qcs
    | some block ↦
        at s (validate_quorum_certificate_for_block c s qc block)
        >> (store_certified_votes s qc.votes >>= λ stored.
            restore_each
              (record stored {
                quorum_certificates = Map.insert stored.quorum_certificates qc.block_hash qc;
              })
              qcs)
  ]

  unfoldable pub restore_quorum_certificates :
      NodeState → List QuorumCertificate → Outcome NodeState
  unfolding restore_each highest_local_qc
  restore_quorum_certificates s qcs = do
    restored ← restore_each s qcs
    elim (highest_local_qc restored) [
      | none ↦ ok restored
      | some qc ↦
          ok (prune_votes_not_extending_certified_block restored qc.block_hash qc.block_number)
    ]

  module _ (local_vote : LocalVote) where
    unfoldable pub maybe_finalize_quorum_certificate :
        NodeState → HashBytes → Outcome (Option QuorumCertificate × NodeState)
    unfolding maybe_build_qc at
    maybe_finalize_quorum_certificate s block_hash = do
      (built, s') ← at s (maybe_build_qc s block_hash)
      elim built [
        | none ↦ ok (none, s')
        | some qc ↦ do
          (_, adopted) ← at s' (maybe_adopt_certified_branch c s' qc.block_hash)
          (_, settled) ← adopt_better_uncertified_child c local_vote adopted
          ok (some qc, settled)
      ]

    -- `import_proposal_vote` after the vote is stored.
    unfoldable pub settle_vote : ProposalVote → Bool × NodeState → Outcome (Bool × NodeState)
    unfolding maybe_finalize_quorum_certificate
    settle_vote vote (false, stored) = ok (false, stored)
    settle_vote vote (true, stored) = do
      (built, s') ← maybe_finalize_quorum_certificate stored vote.block_hash
      elim built [
        | some qc ↦ ok (true, s')
        | none ↦ do
          (_, s'') ← adopt_vote_supported_branch c local_vote s' vote.block_hash
          ok (true, s'')
      ]

    unfoldable pub import_proposal_vote : NodeState → ProposalVote → Outcome (Bool × NodeState)
    unfolding settle_vote at recovery_sync_only_active
    import_proposal_vote s vote =
        at s (
          bail_if (not s.consensus_v2) "proposal votes require consensus_v2"
          >> validate_proposal_vote_signature_and_signer c s vote
          >> validate_hybrid_proposal_vote_policy c s vote)
        >> elim (known_block s vote.block_hash) [
          | none ↦ store_buffered_proposal_vote c s vote
          | some block ↦
              if recovery_sync_only_active s
                && has_block block.block_hash s.pending_certified_children
              then ok (false, s)
              else at s (validate_proposal_vote_for_block c s vote block)
                >> (store_proposal_vote c s vote >>= settle_vote vote)
        ]

    -- `import_quorum_certificate` after the certificate's votes are stored.
    unfoldable pub settle_qc : QuorumCertificate → NodeState → Outcome (Bool × NodeState)
    unfolding prune_votes_not_extending_certified_block at
    settle_qc qc stored =
        if Map.contains_key stored.quorum_certificates qc.block_hash then ok (false, stored) else do
          let pruned =
              prune_votes_not_extending_certified_block
                (record stored {
                  quorum_certificates = Map.insert stored.quorum_certificates qc.block_hash qc;
                })
                qc.block_hash qc.block_number
          (_, adopted) ← at pruned (maybe_adopt_certified_branch c pruned qc.block_hash)
          (_, settled) ← adopt_better_uncertified_child c local_vote adopted
          ok (true, settled)

    unfoldable pub import_quorum_certificate :
        NodeState → QuorumCertificate → Outcome (Bool × NodeState)
    unfolding store_certified_votes settle_qc at
    import_quorum_certificate s qc =
        at s (bail_if (not s.consensus_v2) "quorum certificates require consensus_v2")
        >> elim (known_block s qc.block_hash) [
          | none ↦ at s (err "quorum certificate references unknown block")
          | some block ↦
              at s (validate_quorum_certificate_for_block c s qc block)
              >> (store_certified_votes s qc.votes >>= settle_qc qc)
        ]
