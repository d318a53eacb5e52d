-- ===== src/Node/Acceptance.antt =====
-- `accept_block`: what a node does with a block. The node's own votes and the fuel for them are
-- those of Voting. A step that fails keeps what it changed before.
pub mod Steps
pub mod Kept
pub mod Known
pub mod Branches
pub mod Stored
pub mod Orphans
use entangrid.Prelude.{
  ℕ, List, [], ◌∷◌, ◌++◌, Option, none, some, Bool, true, false, not, ◌&&◌, ◌||◌, ◌==◌, is_empty,
  is_some, map_option, unwrap_or, option_eq, Result, ok, err, ◌>>=◌, ◌>>◌, bail_if, if◌then◌else◌,
}
use Prim.Native.Nat.Ordering.{lt}
use entangrid.BTree.Key.{nat_key}
use entangrid.BTree.Map
use entangrid.BTree.Map.{BTreeMap, values}
use entangrid.BTree.Set
use entangrid.Types.Records.{HashBytes, Block, ProposalVote, SignedTransaction, TopologyCommitment}
use entangrid.Types.Encoding.{Crypto, Hashed, empty_hash}
use entangrid.Types.Floats.{Floats}
use entangrid.Consensus.Engine.{proposer_for_slot}
use entangrid.Consensus.Score.{validate_block_basic}
use entangrid.Ledger.{LedgerState, replay_blocks, apply_block}
use entangrid.Node.State.{
  NodeState, Fault, Outcome, at, LocalVote, known_block, highest_locked_qc_hash,
  certified_head_only_active, current_certified_head, is_child_of,
  is_direct_child_of_current_certified_head, preferred_pending_child_for_certified_head,
}
use entangrid.Node.State.Recovery.{recovery_sync_only_active}
use entangrid.Node.Chains.{build_parent_chain_for_block, has_block}
use entangrid.Node.Quality.{Quality, compare_quality, branch_quality_with_extra_tip_vote}
use entangrid.Node.Receipts.{import_commitment_receipts}
use entangrid.Node.Policy.{validate_hybrid_block_policy, validate_transaction_policies}
use entangrid.Node.Commitments.{validate_commitment_bundle}
use entangrid.Node.BlockChecks.{check_block, check_proposal, can_vote_for_competing_block}
use entangrid.Node.Adoption.{
  respects_lock, adopt_better_uncertified_child, adopt_preferred_competing_branch,
}
use entangrid.Node.Finality.{import_proposal_vote, maybe_finalize_quorum_certificate}

pub data BlockAcceptance : Type 0 where
  accepted duplicate orphan : BlockAcceptance

-- The block among the orphans, once.
unfoldable pub buffer_orphan : NodeState → Block → NodeState
buffer_orphan s block =
    if has_block block.block_hash s.orphan_blocks
    then s
    else record s { orphan_blocks = s.orphan_blocks ++ block ∷ [] }

-- The block among the pending children of the certified head, once.
unfoldable pub buffer_pending : NodeState → Block → NodeState
buffer_pending s block =
    if has_block block.block_hash s.pending_certified_children
    then s
    else record s { pending_certified_children = s.pending_certified_children ++ block ∷ [] }

-- The transactions of a block leave the pool.
unfoldable pub remove_transactions :
    BTreeMap HashBytes SignedTransaction
    → List SignedTransaction
    → BTreeMap HashBytes SignedTransaction
remove_transactions mempool [] = mempool
remove_transactions mempool (tx ∷ rest) = remove_transactions (Map.remove mempool tx.tx_hash) rest

-- The answer after a step that may have moved the chain to the block.
abbrev pub accepted_if : Bool → BlockAcceptance
accepted_if true = BlockAcceptance.accepted
accepted_if false = BlockAcceptance.orphan

abbrev pub is_tip : NodeState → Block → Bool
is_tip s block = s.ledger.tip_hash == block.block_hash

abbrev pub is_preferred : NodeState → Block → Bool
is_preferred s block =
    option_eq (map_option (λ b. b.block_hash) (preferred_pending_child_for_certified_head s))
      (some block.block_hash)

module _ (c : Crypto) where
  -- The block becomes the tip, with the ledger after it.
  unfoldable pub append_block : NodeState → LedgerState → Block → NodeState
  unfolding import_commitment_receipts
  append_block s next_ledger block = record s {
    ledger = next_ledger;
    seen_blocks = Set.insert s.seen_blocks block.block_hash;
    blocks = s.blocks ++ block ∷ [];
    receipt_book = import_commitment_receipts c s.receipt_book block.commitment_receipts;
  }

  module _ (local_vote : LocalVote) where
    unfoldable pub maybe_broadcast_vote_for_competing_block : NodeState → Block → Outcome NodeState
    unfolding at can_vote_for_competing_block
    maybe_broadcast_vote_for_competing_block s block = if not s.consensus_v2 then ok s else do
      may_vote ← at s (can_vote_for_competing_block c s block)
      if may_vote then local_vote s block else ok s

    -- The loop over a block's buffered votes: a vote that is refused is dropped.
    unfoldable pub import_each_vote : NodeState → List ProposalVote → Outcome NodeState
    unfolding import_proposal_vote
    import_each_vote s [] = ok s
    import_each_vote s (vote ∷ votes) = elim (import_proposal_vote c local_vote s vote) [
      | ok (_, s') ↦ import_each_vote s' votes
      | err (Fault.refused _ s') ↦ import_each_vote s' votes
      | err Fault.out_of_fuel ↦ err Fault.out_of_fuel
    ]

    unfoldable pub import_buffered_proposal_votes_for_block : NodeState → Block → Outcome NodeState
    unfolding import_each_vote
    import_buffered_proposal_votes_for_block s block =
        elim (Map.get s.buffered_proposal_votes block.block_hash) [
          | none ↦ ok s
          | some by_validator ↦
              import_each_vote
                (record s {
                  buffered_proposal_votes = Map.remove s.buffered_proposal_votes block.block_hash;
                })
                (values by_validator)
        ]

    -- What follows for a competing block that is stored: a vote, a certificate, an adoption.
    unfoldable pub settle_competing_block :
        NodeState → Block → Outcome (BlockAcceptance × NodeState)
    unfolding maybe_broadcast_vote_for_competing_block
    settle_competing_block s block = do
      voted ← maybe_broadcast_vote_for_competing_block s block
      (_, finalized) ← maybe_finalize_quorum_certificate c local_vote voted block.block_hash
      (adopted, s') ← adopt_preferred_competing_branch c local_vote finalized block
      ok (accepted_if (adopted || is_tip s' block), s')

    -- After the adoption of an uncertified child.
    unfoldable pub settle_unless_tip :
        Block → Bool × NodeState → Outcome (BlockAcceptance × NodeState)
    unfolding settle_competing_block
    settle_unless_tip block (adopted, s) =
        if is_tip s block then ok (BlockAcceptance.accepted, s) else settle_competing_block s block

    -- A block whose parent is not the tip.
    unfoldable pub accept_beside_tip : NodeState → Block → Outcome (BlockAcceptance × NodeState)
    unfolding buffer_orphan import_buffered_proposal_votes_for_block settle_unless_tip
    accept_beside_tip s block = do
      stored ← import_buffered_proposal_votes_for_block (buffer_orphan s block) block
      if is_direct_child_of_current_certified_head s block
          then adopt_better_uncertified_child c local_vote stored >>= settle_unless_tip block
          else settle_competing_block stored block

    -- A pending child gets its votes, and the node's own if it is the preferred one.
    unfoldable pub support_pending_child : NodeState → Block → Outcome NodeState
    unfolding import_buffered_proposal_votes_for_block
    support_pending_child s block = do
      imported ← import_buffered_proposal_votes_for_block s block
      voted ← if is_preferred imported block then local_vote imported block else ok imported
      (_, finalized) ← maybe_finalize_quorum_certificate c local_vote voted block.block_hash
      ok finalized

    -- A block on top of the tip while only a certificate may move the chain.
    unfoldable pub accept_uncertified : NodeState → Block → Outcome (BlockAcceptance × NodeState)
    unfolding buffer_orphan buffer_pending support_pending_child recovery_sync_only_active
    accept_uncertified s block = elim (current_certified_head s) [
      | none ↦ ok (BlockAcceptance.orphan, s)
      | some head ↦
          if not (is_child_of head block)
          then ok (BlockAcceptance.orphan, buffer_orphan s block)
          else do
            let pending = buffer_pending s block
            supported ←
                if recovery_sync_only_active pending
                then ok pending
                else support_pending_child pending block
            (_, moved) ← adopt_better_uncertified_child c local_vote supported
            ok (accepted_if (is_tip moved block), moved)
    ]

    unfoldable pub extend_tip :
        NodeState → LedgerState → Block → Outcome (BlockAcceptance × NodeState)
    unfolding append_block import_buffered_proposal_votes_for_block remove_transactions
    extend_tip s next_ledger block = do
      imported ← import_buffered_proposal_votes_for_block (append_block s next_ledger block) block
      (_, finalized) ← maybe_finalize_quorum_certificate c local_vote imported block.block_hash
      voted ←
          local_vote
            (record finalized {
              mempool = remove_transactions finalized.mempool block.transactions;
            })
            block
      ok (BlockAcceptance.accepted, voted)

    unfoldable pub accept_block :
        Floats → NodeState → Block → Bool → Outcome (BlockAcceptance × NodeState)
    unfolding at known_block check_block check_proposal accept_beside_tip accept_uncertified
        extend_tip
    accept_block f s block local_proposal =
        if is_some (known_block s block.block_hash)
        then ok (BlockAcceptance.duplicate, s)
        else at s (check_block f c s block)
          >> (if not (block.header.parent_hash == s.ledger.tip_hash)
              then accept_beside_tip s block
              else at s (check_proposal f c s block local_proposal)
                >> at s (apply_block c s.ledger block).0
                >> (if certified_head_only_active s
                      && not (Map.contains_key s.quorum_certificates block.block_hash)
                    then accept_uncertified s block
                    else extend_tip s (apply_block c s.ledger block).1 block))
