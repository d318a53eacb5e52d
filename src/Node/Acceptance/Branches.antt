-- ===== src/Node/Acceptance/Branches.antt =====
-- The branches of `accept_block` as equations.
use entangrid.Prelude.{ℕ, none, some, Bool, false, not, ◌&&◌, ◌≡◌, refl, ok, if◌then◌else◌, ==_iff}
use entangrid.BTree.Key.{nat_key}
use entangrid.BTree.Map
use entangrid.Types.Records.{HashBytes, Block}
use entangrid.Types.Encoding.{Crypto}
use entangrid.Types.Floats.{Floats}
use entangrid.Ledger.{apply_block}
use entangrid.Node.State.{
  NodeState, LocalVote, known_block, certified_head_only_active, current_certified_head,
  is_child_of,
}
use entangrid.Node.BlockChecks.{check_block, check_proposal}
use entangrid.Node.Acceptance.{
  BlockAcceptance, accept_block, accept_uncertified, buffer_orphan, extend_tip,
}

module _ (c : Crypto) (local_vote : LocalVote) where
  -- A new block on top of the tip that passes all checks.
  pub accept_block-on_top :
      (f : Floats) (s : NodeState) (block : Block) (local_proposal : Bool)
      → known_block s block.block_hash ≡ none
      → check_block f c s block ≡ ok tt
      → block.header.parent_hash ≡ s.ledger.tip_hash
      → check_proposal f c s block local_proposal ≡ ok tt
      → (apply_block c s.ledger block).0 ≡ ok tt
      → accept_block c local_vote f s block local_proposal ≡ (
          if certified_head_only_active s
            && not (Map.contains_key s.quorum_certificates block.block_hash)
          then accept_uncertified c local_vote s block
          else extend_tip c local_vote s (apply_block c s.ledger block).1 block)
  unfolding accept_block
  accept_block-on_top f s block local_proposal unknown checked child proposed applied =
      let at_tip = (==_iff block.header.parent_hash s.ledger.tip_hash).1 child in
      rw (accept_block, unknown, checked, at_tip, proposed, applied) refl

  pub accept_uncertified-descendant :
      (s : NodeState) (block : Block) {head : HashBytes × ℕ}
      → current_certified_head s ≡ some head
      → is_child_of head block ≡ false
      → accept_uncertified c local_vote s block ≡ ok (BlockAcceptance.orphan, buffer_orphan s block)
  unfolding accept_uncertified
  accept_uncertified-descendant s block is_head not_child =
      rw (accept_uncertified, is_head, not_child) refl
