-- ===== src/Node/BlockChecks.antt =====
-- What a node checks of a block before it takes it: the first half of `accept_block`, and
-- `can_vote_for_competing_block`. Where the source panics, on a genesis without validators, the
-- error is "panicked".
use entangrid.Prelude.{
  [], ◌∷◌, ◌++◌, none, some, Bool, true, false, not, ◌==◌, is_empty, is_some, map_option, unwrap_or,
  option_eq, Result, ok, err, ◌>>=◌, ◌>>◌, bail_if, if◌then◌else◌,
}
use Prim.Native.Nat.Ordering.{lt}
use entangrid.BTree.Key.{nat_key}
use entangrid.Types.Records.{HashBytes, Block}
use entangrid.Types.Encoding.{Crypto, Hashed, empty_hash}
use entangrid.Types.Floats.{Floats}
use entangrid.Consensus.Engine.{proposer_for_slot}
use entangrid.Consensus.Score.{validate_block_basic}
use entangrid.Ledger.{replay_blocks, apply_block}
use entangrid.Node.State.{NodeState, highest_locked_qc_hash}
use entangrid.Node.Chains.{build_parent_chain_for_block}
use entangrid.Node.Quality.{Quality, compare_quality, branch_quality_with_extra_tip_vote}
use entangrid.Node.Policy.{validate_hybrid_block_policy, validate_transaction_policies}
use entangrid.Node.Commitments.{validate_commitment_bundle}
use entangrid.Node.Gating.{gate_for_block}
use entangrid.Node.Adoption.{respects_lock}

-- `candidate_quality >= current_quality`
abbrev quality_ge : Quality → Quality → Bool
quality_ge a b = elim (compare_quality a b) [ lt ↦ false | _ ↦ true ]

module _ (f : Floats) (c : Crypto) where
  -- The checks on the commitment and its receipts.
  unfoldable pub check_commitment : NodeState → Block → Result (Unit {0})
  unfolding validate_commitment_bundle
  check_commitment s block = elim block.commitment [
    | none ↦
        bail_if (not (is_empty block.commitment_receipts))
          "commitment receipts present without commitment"
    | some commitment ↦
        validate_commitment_bundle c s.consensus f commitment block.commitment_receipts
          s.service_score_weights
  ]

  abbrev pub topology_root_of : Block → HashBytes
  topology_root_of block =
      unwrap_or
        (map_option (λ commitment. c.canonical_hash (Hashed.commitment commitment))
          block.commitment)
        empty_hash

  abbrev pub block_hash_of : Block → HashBytes
  block_hash_of block =
      c.canonical_hash (Hashed.block block.header block.transactions block.commitment)

  -- The checks of `accept_block` that do not depend on the chain.
  unfoldable pub check_block : NodeState → Block → Result (Unit {0})
  unfolding check_commitment
  check_block s block = do
    bail_if (not (block_hash_of block == block.block_hash)) "block hash mismatch"
    verified ← c.verify block.header.proposer_id block.block_hash block.signature
    bail_if (not verified) "invalid block signature"
    bail_if (not (is_some (proposer_for_slot c s.consensus block.header.slot))) "panicked"
    bail_if
        (not (
          option_eq (proposer_for_slot c s.consensus block.header.slot)
            (some block.header.proposer_id)))
        "unexpected proposer"
    bail_if
        (not (
          c.canonical_hash (Hashed.transactions block.transactions)
          == block.header.transactions_root))
        "transactions root mismatch"
    bail_if (not (topology_root_of block == block.header.topology_root)) "topology root mismatch"
    check_commitment s block
    validate_transaction_policies s block.transactions
    validate_hybrid_block_policy s block

  -- The gate and `validate_block_basic` for a block on top of the tip.
  unfoldable pub check_proposal : NodeState → Block → Bool → Result (Unit {0})
  unfolding gate_for_block
  check_proposal s block local_proposal =
      let (enforced, score) = gate_for_block f c s block local_proposal in
      elim (validate_block_basic f c s.consensus block s.ledger.tip_hash score enforced
        s.service_gating_threshold) [ none ↦ err "panicked" | some answer ↦ answer ]

module _ (c : Crypto) where
  unfoldable pub can_vote_for_competing_block : NodeState → Block → Result Bool
  unfolding build_parent_chain_for_block highest_locked_qc_hash
  can_vote_for_competing_block s block = elim (build_parent_chain_for_block s block) [
    | none ↦ ok false
    | some parents ↦ if not (respects_lock (highest_locked_qc_hash s) parents) then ok false else do
      ledger ← replay_blocks c s.genesis parents
      (apply_block c ledger block).0
      ok (
          quality_ge
            (branch_quality_with_extra_tip_vote s (parents ++ block ∷ []) (some block.block_hash))
            (branch_quality_with_extra_tip_vote s s.blocks none))
  ]
