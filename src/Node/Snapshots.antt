-- ===== src/Node/Snapshots.antt =====
-- Whole chains and segments from a peer: their validation by replay, and what a node does with
-- them. Where the source panics, on a genesis without validators, the error is "panicked".
pub mod Replayed
pub mod Applied
use entangrid.Prelude.{
  ℕ, ◌-◌, List, [], ◌∷◌, ◌++◌, Option, none, some, Bool, true, false, not, ◌&&◌, ◌||◌, ◌==◌, ltb,
  is_empty, is_some, is_ok, filter, map, take, Result, ok, err, ◌>>=◌, ◌>>◌, bail_if, if◌then◌else◌,
  add_u64,
}
use entangrid.BTree.Key.{nat_key}
use entangrid.BTree.Map.{BTreeMap}
use entangrid.BTree.Set.{BTreeSet, contains}
use entangrid.Types.Records.{
  HashBytes, AccountId, Block, RelayReceipt, GenesisConfig, StateSnapshot, ChainSnapshot,
  ChainSegment, ProposalVote, QuorumCertificate,
}
use entangrid.Types.Encoding.{Crypto, Hashed, empty_hash}
use entangrid.Types.Floats.{Floats, f64_zero, default_service_score_weights}
use entangrid.Consensus.Engine.{ConsensusEngine}
use entangrid.Consensus.Receipts.{validate_receipt_assignment}
use entangrid.Consensus.Score.{validate_block_basic}
use entangrid.Ledger.{LedgerState, apply_block, from_genesis, replay_blocks, account_eq}
use entangrid.Node.State.{NodeState, Outcome, at, LocalVote, highest_local_qc}
use entangrid.Node.Receipts.{
  ReceiptBook, receipt_hash, receipt_signing_hash, rebuild_seen_receipts, persist_receipt, collect,
}
use entangrid.Node.Policy.{validate_hybrid_receipt_policy}
use entangrid.Node.Commitments.{validate_commitment_bundle, validate_snapshot_receipts}
use entangrid.Node.BlockChecks.{topology_root_of, block_hash_of}
use entangrid.Node.Adoption.{transaction_hashes}
use entangrid.Node.Acceptance.{import_each_vote, import_buffered_proposal_votes_for_block}
use entangrid.Node.Segments.{align_chain_segment_to_local_chain}

-- The derived `PartialEq` of the maps of accounts and of `StateSnapshot`.
unfoldable pub accounts_eq : BTreeMap AccountId ℕ → BTreeMap AccountId ℕ → Bool
accounts_eq [] [] = true
accounts_eq ((k, n) ∷ rest) ((k', n') ∷ rest') =
    account_eq k k' && n == n' && accounts_eq rest rest'
accounts_eq _ _ = false

unfoldable pub snapshot_eq : StateSnapshot → StateSnapshot → Bool
unfolding accounts_eq
snapshot_eq a b =
    accounts_eq a.balances b.balances
    && accounts_eq a.nonces b.nonces
    && a.tip_hash == b.tip_hash
    && a.height == b.height
    && a.last_slot == b.last_slot

module _ (c : Crypto) (f : Floats) (e : ConsensusEngine) where
  -- The answer of `validate_block_basic` without the gate.
  unfoldable pub check_parent : Block → HashBytes → Result (Unit {0})
  check_parent block expected_parent_hash =
      elim (validate_block_basic f c e block expected_parent_hash none false f64_zero) [
        | none ↦ err "panicked"
        | some answer ↦ answer
      ]

  -- The commitment of a block in a snapshot, on the default weights.
  unfoldable pub check_snapshot_commitment : Block → Result (Unit {0})
  unfolding validate_commitment_bundle
  check_snapshot_commitment block = elim block.commitment [
    | none ↦
        bail_if (not (is_empty block.commitment_receipts))
          "commitment receipts present without commitment"
    | some commitment ↦
        validate_commitment_bundle c e f commitment block.commitment_receipts
          default_service_score_weights
  ]

  unfoldable pub validate_snapshot_block : LedgerState → Block → HashBytes → Result (Unit {0})
  unfolding check_parent check_snapshot_commitment
  validate_snapshot_block ledger block expected_parent_hash = do
    bail_if (not (block_hash_of f c block == block.block_hash)) "block hash mismatch in snapshot"
    verified ← c.verify block.header.proposer_id block.block_hash block.signature
    bail_if (not verified) "invalid block signature in snapshot"
    bail_if (not (block.header.block_number == add_u64 ledger.height 1))
        "unexpected block number in snapshot"
    check_parent block expected_parent_hash
    bail_if
        (not (
          c.canonical_hash (Hashed.transactions block.transactions)
          == block.header.transactions_root))
        "transactions root mismatch in snapshot"
    bail_if (not (topology_root_of f c block == block.header.topology_root))
        "topology root mismatch in snapshot"
    check_snapshot_commitment block

  -- The loop of `validate_chain_snapshot` and of `apply_chain_segment`.
  unfoldable pub replay_validated : LedgerState → HashBytes → List Block → Result LedgerState
  unfolding validate_snapshot_block
  replay_validated ledger expected_parent_hash [] = ok ledger
  replay_validated ledger expected_parent_hash (block ∷ rest) =
      let next = replay_validated (apply_block c ledger block).1 block.block_hash rest in
      validate_snapshot_block ledger block expected_parent_hash
      >> (apply_block c ledger block).0
      >> next

  unfoldable pub validate_chain_snapshot :
      GenesisConfig → ChainSnapshot → Result (LedgerState × List RelayReceipt)
  unfolding replay_validated snapshot_eq
  validate_chain_snapshot genesis chain = do
    receipts ← validate_snapshot_receipts c e chain.receipts
    ledger ← replay_validated (from_genesis genesis) empty_hash chain.blocks
    bail_if (not (snapshot_eq ledger chain.snapshot)) "snapshot replay mismatch"
    ok (ledger, receipts)

module _ (c : Crypto) where
  -- `validate_receipt`; its counters are not part of the state.
  unfoldable pub validate_receipt : NodeState → RelayReceipt → Result (Unit {0})
  unfolding validate_hybrid_receipt_policy
  validate_receipt s receipt =
      if contains s.receipt_book.seen_receipts (receipt_hash c receipt) then ok tt else do
        validate_hybrid_receipt_policy s receipt
        verified ←
            c.verify receipt.witness_validator_id (receipt_signing_hash c receipt) receipt.signature
        bail_if (not verified) "invalid receipt signature"
        validate_receipt_assignment c s.consensus receipt

  -- An invalid receipt is not stored.
  unfoldable pub store_receipt : NodeState → RelayReceipt → Bool × NodeState
  unfolding validate_receipt persist_receipt
  store_receipt s receipt = if not (is_ok (validate_receipt s receipt)) then (false, s) else (
    (persist_receipt c s.receipt_book receipt).0,
    record s { receipt_book = (persist_receipt c s.receipt_book receipt).1 },
  )

  unfoldable pub store_receipts : NodeState → List RelayReceipt → NodeState
  unfolding store_receipt
  store_receipts s [] = s
  store_receipts s (receipt ∷ rest) = store_receipts (store_receipt s receipt).1 rest

  -- The chain of a node that takes over another's: no orphans, no pending children.
  unfoldable pub replace_chain :
      NodeState → LedgerState → List Block → List RelayReceipt → NodeState
  unfolding rebuild_seen_receipts
  replace_chain s ledger blocks receipts = record s {
    ledger = ledger;
    blocks = blocks;
    orphan_blocks = [];
    pending_certified_children = [];
    receipt_book = rebuild_seen_receipts c (record s.receipt_book { receipts = receipts });
    seen_blocks = collect (map (λ b. b.block_hash) blocks) [];
    seen_transactions = collect (transaction_hashes blocks) s.seen_transactions;
  }

  module _ (local_vote : LocalVote) where
    -- The buffered votes of the blocks, one block after another.
    unfoldable pub import_buffered_for_blocks : NodeState → List Block → Outcome NodeState
    import_buffered_for_blocks s [] = ok s
    import_buffered_for_blocks s (block ∷ rest) =
        import_buffered_proposal_votes_for_block c local_vote s block
        >>= (λ imported. import_buffered_for_blocks imported rest)

    -- The votes and certificates of the blocks stay, and the buffered votes of the others.
    unfoldable pub retain_for_blocks : BTreeSet HashBytes → NodeState → NodeState
    retain_for_blocks known_hashes s = record s {
      proposal_votes =
          filter (λ e. contains known_hashes e.0 && not (is_empty e.1)) s.proposal_votes;
      quorum_certificates = filter (λ e. contains known_hashes e.0) s.quorum_certificates;
      buffered_proposal_votes =
          filter (λ e. not (contains known_hashes e.0)) s.buffered_proposal_votes;
    }

    -- The end of both imports: `applied` is the new chain, `votes` are the peer's.
    unfoldable pub settle_chain : NodeState → List Block → List ProposalVote → Outcome NodeState
    unfolding import_buffered_for_blocks retain_for_blocks
    settle_chain s applied votes = do
      imported ← import_each_vote c local_vote s votes
      buffered ← import_buffered_for_blocks imported applied
      ok (retain_for_blocks (collect (map (λ b. b.block_hash) applied) []) buffered)

    unfoldable pub apply_chain_snapshot : Floats → NodeState → ChainSnapshot → Outcome NodeState
    unfolding at validate_chain_snapshot replace_chain settle_chain
    apply_chain_snapshot f s chain = do
      (ledger, receipts) ← at s (validate_chain_snapshot c f s.consensus s.genesis chain)
      settle_chain (replace_chain s ledger chain.blocks receipts) chain.blocks chain.proposal_votes

  -- The part of the chain that a segment continues: up to the locked certificate if the segment
  -- starts there, or else all of it. The slice of the source panics on a chain that is shorter than
  -- its certified block's number.
  unfoldable pub sync_repair_base_for_segment :
      NodeState → ChainSegment → Result (List Block × StateSnapshot)
  unfolding highest_local_qc
  sync_repair_base_for_segment s chain =
      if not s.consensus_v2 then ok (s.blocks, s.ledger) else elim (highest_local_qc s) [
        | none ↦ ok (s.blocks, s.ledger)
        | some local_qc ↦
            if ltb local_qc.block_number s.ledger.height
              && chain.base_height == local_qc.block_number
              && chain.base_tip_hash == local_qc.block_hash
            then replay_blocks c s.genesis (take local_qc.block_number s.blocks)
              >>= (λ ledger. ok (take local_qc.block_number s.blocks, ledger))
            else ok (s.blocks, s.ledger)
      ]

  unfoldable pub apply_chain_segment :
      LocalVote → Floats → NodeState → ChainSegment → Outcome NodeState
  unfolding at sync_repair_base_for_segment align_chain_segment_to_local_chain replay_validated
      snapshot_eq replace_chain store_receipts settle_chain
  apply_chain_segment local_vote f s segment = do
    (base_blocks, base_snapshot) ← at s (sync_repair_base_for_segment s segment)
    chain ← at s (align_chain_segment_to_local_chain base_blocks base_snapshot segment)
    receipts ← at s (validate_snapshot_receipts c s.consensus chain.receipts)
    base_ledger ← at s (replay_blocks c s.genesis base_blocks)
    ledger ← at s (replay_validated c f s.consensus base_ledger base_snapshot.tip_hash chain.blocks)
    at s (
        bail_if (not (snapshot_eq ledger chain.target_snapshot)) "incremental sync replay mismatch")
    let blocks = base_blocks ++ chain.blocks
    let replaced = replace_chain s ledger blocks s.receipt_book.receipts
    settle_chain local_vote (store_receipts replaced receipts) blocks chain.proposal_votes
