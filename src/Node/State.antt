-- ===== src/Node/State.antt =====
-- The part of `NodeRunner` that fork choice and voting read and write, and lookups in it.
pub mod Outcomes
pub mod Recovery
use entangrid.Prelude.{
  Result, Fallible, ok, err, String, ℕ, List, [], ◌∷◌, ◌++◌, Option, none, some, Bool, ◌&&◌,
  reverse, find, map_option, is_some, any, not, false, ◌||◌, ◌==◌, unwrap_or, ltb, if◌then◌else◌,
  filter, add_u64,
}
use entangrid.BTree.Key.{nat_key}
use entangrid.BTree.Map
use entangrid.BTree.Map.{BTreeMap}
use entangrid.BTree.Set.{BTreeSet}
use entangrid.Node.Receipts.{ReceiptBook}
use entangrid.Consensus.Engine.{ConsensusEngine}
use entangrid.Types.Records.{
  Epoch, F64, ServiceScoreWeights, ServiceAggregate, SignedTransaction, ValidatorId, HashBytes,
  GenesisConfig, Block, ProposalVote, QuorumCertificate, SyncQcAnchor,
}
use entangrid.Ledger.{LedgerState}

abbrev pub VoteMap : Type 0
VoteMap = BTreeMap HashBytes (BTreeMap ValidatorId ProposalVote)

pub record PeerSyncStatus : Type 0 where
  pub height : ℕ
  pub tip_hash : HashBytes
  pub tip_last_slot : ℕ
  pub highest_qc_hash : Option HashBytes
  pub highest_qc_height : ℕ
  pub recent_qc_anchors : List SyncQcAnchor

-- `peers` are the validators of the configured peers.
pub record NodeState : Type 0 where
  pub validator_id : ValidatorId
  pub consensus_v2 : Bool
  pub require_hybrid_validator_signatures : Bool
  pub enable_receipts : Bool
  pub enable_service_gating : Bool
  pub service_gating_start_epoch : Epoch
  pub service_gating_threshold : F64
  pub service_score_window_epochs : ℕ
  pub service_score_weights : ServiceScoreWeights
  pub startup_sync_barrier : Bool
  pub peers : List ValidatorId
  pub peer_sync_status : BTreeMap ValidatorId PeerSyncStatus
  pub genesis : GenesisConfig
  pub consensus : ConsensusEngine
  pub ledger : LedgerState
  pub blocks : List Block
  pub receipt_book : ReceiptBook
  pub orphan_blocks : List Block
  pub pending_certified_children : List Block
  pub mempool : BTreeMap HashBytes SignedTransaction
  pub seen_transactions : BTreeSet HashBytes
  pub seen_blocks : BTreeSet HashBytes
  pub service_aggregates : BTreeMap (ValidatorId × Epoch) ServiceAggregate
  pub latest_service_scores : BTreeMap ValidatorId F64
  pub proposal_votes : VoteMap
  pub buffered_proposal_votes : VoteMap
  pub quorum_certificates : BTreeMap HashBytes QuorumCertificate

-- Why a method on `&mut self` returns early: it fails with a text and leaves a state, which keeps
-- all that it changed before, or the fuel of the model is at its end.
pub data Fault : Type 0 where
  refused : String → NodeState → Fault
  out_of_fuel : Fault

abbrev pub Outcome {ℓ} : Type ℓ → Type ℓ
Outcome T = Fallible Fault T

-- A call that changes nothing, made in a state.
unfoldable pub at {ℓ} : {T : Type ℓ} → NodeState → Result T → Outcome T
at s (err text) = err (Fault.refused text s)
at s (ok value) = ok value

-- How a step casts the node's own vote for a block: `maybe_broadcast_local_proposal_vote`, which
-- imports the vote, and so comes back to the steps that call it.
abbrev pub LocalVote : Type 0
LocalVote = NodeState → Block → Outcome NodeState

abbrev pub find_block : HashBytes → List Block → Option Block
find_block hash blocks = find (λ b. b.block_hash == hash) blocks

-- `or_else`
abbrev pub or_else {ℓ} : {A : Type ℓ} → Option A → Option A → Option A
or_else (some a) other = some a
or_else none other = other

unfoldable pub known_block : NodeState → HashBytes → Option Block
known_block s hash =
    or_else (find_block hash s.blocks)
      (or_else (find_block hash s.pending_certified_children) (find_block hash s.orphan_blocks))

abbrev pub is_certified : NodeState → Block → Bool
is_certified s block = Map.contains_key s.quorum_certificates block.block_hash

unfoldable pub highest_locked_qc_hash : NodeState → Option HashBytes
highest_locked_qc_hash s = map_option (λ b. b.block_hash) (find (is_certified s) (reverse s.blocks))

-- `find_map` over the blocks from the last one
find_qc : BTreeMap HashBytes QuorumCertificate → List Block → Option QuorumCertificate
find_qc qcs [] = none
find_qc qcs (block ∷ rest) =
    let next = find_qc qcs rest in
    elim (Map.get qcs block.block_hash) [ some qc ↦ some qc | none ↦ next ]

unfoldable pub highest_local_qc : NodeState → Option QuorumCertificate
unfolding find_qc
highest_local_qc s = find_qc s.quorum_certificates (reverse s.blocks)

unfoldable pub certified_height : NodeState → HashBytes → Option ℕ
certified_height s hash =
    or_else (map_option (λ qc. qc.block_number) (Map.get s.quorum_certificates hash))
      (map_option (λ b. b.header.block_number) (known_block s hash))

unfoldable pub current_certified_head : NodeState → Option (HashBytes × ℕ)
unfolding highest_locked_qc_hash certified_height known_block
current_certified_head s = elim (highest_locked_qc_hash s) [
  | none ↦ none
  | some hash ↦ map_option (λ height. (hash, height)) (certified_height s hash)
]

unfoldable pub certified_head_only_active : NodeState → Bool
unfolding highest_locked_qc_hash
certified_head_only_active s = s.consensus_v2 && is_some (highest_locked_qc_hash s)

-- Whether the block extends the certified head by one.
abbrev pub is_child_of : HashBytes × ℕ → Block → Bool
is_child_of (hash, height) block =
    block.header.parent_hash == hash && block.header.block_number == add_u64 height 1

unfoldable pub is_direct_child_of_current_certified_head : NodeState → Block → Bool
unfolding current_certified_head
is_direct_child_of_current_certified_head s block =
    unwrap_or (map_option (λ head. is_child_of head block) (current_certified_head s)) false

unfoldable pub is_pending_certified_head_block : NodeState → Block → Bool
unfolding current_certified_head
is_pending_certified_head_block s block =
    unwrap_or
      (map_option
        (λ head.
          is_child_of head block
          && any (λ p. p.block_hash == block.block_hash) s.pending_certified_children)
        (current_certified_head s))
      false

-- `max_by` on slot and then hash: of equal elements the last one.
unfoldable pub later_block : Block → Block → Block
later_block left right =
    if ltb right.header.slot left.header.slot
      || (right.header.slot == left.header.slot && ltb right.block_hash left.block_hash)
    then left
    else right

unfoldable pub latest_from : Block → List Block → Block
unfolding later_block
latest_from best [] = best
latest_from best (block ∷ rest) = latest_from (later_block best block) rest

unfoldable pub latest_block : List Block → Option Block
unfolding latest_from
latest_block [] = none
latest_block (block ∷ rest) = some (latest_from block rest)

unfoldable pub preferred_pending_child_for_certified_head : NodeState → Option Block
unfolding current_certified_head latest_block
preferred_pending_child_for_certified_head s = elim (current_certified_head s) [
  | none ↦ none
  | some head ↦ latest_block (filter (is_child_of head) s.pending_certified_children)
]

abbrev pub all_blocks : NodeState → List Block
all_blocks s = s.blocks ++ (s.pending_certified_children ++ s.orphan_blocks)

abbrev pub uncertified_children : NodeState → HashBytes × ℕ → List Block
uncertified_children s head =
    filter (λ b. not (is_certified s b) && is_child_of head b) (all_blocks s)

unfoldable pub best_known_uncertified_child_for_certified_head : NodeState → Option Block
unfolding current_certified_head latest_block
best_known_uncertified_child_for_certified_head s = elim (current_certified_head s) [
  | none ↦ none
  | some head ↦ latest_block (uncertified_children s head)
]

-- The fold that keeps the first block of each hash, in order.
unfoldable pub unique_blocks : List Block → List Block → List Block
unique_blocks unique [] = unique
unique_blocks unique (block ∷ rest) =
    unique_blocks
      (if any (λ b. b.block_hash == block.block_hash) unique
        then unique
        else unique ++ (block ∷ []))
      rest

unfoldable pub known_uncertified_children_for_certified_head : NodeState → List Block
unfolding current_certified_head unique_blocks
known_uncertified_children_for_certified_head s = elim (current_certified_head s) [
  | none ↦ []
  | some head ↦ unique_blocks [] (uncertified_children s head)
]
