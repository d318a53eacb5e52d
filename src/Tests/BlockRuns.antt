-- ===== src/Tests/BlockRuns.antt =====
-- Blocks on top of a tip, and orphans that are promoted or stuck.
use entangrid.Prelude.{◌≡◌, refl, [], ◌∷◌, none, some, true, false, ok, arith}
use entangrid.BTree.Key.{nat_key}
use entangrid.BTree.Map
use entangrid.BTree.Set
use entangrid.BTree.Set.{contains}
use entangrid.Node.Chains.{build_chain_to_tip, index_blocks, walk_back, checked_chain, is_linked}
use entangrid.Types.Records.{Block}
use entangrid.Consensus.Engine.{proposer_for_slot}
use entangrid.Consensus.Score.{validate_block_basic}
use entangrid.Ledger.{apply_block, seal_block, state_root, apply_transactions}
use entangrid.Node.State.{
  NodeState, known_block, certified_head_only_active, current_certified_head,
  highest_locked_qc_hash, certified_height,
}
use entangrid.Node.Voting.{maybe_broadcast_local_proposal_vote}
use entangrid.Node.BlockChecks.{check_block, check_commitment, check_proposal}
use entangrid.Node.Gating.{gate_for_block}
use entangrid.Node.Policy.{validate_hybrid_block_policy, validate_transaction_policies}
use entangrid.Node.Acceptance.{BlockAcceptance, accept_block}
use entangrid.Node.Acceptance.Stored.{IsStored, accept_block-IsStored}
use entangrid.Node.Acceptance.Orphans.{take_child, try_promote_orphans}
use entangrid.Node.Acceptance.Orphans.Stuck.{taken, try_promote_orphans-stuck}
use entangrid.Node.Acceptance.Orphans.Ends.{IsV1, try_promote_orphans-ends}
use entangrid.Tests.Fixtures.{block_crypto, good_block, floats, node, certificate, ledger}

-- The chain has two blocks, the first one certified; a third waits.
abbrev stuck_node : NodeState
stuck_node = record node {
  ledger = record ledger { tip_hash = 12; height = 2; last_slot = 2 };
  blocks = good_block 1 0 ∷ good_block 2 11 ∷ [];
  orphan_blocks = good_block 3 12 ∷ [];
  quorum_certificates = (11, certificate) ∷ [];
}

abbrev third : Block
third = good_block 3 12

third_checked : check_block floats block_crypto (taken stuck_node []) third ≡ ok tt
unfolding check_block check_commitment proposer_for_slot validate_hybrid_block_policy
    validate_transaction_policies
third_checked = refl

third_proposed : check_proposal floats block_crypto (taken stuck_node []) third false ≡ ok tt
unfolding check_proposal gate_for_block validate_block_basic proposer_for_slot
third_proposed = refl

third_applied : (apply_block block_crypto stuck_node.ledger third).0 ≡ ok tt
unfolding apply_block seal_block state_root apply_transactions
third_applied = refl

only_certified : certified_head_only_active (taken stuck_node []) ≡ true
unfolding certified_head_only_active highest_locked_qc_hash Map.get
only_certified = refl

first_is_head : current_certified_head (taken stuck_node []) ≡ some (11, 1)
unfolding current_certified_head certified_height highest_locked_qc_hash Map.get
first_is_head = refl

third_unknown : known_block (taken stuck_node []) 13 ≡ none
unfolding known_block
third_unknown = refl

third_uncertified : Map.contains_key stuck_node.quorum_certificates 13 ≡ false
unfolding Map.get
third_uncertified = refl

nothing_before : take_child 12 [] ≡ none
unfolding take_child
nothing_before = refl

try_promote_orphans-stuck_example :
    try_promote_orphans block_crypto
      (maybe_broadcast_local_proposal_vote block_crypto 1)
      floats
      100
      stuck_node
    ≡ none
try_promote_orphans-stuck_example =
    try_promote_orphans-stuck block_crypto (maybe_broadcast_local_proposal_vote block_crypto 1)
      floats stuck_node [] third third_unknown refl third_checked third_proposed third_applied
      only_certified third_uncertified first_is_head refl refl nothing_before 100

-- The same chain without `consensus_v2`.
abbrev old_node : NodeState
old_node = record stuck_node { consensus_v2 = false; proposal_votes = []; quorum_certificates = [] }

old_node-IsV1 : IsV1 old_node
old_node-IsV1 = record { version = refl; votes = refl; buffered = refl; certificates = refl }

try_promote_orphans-ends_example :
    (s' : NodeState) × (try_promote_orphans block_crypto
        (maybe_broadcast_local_proposal_vote block_crypto 1)
        floats
        2
        old_node
      ≡ some s')
    × (take_child s'.ledger.tip_hash s'.orphan_blocks ≡ none)
try_promote_orphans-ends_example =
    try_promote_orphans-ends block_crypto 0 floats 2 old_node old_node-IsV1 (omega arith)

abbrev extended : NodeState
extended = record old_node {
  ledger = record ledger { tip_hash = 13; height = 3; last_slot = 3 };
  blocks = good_block 1 0 ∷ good_block 2 11 ∷ third ∷ [];
  orphan_blocks = [];
  seen_blocks = 11 ∷ 13 ∷ [];
}

run_block :
    accept_block block_crypto
      (maybe_broadcast_local_proposal_vote block_crypto 1)
      floats
      (taken old_node [])
      third
      false
    ≡ ok (BlockAcceptance.accepted, extended)
unfolding accept_block proposer_for_slot validate_transaction_policies validate_hybrid_block_policy
    validate_block_basic apply_block apply_transactions state_root certified_head_only_active
    Map.get maybe_broadcast_local_proposal_vote Set.insert
run_block = refl

accept_block-IsStored_example : IsStored block_crypto (taken old_node []) extended third
accept_block-IsStored_example =
    accept_block-IsStored block_crypto 1 floats (taken old_node []) third false run_block

-- A block that names its number wrongly is accepted on top of the tip, and then ends no chain.
abbrev misnumbered : Block
misnumbered = good_block 9 12

abbrev misled : NodeState
misled = record extended {
  ledger = record ledger { tip_hash = 19; height = 9; last_slot = 9 };
  blocks = good_block 1 0 ∷ good_block 2 11 ∷ misnumbered ∷ [];
  seen_blocks = 11 ∷ 19 ∷ [];
}

misnumbered-accepted :
    accept_block block_crypto
      (maybe_broadcast_local_proposal_vote block_crypto 1)
      floats
      (taken old_node [])
      misnumbered
      false
    ≡ ok (BlockAcceptance.accepted, misled)
unfolding accept_block proposer_for_slot validate_transaction_policies validate_hybrid_block_policy
    validate_block_basic apply_block apply_transactions state_root certified_head_only_active
    Map.get maybe_broadcast_local_proposal_vote Set.insert
misnumbered-accepted = refl

misnumbered_unlinked : build_chain_to_tip misled 19 ≡ none
unfolding build_chain_to_tip index_blocks walk_back checked_chain is_linked contains Set.insert
    Map.get Map.insert
misnumbered_unlinked = refl
