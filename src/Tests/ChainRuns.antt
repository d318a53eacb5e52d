-- ===== src/Tests/ChainRuns.antt =====
-- Chains of a node: fork choice, adoption, segments and limits.
use Prim.Native.Nat.Ordering.{eq, gt}
use entangrid.Prelude.{
  ◌⊎◌, ◌↔◌, ◌<◌, ℕ, ◌+◌, ◌≤◌, ◌≡◌, ◌≢◌, refl, List, [], ◌∷◌, some, none, true, ok, arith, suc,
  length, drop,
}
use entangrid.BTree.Key.{nat_key}
use entangrid.BTree.Map
use entangrid.BTree.Set
use entangrid.BTree.Set.{contains}
use entangrid.Types.Records.{Block, StateSnapshot, ChainSegment}
use entangrid.Types.Encoding.{empty_hash}
use entangrid.Ledger.{
  replay_blocks, replay_from, from_genesis, apply_block, seal_block, state_root, apply_transactions,
}
use entangrid.Node.State.{NodeState, all_blocks}
use entangrid.Node.Receipts.{
  import_chain_receipts, import_commitment_receipts, rebuild_seen_receipts, collect,
}
use entangrid.Node.Chains.{build_chain_to_tip, index_blocks, walk_back, checked_chain, is_linked}
use entangrid.Node.Chains.Termination.{build_chain_to_tip-finishes}
use entangrid.Node.Chains.Links.{IsChainTo, build_chain_to_tip-IsChainTo}
use entangrid.Node.Quality.{
  compare_branch_quality, latest_certified_height, branch_quality_with_extra_tip_vote,
  pre_qc_tip_support_quality, branch_weighted_vote_support, votes_for,
}
use entangrid.Node.Quality.Order.{compare_branch_quality_trans}
use entangrid.Node.Adoption.{adopt_canonical_chain, adopt_if_better, maybe_adopt_certified_branch}
use entangrid.Node.Adoption.Keeps.{IsCanonical, IsAttempt, maybe_adopt_certified_branch-IsAttempt}
use entangrid.Node.Segments.{
  build_chain_segment_from_chain, check_overlap, align_overlap, align_chain_segment_to_local_chain,
}
use entangrid.Node.Segments.Aligned.{aligned_cut}
use entangrid.Quorum.{IsNodup}
use entangrid.Node.Limits.Pending.{pending_slots_to_process-exact}
use entangrid.Node.Limits.{pending_slots_to_process, PeerMessageClass, PeerMessageWindow}
use entangrid.Node.Limits.Bound.{AllInside, allowed, allowed_le_limit}
use entangrid.Tests.Fixtures.{crypto, node, certificate, first_block, second_block, block, ledger}

run_chain : build_chain_to_tip node 12 ≡ some (first_block ∷ second_block ∷ [])
unfolding build_chain_to_tip index_blocks walk_back checked_chain is_linked contains Set.insert
    Map.get Map.insert
run_chain = refl

build_chain_to_tip-IsChainTo_example : IsChainTo node 12 (first_block ∷ second_block ∷ [])
build_chain_to_tip-IsChainTo_example = build_chain_to_tip-IsChainTo node 12 run_chain

build_chain_to_tip-finishes_example :
    walk_back
      (index_blocks [] (all_blocks node))
      (suc (length (index_blocks [] (all_blocks node))))
      []
      12
      []
    ≢ none
build_chain_to_tip-finishes_example = build_chain_to_tip-finishes node 12

-- The voted chain is better than the longer one without votes.
run_votes : compare_branch_quality node (first_block ∷ []) (first_block ∷ second_block ∷ []) ≡ gt
unfolding compare_branch_quality latest_certified_height branch_quality_with_extra_tip_vote
    pre_qc_tip_support_quality votes_for Map.get
run_votes = refl

run_length : compare_branch_quality node (first_block ∷ second_block ∷ []) [] ≡ gt
unfolding compare_branch_quality latest_certified_height branch_quality_with_extra_tip_vote
    pre_qc_tip_support_quality votes_for Map.get
run_length = refl

compare_branch_quality_trans_example : compare_branch_quality node (first_block ∷ []) [] ≡ gt
compare_branch_quality_trans_example =
    compare_branch_quality_trans node (first_block ∷ []) (first_block ∷ second_block ∷ []) []
      run_votes run_length

run_tie : compare_branch_quality node (first_block ∷ []) (first_block ∷ []) ≡ eq
unfolding compare_branch_quality latest_certified_height branch_quality_with_extra_tip_vote
    pre_qc_tip_support_quality votes_for Map.get
run_tie = refl

-- A node with a certificate for the second block, before and after it adopts its branch.
abbrev waiting : NodeState
waiting = record node {
  quorum_certificates =
      (12, record certificate { block_hash = 12; block_number = 2; slot = 2 }) ∷ [];
}

abbrev moved : NodeState
moved = record waiting {
  ledger = record ledger { tip_hash = 12; height = 2; last_slot = 2 };
  blocks = first_block ∷ second_block ∷ [];
  orphan_blocks = [];
  seen_blocks = 11 ∷ 12 ∷ [];
}

run_adoption : adopt_canonical_chain crypto waiting (first_block ∷ second_block ∷ []) ≡ ok moved
unfolding adopt_canonical_chain replay_blocks replay_from from_genesis apply_block seal_block
    state_root apply_transactions import_chain_receipts import_commitment_receipts
    rebuild_seen_receipts collect Set.insert
run_adoption = refl

run_certified : maybe_adopt_certified_branch crypto waiting 12 ≡ ok (true, moved)
unfolding maybe_adopt_certified_branch adopt_if_better adopt_canonical_chain compare_branch_quality
    latest_certified_height branch_quality_with_extra_tip_vote branch_weighted_vote_support
    votes_for build_chain_to_tip index_blocks walk_back checked_chain is_linked contains Set.insert
    Map.get Map.insert replay_blocks replay_from from_genesis apply_block seal_block state_root
    apply_transactions import_chain_receipts import_commitment_receipts rebuild_seen_receipts
    collect
run_certified = refl

waiting-IsCanonical : IsCanonical crypto waiting
unfolding replay_blocks replay_from from_genesis apply_block seal_block state_root
    apply_transactions
waiting-IsCanonical = record { linked = (refl, refl, tt); replayed = refl }

twelve : second_block.block_hash ≢ empty_hash
twelve = λ e. omega arith

maybe_adopt_certified_branch-IsAttempt_example : IsAttempt crypto waiting 12 true moved
maybe_adopt_certified_branch-IsAttempt_example =
    maybe_adopt_certified_branch-IsAttempt crypto waiting 12 twelve run_certified

abbrev third_block : Block
third_block = block 3 12 13 []

abbrev long_chain : List Block
long_chain = first_block ∷ second_block ∷ third_block ∷ []

abbrev local_snapshot : StateSnapshot
local_snapshot = record ledger { tip_hash = 12; height = 2; last_slot = 2 }

abbrev segment : ChainSegment
segment = record {
  base_height = 1;
  base_tip_hash = 11;
  target_snapshot = ledger;
  blocks = second_block ∷ third_block ∷ [];
  receipts = [];
  proposal_votes = [];
}

abbrev aligned_segment : ChainSegment
aligned_segment = record segment { base_height = 2; base_tip_hash = 12; blocks = third_block ∷ [] }

run_segment : build_chain_segment_from_chain ledger long_chain [] 4 1 11 64 ≡ some segment
unfolding build_chain_segment_from_chain
run_segment = refl

run_alignment :
    align_chain_segment_to_local_chain (first_block ∷ second_block ∷ []) local_snapshot segment
    ≡ ok aligned_segment
unfolding align_chain_segment_to_local_chain align_overlap check_overlap
run_alignment = refl

aligned_cut_example : aligned_segment.blocks ≡ drop 2 long_chain
aligned_cut_example =
    aligned_cut ledger long_chain (first_block ∷ second_block ∷ []) [] 4 1 11 64 local_snapshot
      run_segment run_alignment

abbrev window : PeerMessageWindow
window = record {
  started_at_unix_millis = 1000;
  sync_control_messages = 3;
  transaction_gossip_messages = 0;
  receipt_gossip_messages = 0;
}

abbrev messages : List (PeerMessageClass × ℕ)
messages = (PeerMessageClass.sync_control, 1500) ∷ (PeerMessageClass.receipt_gossip, 1600) ∷ []

inside : AllInside window messages
inside = (((λ e. omega arith), omega arith), (((λ e. omega arith), omega arith), tt))

allowed_le_limit_example : 3 + allowed window PeerMessageClass.sync_control messages ≤ 24
allowed_le_limit_example =
    allowed_le_limit window PeerMessageClass.sync_control messages inside (omega arith)

pending_slots_to_process-exact_example :
    ((contains (pending_slots_to_process (some 4) 9) 7 ≡ true)
      ↔ (◌≡◌ {A = ℕ} 7 9 ⊎ ((4 < 7) × (7 < 9))))
    × IsNodup (pending_slots_to_process (some 4) 9)
pending_slots_to_process-exact_example = pending_slots_to_process-exact 4 9 7
