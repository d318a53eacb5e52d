-- ===== src/Node/Chains.antt =====
-- `build_chain_to_tip`: the blocks from the first one to a tip, and `branch_relation`.
pub mod Termination
pub mod Links
use entangrid.Prelude.{
  ℕ, zero, suc, ◌+◌, List, [], ◌∷◌, Option, none, some, Bool, true, false, ◌||◌, ◌&&◌, any, ◌==◌,
  if◌then◌else◌, length, add_u64, not,
}
use entangrid.BTree.Key.{nat_key}
use entangrid.BTree.Map
use entangrid.BTree.Map.{BTreeMap}
use entangrid.BTree.Set
use entangrid.BTree.Set.{BTreeSet, contains}
use entangrid.Types.Records.{HashBytes, Block}
use entangrid.Types.Encoding.{empty_hash}
use entangrid.Node.State.{NodeState, all_blocks}

-- The blocks by their hash; a later block takes the place of an earlier one.
unfoldable pub index_blocks : BTreeMap HashBytes Block → List Block → BTreeMap HashBytes Block
index_blocks by_hash [] = by_hash
index_blocks by_hash (block ∷ rest) = index_blocks (Map.insert by_hash block.block_hash block) rest

-- The loop from the tip back to the empty hash; `chain` is what it has found, the first block
-- first, as the source has it after `reverse`. The outer `none` is an end of the fuel, the inner
-- one the source's `None`.
unfoldable pub walk_back :
    BTreeMap HashBytes Block
    → ℕ
    → BTreeSet HashBytes
    → HashBytes
    → List Block
    → Option (Option (List Block))
walk_back by_hash zero visited current_hash chain = none
walk_back by_hash (suc fuel) visited current_hash chain =
    let found = Map.get by_hash current_hash in
    let next : Option (Option (List Block)) = elim found [
      | none ↦ some none
      | some block ↦
          walk_back by_hash fuel (Set.insert visited current_hash) block.header.parent_hash
            (block ∷ chain)
    ] in
    if current_hash == empty_hash
    then some (some chain)
    else if contains visited current_hash
    then some none
    else next

-- Each block names the one before it as its parent, and the numbers count up.
unfoldable pub is_linked : HashBytes → ℕ → List Block → Bool
is_linked expected_parent expected_height [] = true
is_linked expected_parent expected_height (block ∷ rest) =
    let next = is_linked block.block_hash (add_u64 expected_height 1) rest in
    if not (block.header.parent_hash == expected_parent)
      || not (block.header.block_number == expected_height)
    then false
    else next

-- The end of `build_chain_to_tip`, after the loop.
unfoldable pub checked_chain : Option (Option (List Block)) → Option (List Block)
checked_chain (some (some chain)) = if is_linked empty_hash 1 chain then some chain else none
checked_chain _ = none

-- One round for each known block, and one for the empty hash.
unfoldable pub build_chain_to_tip : NodeState → HashBytes → Option (List Block)
unfolding index_blocks walk_back checked_chain is_linked
build_chain_to_tip s tip_hash =
    let by_hash = index_blocks [] (all_blocks s) in
    checked_chain (walk_back by_hash (suc (length by_hash)) [] tip_hash [])

unfoldable pub build_parent_chain_for_block : NodeState → Block → Option (List Block)
unfolding build_chain_to_tip
build_parent_chain_for_block s block =
    if (block.header.block_number == 1) && (block.header.parent_hash == empty_hash)
    then some []
    else build_chain_to_tip s block.header.parent_hash

pub data BranchRelation : Type 0 where
  same_chain incompatible unknown : BranchRelation

abbrev pub has_block : HashBytes → List Block → Bool
has_block hash chain = any (λ b. b.block_hash == hash) chain

-- The `match` of `branch_relation` on the two chains.
unfoldable pub relate_chains :
    HashBytes → HashBytes → Option (List Block) → Option (List Block) → BranchRelation
relate_chains left_hash right_hash (some left_chain) (some right_chain) =
    if has_block left_hash right_chain || has_block right_hash left_chain
    then BranchRelation.same_chain
    else BranchRelation.incompatible
relate_chains left_hash right_hash _ _ = BranchRelation.unknown

unfoldable pub branch_relation : NodeState → HashBytes → HashBytes → BranchRelation
unfolding build_chain_to_tip relate_chains
branch_relation s left_hash right_hash =
    if left_hash == right_hash
    then BranchRelation.same_chain
    else relate_chains left_hash right_hash (build_chain_to_tip s left_hash)
        (build_chain_to_tip s right_hash)

abbrev pub is_same_chain : BranchRelation → Bool
is_same_chain BranchRelation.same_chain = true
is_same_chain _ = false

unfoldable pub proposal_vote_branches_are_compatible : NodeState → HashBytes → HashBytes → Bool
unfolding branch_relation
proposal_vote_branches_are_compatible s existing_hash candidate_hash =
    is_same_chain (branch_relation s existing_hash candidate_hash)
