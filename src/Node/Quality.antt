-- ===== src/Node/Quality.antt =====
-- `compare_branch_quality`: which of two chains a node prefers.
pub mod Order
use entangrid.Prelude.{
  ℕ, ◌+◌, List, [], ◌∷◌, Option, none, some, Bool, true, false, ◌&&◌, not, Ordering, compare, ltb,
  ◌==◌, if◌then◌else◌, length, last, find, reverse, map_option, unwrap_or, option_eq, add_u64,
  saturating_mul,
}
use Prim.Native.Nat.Ordering.{lt, eq, gt}
use entangrid.BTree.Key.{nat_key, then_with, compare_bytes}
use entangrid.BTree.Map
use entangrid.BTree.Map.{BTreeMap}
use entangrid.Types.Records.{HashBytes, Block}
use entangrid.Types.Encoding.{empty_hash}
use entangrid.Node.State.{NodeState, is_certified}

abbrev pub latest_certified_block : NodeState → List Block → Option Block
latest_certified_block s chain = find (is_certified s) (reverse chain)

unfoldable pub latest_certified_height : NodeState → List Block → ℕ
latest_certified_height s chain =
    unwrap_or (map_option (λ b. b.header.block_number) (latest_certified_block s chain)) 0

-- The votes that the node counts for a block, with the local vote that it would get.
unfoldable pub votes_for : NodeState → Option HashBytes → Block → ℕ
votes_for s extra_tip_vote_for block =
    let votes = Map.get s.proposal_votes block.block_hash in
    let existing = unwrap_or (map_option (λ m. length m) votes) 0 in
    let voted = unwrap_or (map_option (λ m. Map.contains_key m s.validator_id) votes) false in
    if option_eq extra_tip_vote_for (some block.block_hash) && not voted
    then existing + 1
    else existing

unfoldable pub branch_weighted_vote_support : NodeState → List Block → Option HashBytes → ℕ
unfolding votes_for
branch_weighted_vote_support s [] extra = 0
branch_weighted_vote_support s (block ∷ rest) extra =
    add_u64 (saturating_mul block.header.block_number (votes_for s extra block))
      (branch_weighted_vote_support s rest extra)

-- The tuple that branches are compared by.
abbrev pub Quality : Type 0
Quality = ℕ × ℕ × ℕ × ℕ × ℕ × HashBytes

unfoldable pub pre_qc_tip_support_quality : ℕ → ℕ → ℕ → HashBytes → Quality
pre_qc_tip_support_quality tip_vote_count tip_height tip_slot tip_hash =
    (0, saturating_mul tip_vote_count tip_height, tip_height, tip_vote_count, tip_slot, tip_hash)

unfoldable pub branch_quality_with_extra_tip_vote :
    NodeState → List Block → Option HashBytes → Quality
unfolding pre_qc_tip_support_quality branch_weighted_vote_support latest_certified_height
branch_quality_with_extra_tip_vote s chain extra =
    let tip = last chain in
    let certified = latest_certified_height s chain in
    let tip_height = unwrap_or (map_option (λ b. b.header.block_number) tip) 0 in
    let tip_slot = unwrap_or (map_option (λ b. b.header.slot) tip) 0 in
    let tip_hash = unwrap_or (map_option (λ b. b.block_hash) tip) empty_hash in
    let tip_vote_count = unwrap_or (map_option (votes_for s extra) tip) 0 in
    if certified == 0
    then pre_qc_tip_support_quality tip_vote_count tip_height tip_slot tip_hash
    else (
      certified,
      branch_weighted_vote_support s chain extra,
      tip_height,
      tip_vote_count,
      tip_slot,
      tip_hash,
    )

-- `cmp` of the tuples, component by component.
abbrev pub compare_quality : Quality → Quality → Ordering
compare_quality a b = then_with (compare a.0 b.0) (
    then_with (compare a.1 b.1) (
      then_with (compare a.2 b.2)
        (then_with (compare a.3 b.3) (then_with (compare a.4 b.4) (compare a.5 b.5)))))

-- `false < true`
abbrev pub bool_number : Bool → ℕ
bool_number true = 1
bool_number false = 0

abbrev pub tip_certified : NodeState → List Block → Bool
tip_certified s chain = unwrap_or (map_option (is_certified s) (last chain)) false

abbrev pub certified_hash : NodeState → List Block → HashBytes
certified_hash s chain =
    unwrap_or (map_option (λ b. b.block_hash) (latest_certified_block s chain)) empty_hash

-- Each early return on a difference is a `then_with`.
unfoldable pub compare_branch_quality : NodeState → List Block → List Block → Ordering
unfolding latest_certified_height
compare_branch_quality s candidate current =
    let candidate_quality = branch_quality_with_extra_tip_vote s candidate none in
    let current_quality = branch_quality_with_extra_tip_vote s current none in
    let by_quality = compare_quality candidate_quality current_quality in
    then_with (compare (latest_certified_height s candidate) (latest_certified_height s current)) (
      if ltb 0 (latest_certified_height s candidate)
      then then_with
          (compare (bool_number (tip_certified s candidate))
            (bool_number (tip_certified s current)))
          (then_with (compare (certified_hash s candidate) (certified_hash s current)) by_quality)
      else by_quality)

abbrev pub is_greater : Ordering → Bool
is_greater gt = true
is_greater _ = false
