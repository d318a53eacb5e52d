-- ===== src/Node/Adoption.antt =====
-- `adopt_canonical_chain` and the decisions that lead to it. `local_vote` casts the node's own
-- vote after an adoption. The files and the log are not part of the state.
pub mod Keeps
pub mod Kept
pub mod Failed
use Prim.Native.Nat.Ordering.{gt}
use entangrid.Prelude.{
  map, ◌||◌, ℕ, List, [], ◌∷◌, ◌++◌, Option, none, some, Bool, true, false, not, ◌&&◌, filter, any,
  is_empty, last, map_option, option_eq, Result, ok, err, ◌>>=◌, ◌>>◌, and_then, if◌then◌else◌,
  ◌==◌, ltb, leb, length, drop, is_some, get_elem?,
}
use entangrid.Types.Records.{HashBytes, Block}
use entangrid.Types.Encoding.{Crypto}
use entangrid.Ledger.{replay_blocks, LedgerState, apply_block, balance_of}
use entangrid.Node.State.{
  NodeState, Outcome, at, LocalVote, highest_local_qc, highest_locked_qc_hash,
  certified_head_only_active, current_certified_head, known_uncertified_children_for_certified_head,
  best_known_uncertified_child_for_certified_head,
}
use entangrid.Node.Chains.{build_chain_to_tip, build_parent_chain_for_block, has_block}
use entangrid.BTree.Key.{nat_key}
use entangrid.Node.Receipts.{rebuild_seen_receipts, import_chain_receipts, collect}
use entangrid.Node.Quality.{compare_branch_quality, is_greater}

-- The hashes of the blocks' transactions.
abbrev pub transaction_hashes : List Block → List HashBytes
transaction_hashes [] = []
transaction_hashes (block ∷ blocks) =
    map (λ tx. tx.tx_hash) block.transactions ++ transaction_hashes blocks

unfoldable pub adopt_canonical_chain : Crypto → NodeState → List Block → Result NodeState
adopt_canonical_chain c s candidate_chain = do
  ledger ← replay_blocks c s.genesis candidate_chain
  ok (record s {
    ledger = ledger;
    blocks = candidate_chain;
    orphan_blocks =
        filter (λ b. not (has_block b.block_hash candidate_chain))
          (s.blocks ++ (s.orphan_blocks ++ s.pending_certified_children));
    pending_certified_children = [];
    receipt_book = rebuild_seen_receipts c (import_chain_receipts c s.receipt_book candidate_chain);
    seen_blocks = collect (map (λ b. b.block_hash) candidate_chain) [];
    seen_transactions = collect (transaction_hashes candidate_chain) s.seen_transactions;
  })

abbrev pub tip_hash : List Block → Option HashBytes
tip_hash blocks = map_option (λ b. b.block_hash) (last blocks)

-- Adopts the chain if it is better than the current one.
unfoldable pub adopt_if_better : Crypto → NodeState → List Block → Result (Bool × NodeState)
adopt_if_better c s chain =
    if not (is_greater (compare_branch_quality s chain s.blocks))
    then ok (false, s)
    else do s' ← adopt_canonical_chain c s chain; ok (true, s')

unfoldable pub maybe_adopt_certified_branch :
    Crypto → NodeState → HashBytes → Result (Bool × NodeState)
maybe_adopt_certified_branch c s candidate_tip_hash =
    elim (build_chain_to_tip s candidate_tip_hash) [
      | none ↦ ok (false, s)
      | some chain ↦
          if is_empty chain
          then ok (false, s)
          else if not (option_eq (tip_hash s.blocks) (some candidate_tip_hash))
              && has_block candidate_tip_hash s.blocks
          then ok (false, s)
          else adopt_if_better c s chain
    ]

-- Whether a chain keeps the locked certificate, if there is one.
abbrev pub respects_lock : Option HashBytes → List Block → Bool
respects_lock none chain = true
respects_lock (some locked) chain = has_block locked chain

-- `maybe_broadcast_local_vote_for_current_pre_qc_tip`
unfoldable pub vote_for_current_pre_qc_tip : LocalVote → NodeState → Outcome NodeState
unfolding highest_local_qc
vote_for_current_pre_qc_tip local_vote s =
    if not s.consensus_v2 || is_some (highest_local_qc s)
    then ok s
    else elim (last s.blocks) [ none ↦ ok s | some tip ↦ local_vote s tip ]

-- The vote that follows an adoption.
unfoldable pub vote_if_adopted : LocalVote → Bool × NodeState → Outcome (Bool × NodeState)
unfolding vote_for_current_pre_qc_tip
vote_if_adopted local_vote (false, s) = ok (false, s)
vote_if_adopted local_vote (true, s) = do
  voted ← vote_for_current_pre_qc_tip local_vote s
  ok (true, voted)

-- `maybe_adopt_vote_supported_branch`
unfoldable pub adopt_vote_supported_branch :
    Crypto → LocalVote → NodeState → HashBytes → Outcome (Bool × NodeState)
unfolding adopt_if_better vote_if_adopted at
adopt_vote_supported_branch c local_vote s candidate_tip_hash =
    if not s.consensus_v2
    then ok (false, s)
    else if certified_head_only_active s
    then ok (false, s)
    else elim (build_chain_to_tip s candidate_tip_hash) [
      | none ↦ ok (false, s)
      | some chain ↦
          if not (respects_lock (highest_locked_qc_hash s) chain)
          then ok (false, s)
          else at s (adopt_if_better c s chain) >>= vote_if_adopted local_vote
    ]

-- `maybe_adopt_preferred_competing_branch`
unfoldable pub adopt_preferred_competing_branch :
    Crypto → LocalVote → NodeState → Block → Outcome (Bool × NodeState)
unfolding adopt_if_better vote_if_adopted at
adopt_preferred_competing_branch c local_vote s block =
    if not s.consensus_v2
    then ok (false, s)
    else if certified_head_only_active s
    then ok (false, s)
    else elim (build_parent_chain_for_block s block) [
      | none ↦ ok (false, s)
      | some parents ↦
          if not (respects_lock (highest_locked_qc_hash s) parents) then ok (false, s) else do
            ledger ← at s (replay_blocks c s.genesis parents)
            at s (apply_block c ledger block).0
            at s (adopt_if_better c s (parents ++ block ∷ [])) >>= vote_if_adopted local_vote
    ]

-- The blocks after the first one with the hash, if there is one: `position` and `get(index + 1)`.
after_hash : HashBytes → List Block → Option (List Block)
after_hash hash [] = none
after_hash hash (block ∷ rest) =
    let later = after_hash hash rest in if block.block_hash == hash then some rest else later

unfoldable pub current_uncertified_child_for_certified_head : NodeState → Option Block
unfolding after_hash current_certified_head
current_uncertified_child_for_certified_head s = and_then (current_certified_head s) λ head.
    and_then (last s.blocks) λ tip.
      if tip.block_hash == head.0
      then none
      else and_then (build_chain_to_tip s tip.block_hash)
          λ chain. and_then (after_hash head.0 chain) λ rest. get_elem? rest 0

-- The `match` on the current child: whether the best child may replace it.
unfoldable pub child_may_change : Option Block → Block → List Block → Bool
child_may_change (some current) best children =
    not (best.block_hash == current.block_hash) && ltb current.header.slot best.header.slot
child_may_change none best children = leb 2 (length children)

-- `maybe_adopt_better_uncertified_child_for_certified_head`
unfoldable pub adopt_better_uncertified_child :
    Crypto → LocalVote → NodeState → Outcome (Bool × NodeState)
unfolding child_may_change adopt_canonical_chain at
adopt_better_uncertified_child c local_vote s =
    let children = known_uncertified_children_for_certified_head s in
    if is_empty children
    then ok (false, s)
    else elim (best_known_uncertified_child_for_certified_head s) [
      | none ↦ ok (false, s)
      | some best ↦
          if not (child_may_change (current_uncertified_child_for_certified_head s) best children)
          then ok (false, s)
          else elim (build_chain_to_tip s best.block_hash) [
            | none ↦ ok (false, s)
            | some chain ↦ do
              adopted ← at s (adopt_canonical_chain c s chain)
              voted ← local_vote adopted best
              ok (true, voted)
          ]
    ]
