-- ===== src/Node/Acceptance/Orphans.antt =====
-- `try_promote_orphans`: the blocks that wait for the tip. The fuel bounds the rounds of its loop;
-- the answer `none` is an end of the fuel.
pub mod Stuck
pub mod Ends
use entangrid.Prelude.{
  ℕ, zero, suc, List, [], ◌∷◌, Option, none, some, Bool, true, false, ◌==◌, map_option, and_then,
  ok, err, if◌then◌else◌,
}
use entangrid.Types.Records.{HashBytes, Block}
use entangrid.Types.Encoding.{Crypto}
use entangrid.Types.Floats.{Floats}
use entangrid.Node.State.{NodeState, Fault, LocalVote}
use entangrid.Node.Acceptance.{BlockAcceptance, accept_block}

-- `position` and `remove`: the first orphan whose parent is the tip, and the others.
unfoldable pub take_child : HashBytes → List Block → Option (Block × List Block)
take_child tip_hash [] = none
take_child tip_hash (block ∷ rest) =
    let later = take_child tip_hash rest in
    if block.header.parent_hash == tip_hash
    then some (block, rest)
    else map_option (λ found. (found.0, block ∷ found.1)) later

module _ (c : Crypto) (local_vote : LocalVote) (f : Floats) where
  -- One promotion: a rejected orphan is dropped, and what its checks changed stays.
  unfoldable pub promote_orphan : NodeState → Block → Option NodeState
  unfolding accept_block
  promote_orphan s orphan = elim (accept_block c local_vote f s orphan false) [
    | ok (_, s') ↦ some s'
    | err (Fault.refused _ s') ↦ some s'
    | err Fault.out_of_fuel ↦ none
  ]

  unfoldable pub try_promote_orphans : ℕ → NodeState → Option NodeState
  unfolding take_child promote_orphan
  try_promote_orphans zero s = none
  try_promote_orphans (suc fuel) s = elim (take_child s.ledger.tip_hash s.orphan_blocks) [
    | none ↦ some s
    | some (orphan, rest) ↦
        and_then (promote_orphan (record s { orphan_blocks = rest }) orphan)
          (try_promote_orphans fuel)
  ]
