-- ===== src/Node/Acceptance/Orphans/Stuck.antt =====
-- Where `try_promote_orphans` does not end.
use entangrid.Prelude.{
  ℕ, zero, suc, List, [], ◌∷◌, ◌++◌, none, some, Bool, true, false, ◌==◌, ◌≡◌, refl, ◌∙◌, arith, ok,
  Bool-cases, inl, inr, is_some, find, ap, ==_iff,
}
use entangrid.BTree.Key.{nat_key}
use entangrid.BTree.Map
use entangrid.Types.Records.{HashBytes, Block}
use entangrid.Types.Encoding.{Crypto}
use entangrid.Types.Floats.{Floats}
use entangrid.Ledger.{apply_block}
use entangrid.Node.State.{
  NodeState, LocalVote, or_else, known_block, certified_head_only_active, current_certified_head,
  is_child_of,
}
use entangrid.Node.Chains.{has_block}
use entangrid.Node.BlockChecks.{check_block, check_proposal}
use entangrid.Node.Acceptance.{BlockAcceptance, accept_block, buffer_orphan}
use entangrid.Node.Acceptance.Branches.{accept_block-on_top, accept_uncertified-descendant}
use entangrid.Node.Acceptance.Known.{is_some-find, is_some-or_else}
use entangrid.Node.Acceptance.Orphans.{take_child, promote_orphan, try_promote_orphans}

take_child-last :
    (tip : HashBytes) (rest : List Block) (block : Block)
    → take_child tip rest ≡ none
    → block.header.parent_hash ≡ tip
    → take_child tip (rest ++ block ∷ []) ≡ some (block, rest)
unfolding take_child
take_child-last tip [] block none_before child =
    let at_tip = (==_iff block.header.parent_hash tip).1 child in rw at_tip refl
take_child-last tip (x ∷ xs) block none_before child =
    elim (Bool-cases (x.header.parent_hash == tip)) [
      | inl here ↦ absurd (ground arith)
      | inr there ↦
          let before : take_child tip xs ≡ none = ground arith in
          rw (there, take_child-last tip xs block before child) refl
    ]

-- The state with the other orphans only.
abbrev pub taken : NodeState → List Block → NodeState
taken s rest = record s { orphan_blocks = rest }

module _ (c : Crypto) (local_vote : LocalVote) (f : Floats) (s : NodeState) (rest : List Block)
    (block : Block) where
  buffered_again :
      s.orphan_blocks ≡ rest ++ block ∷ []
      → has_block block.block_hash rest ≡ false
      → buffer_orphan (taken s rest) block ≡ s
  unfolding buffer_orphan
  buffered_again orphans fresh = rw (fresh, ← orphans) refl

  fresh_of_unknown :
      known_block (taken s rest) block.block_hash ≡ none → has_block block.block_hash rest ≡ false
  unfolding known_block
  fresh_of_unknown unknown =
      let p : Block → Bool = λ b. b.block_hash == block.block_hash in
      let pending = s.pending_certified_children in
      ground (
        arith,
        is_some-or_else (find p s.blocks) (or_else (find p pending) (find p rest)),
        is_some-or_else (find p pending) (find p rest),
        is_some-find p rest,
        ap (λ o. is_some o) unknown,
      )

  module _ {head : HashBytes × ℕ} (unknown : known_block (taken s rest) block.block_hash ≡ none)
      (child : block.header.parent_hash ≡ s.ledger.tip_hash)
      (checked : check_block f c (taken s rest) block ≡ ok tt)
      (proposed : check_proposal f c (taken s rest) block false ≡ ok tt)
      (applied : (apply_block c s.ledger block).0 ≡ ok tt)
      (active : certified_head_only_active (taken s rest) ≡ true)
      (uncertified : Map.contains_key s.quorum_certificates block.block_hash ≡ false)
      (is_head : current_certified_head (taken s rest) ≡ some head)
      (not_child : is_child_of head block ≡ false) where
    accept_block-buffers :
        accept_block c local_vote f (taken s rest) block false
        ≡ ok (BlockAcceptance.orphan, buffer_orphan (taken s rest) block)
    accept_block-buffers =
        accept_block-on_top c local_vote f (taken s rest) block false unknown checked child proposed
          applied
        ∙ (rw (active, uncertified)
            (accept_uncertified-descendant c local_vote (taken s rest) block is_head not_child))

    -- The promotion of the orphan leaves the state that it began with.
    round :
        s.orphan_blocks ≡ rest ++ block ∷ []
        → promote_orphan c local_vote f (taken s rest) block ≡ some s
    unfolding promote_orphan
    round orphans =
        rw (accept_block-buffers, promote_orphan)
          (ap (λ t. some t) (buffered_again orphans (fresh_of_unknown unknown)))

    -- While only a certificate may move the chain, let the one orphan that extends the tip pass
    -- all checks, have no certificate, and not be a child of the certified head. Then
    -- `try_promote_orphans` takes the orphan and puts it back in every round: no number of rounds
    -- is enough.
    pub try_promote_orphans-stuck :
        s.orphan_blocks ≡ rest ++ block ∷ []
        → take_child s.ledger.tip_hash rest ≡ none
        → (rounds : ℕ) → try_promote_orphans c local_vote f rounds s ≡ none
    unfolding try_promote_orphans
    try_promote_orphans-stuck orphans others zero = refl
    try_promote_orphans-stuck orphans others (suc rounds) =
        rw
          (
            try_promote_orphans,
            orphans,
            take_child-last s.ledger.tip_hash rest block others child,
            round orphans,
          )
          (try_promote_orphans-stuck orphans others rounds)
