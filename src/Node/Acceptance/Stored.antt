-- ===== src/Node/Acceptance/Stored.antt =====
-- `accept_block` on all its branches: the chain stays replayed, and the block is known afterwards.
use entangrid.Prelude.{
  ℕ, Bool, true, not, ◌&&◌, ◌==◌, ◌≡◌, inl, inr, arith, ok, ◌>>=◌, ◌>>◌, >>=-eq-ok, >>-eq-ok,
  Bool-cases, Option-cases, ok-injective, is_some, if◌then◌else◌, ap,
}
use entangrid.BTree.Key.{nat_key}
use entangrid.BTree.Map
use entangrid.BTree.Map.{values}
use entangrid.Types.Records.{Block}
use entangrid.Types.Encoding.{Crypto}
use entangrid.Types.Floats.{Floats}
use entangrid.Ledger.{apply_block}
use entangrid.Node.State.{
  NodeState, Outcome, at, LocalVote, all_blocks, known_block, current_certified_head, is_child_of,
  is_direct_child_of_current_certified_head, certified_head_only_active,
}
use entangrid.Node.State.Recovery.{recovery_sync_only_active}
use entangrid.Node.State.Outcomes.{at-ok, at-eq-ok}
use entangrid.Node.Chains.{has_block}
use entangrid.Node.Adoption.{adopt_better_uncertified_child}
use entangrid.Node.Adoption.Kept.{Keeps, Fails}
use entangrid.Node.Finality.{maybe_finalize_quorum_certificate}
use entangrid.Node.BlockChecks.{check_block, check_proposal}
use entangrid.Node.Acceptance.{
  BlockAcceptance, buffer_orphan, buffer_pending, append_block,
  import_buffered_proposal_votes_for_block, support_pending_child, settle_unless_tip,
  accept_beside_tip, accept_uncertified, extend_tip, accept_block, remove_transactions, is_tip,
  accepted_if, is_preferred,
}
use entangrid.Node.Acceptance.Steps.{
  IsStep, IsStep-self, IsStep-trans, buffer_orphan-IsStep, buffer_pending-IsStep,
  append_block-IsStep,
}
use entangrid.Node.Acceptance.Known.{and-left, known_block-has_block, head_of_certified_only}
use entangrid.Node.Acceptance.Kept.{
  buffered-IsStep, voted-IsStep, finalized-IsStep, moved-IsStep, settle_competing-IsStep,
  unless_tip-IsStep,
}
use entangrid.Node.Voting.{maybe_broadcast_local_proposal_vote}
use entangrid.Node.Voting.Kept.{local_vote-IsKept, local_vote-Fails}

module _ (c : Crypto) where
  -- A step after which the block is known.
  pub record IsStored (s s' : NodeState) (block : Block) : Type 0 where
    pub step : IsStep c s s'
    pub stored : has_block block.block_hash (all_blocks s') ≡ true

  IsStored-then :
      {s t u : NodeState} (block : Block)
      → IsStep c s t × (has_block block.block_hash (all_blocks t) ≡ true)
      → IsStep c t u
      → IsStored s u block
  IsStored-then block (p, k) q = record {
    step = IsStep-trans c p q;
    stored = q.known block.block_hash k;
  }

  module _ (local_vote : LocalVote) (keeps : Keeps c local_vote) (fails : Fails c local_vote) where
    beside-IsStored :
        (s : NodeState) (block : Block) {a : BlockAcceptance} {s' : NodeState}
        → accept_beside_tip c local_vote s block ≡ ok (a, s')
        → IsStored s s' block
    unfolding accept_beside_tip
    beside-IsStored s block {a} {s'} h =
        let (buffered, there) = buffer_orphan-IsStep c s block in
        let (t, votes, h0) =
          >>=-eq-ok
            (import_buffered_proposal_votes_for_block c local_vote (buffer_orphan s block) block) _
            h in
        let imported =
          buffered-IsStep c local_vote keeps fails (buffer_orphan s block) block votes in
        elim (Bool-cases (is_direct_child_of_current_certified_head s block)) [
          | inr competing ↦
              IsStored-then block (buffered, there)
                (IsStep-trans c imported
                  (settle_competing-IsStep c local_vote keeps fails t block (rw competing at h0)))
          | inl direct ↦
              let adoption = adopt_better_uncertified_child c local_vote t in
              let h1 : (adoption >>= settle_unless_tip c local_vote block) ≡ ok (a, s') =
                rw direct at h0 in
              let ((b, u), adopted, h2) =
                >>=-eq-ok adoption (settle_unless_tip c local_vote block) h1 in
              IsStored-then block (buffered, there)
                (IsStep-trans c imported (
                  IsStep-trans c (moved-IsStep c local_vote keeps fails t adopted)
                    (unless_tip-IsStep c local_vote keeps fails block b u h2)))
        ]

    supported-IsStep :
        (s : NodeState) (block : Block) {s' : NodeState}
        → support_pending_child c local_vote s block ≡ ok s'
        → IsStep c s s'
    unfolding support_pending_child
    supported-IsStep s block {s'} h =
        let (t, votes, h0) =
          >>=-eq-ok (import_buffered_proposal_votes_for_block c local_vote s block) _ h in
        let imported = buffered-IsStep c local_vote keeps fails s block votes in
        let (u, voted, h1) =
          >>=-eq-ok (if is_preferred t block then local_vote t block else ok t) _ h0 in
        let ((_, v), finalized, h2) =
          >>=-eq-ok (maybe_finalize_quorum_certificate c local_vote u block.block_hash) _ h1 in
        let same : s' ≡ v = ground arith in
        let vote_step : IsStep c t u = elim (Bool-cases (is_preferred t block)) [
          | inl go ↦ voted-IsStep c local_vote keeps fails t block (rw go at voted)
          | inr stop ↦ let still : u ≡ t = ground arith in rw still (IsStep-self c t)
        ] in
        rw same (
          IsStep-trans c imported (
            IsStep-trans c vote_step
              (finalized-IsStep c local_vote keeps fails u block.block_hash finalized)))

    uncertified-IsStored :
        (s : NodeState) (block : Block) {a : BlockAcceptance} {s' : NodeState}
        → certified_head_only_active s ≡ true
        → accept_uncertified c local_vote s block ≡ ok (a, s')
        → IsStored s s' block
    unfolding accept_uncertified
    uncertified-IsStored s block {a} {s'} active h =
        elim (Option-cases (current_certified_head s)) [
          | inl no_head ↦ absurd (head_of_certified_only s active no_head)
          | inr (head, is_head) ↦ elim (Bool-cases (is_child_of head block)) [
            | inr descendant ↦
                let same : s' ≡ buffer_orphan s block = ground arith in
                rw same (IsStored-then block (buffer_orphan-IsStep c s block) (IsStep-self c _))
            | inl child ↦
                let t = buffer_pending s block in
                let (buffered, there) = buffer_pending-IsStep c s block in
                let support =
                  (if recovery_sync_only_active t
                    then ok t
                    else support_pending_child c local_vote t block) in
                let move : NodeState → Outcome (BlockAcceptance × NodeState) = λ u.
                  (adopt_better_uncertified_child c local_vote u >>= λ r.
                  ok (accepted_if (is_tip r.1 block), r.1)) in
                let h1 : (support >>= move) ≡ ok (a, s') = ground arith in
                let (u, supported, h2) = >>=-eq-ok support move h1 in
                let ((_, v), adopted, h3) =
                  >>=-eq-ok (adopt_better_uncertified_child c local_vote u) _ h2 in
                let same : s' ≡ v = ground arith in
                let support_step : IsStep c t u = elim (Bool-cases (recovery_sync_only_active t)) [
                  | inl recovery ↦ let still : u ≡ t = ground arith in rw still (IsStep-self c t)
                  | inr live ↦ supported-IsStep t block (ground arith)
                ] in
                rw same (
                  IsStored-then block (buffered, there)
                    (IsStep-trans c support_step (moved-IsStep c local_vote keeps fails u adopted)))
          ]
        ]

    extended-IsStored :
        (s : NodeState) (block : Block) {a : BlockAcceptance} {s' : NodeState}
        → (apply_block c s.ledger block).0 ≡ ok tt
        → extend_tip c local_vote s (apply_block c s.ledger block).1 block ≡ ok (a, s')
        → IsStored s s' block
    unfolding extend_tip
    extended-IsStored s block {a} {s'} applied h =
        let t = append_block c s (apply_block c s.ledger block).1 block in
        let (u, votes, h0) =
          >>=-eq-ok (import_buffered_proposal_votes_for_block c local_vote t block) _ h in
        let imported = buffered-IsStep c local_vote keeps fails t block votes in
        let ((_, v), finalized, h1) =
          >>=-eq-ok (maybe_finalize_quorum_certificate c local_vote u block.block_hash) _ h0 in
        let w : NodeState = record v {
          mempool = remove_transactions v.mempool block.transactions;
        } in
        let (x, voted, h2) = >>=-eq-ok (local_vote w block) _ h1 in
        let same : s' ≡ x = ground arith in
        let cleared : IsStep c v w = record { replayed = λ p. p; known = λ hash k. k } in
        rw same (
          IsStored-then block (append_block-IsStep c s block applied) (
            IsStep-trans c imported (
              IsStep-trans c
                (finalized-IsStep c local_vote keeps fails u block.block_hash finalized)
                (IsStep-trans c cleared (voted-IsStep c local_vote keeps fails w block voted)))))

    block-IsStored :
        (f : Floats) (s : NodeState) (block : Block) (local_proposal : Bool) {a : BlockAcceptance}
        {s' : NodeState}
        → accept_block c local_vote f s block local_proposal ≡ ok (a, s')
        → IsStored s s' block
    unfolding accept_block
    block-IsStored f s block local_proposal {a} {s'} h =
        elim (Bool-cases (is_some (known_block s block.block_hash))) [
          | inl known ↦
              let e = ok-injective (rw (known, accept_block) at h) in
              rw (← ap (λ r. r.1) e) (record {
                step = IsStep-self c s;
                stored = known_block-has_block s block.block_hash known;
              })
          | inr unknown ↦
              let (_, checked, h1) =
                at-eq-ok s (check_block f c s block) _ (rw (unknown, accept_block) at h) in
              elim (Bool-cases (block.header.parent_hash == s.ledger.tip_hash)) [
                | inr beside ↦ beside-IsStored s block (rw beside at h1)
                | inl on_top ↦
                    let (both, h2) =
                      >>-eq-ok
                        (at s (check_proposal f c s block local_proposal)
                          >> at s (apply_block c s.ledger block).0)
                        _ (rw on_top at h1) in
                    let (_, proposed, applied) =
                      at-eq-ok s (check_proposal f c s block local_proposal) _ both in
                    elim (Bool-cases (
                      certified_head_only_active s
                      && not (Map.contains_key s.quorum_certificates block.block_hash))) [
                        | inl waits ↦
                            uncertified-IsStored s block (and-left _ _ waits) (rw waits at h2)
                        | inr moves ↦ extended-IsStored s block (at-ok s _ applied) (rw moves at h2)
                      ]
              ]
        ]

  -- A call of `accept_block` that answers, with any fuel for the node's own votes, leaves a ledger
  -- that was the replay of the chain the replay of the new chain, keeps every block known that was
  -- known, and leaves the block itself known, whether it was accepted, a duplicate or buffered.
  pub accept_block-IsStored :
      (fuel : ℕ) (f : Floats) (s : NodeState) (block : Block) (local_proposal : Bool)
      {a : BlockAcceptance} {s' : NodeState}
      → accept_block c (maybe_broadcast_local_proposal_vote c fuel) f s block local_proposal
        ≡ ok (a, s')
      → IsStored s s' block
  accept_block-IsStored fuel =
      block-IsStored (maybe_broadcast_local_proposal_vote c fuel) (local_vote-IsKept c fuel)
        (local_vote-Fails c fuel)
