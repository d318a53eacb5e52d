-- ===== src/Node/Acceptance/Steps.antt =====
-- What the steps of `accept_block` leave: a ledger that replays its chain, and every known block.
use entangrid.Prelude.{List, [], ◌∷◌, ◌++◌, true, ◌||◌, ◌≡◌, inl, inr, arith, ok, Bool-cases}
use entangrid.BTree.Key.{nat_key}
use entangrid.Types.Records.{HashBytes, Block}
use entangrid.Types.Encoding.{Crypto}
use entangrid.Ledger.{apply_block}
use entangrid.Ledger.Replay.{replay_blocks-snoc}
use entangrid.Node.State.{NodeState, all_blocks}
use entangrid.Node.Chains.{has_block}
use entangrid.Node.Adoption.Keeps.{has_block-append}
use entangrid.Node.Adoption.Kept.{IsKept, IsReplayed}
use entangrid.Node.Acceptance.{buffer_orphan, buffer_pending, append_block}

-- A step that keeps a replayed chain replayed, and every block known.
pub record IsStep (c : Crypto) (s s' : NodeState) : Type 0 where
  pub replayed : IsReplayed c s → IsReplayed c s'
  pub known :
      (h : HashBytes) → has_block h (all_blocks s) ≡ true → has_block h (all_blocks s') ≡ true

module _ (c : Crypto) where
  pub IsKept-IsStep : {s s' : NodeState} → IsKept c s s' → IsStep c s s'
  IsKept-IsStep k = record { replayed = k.replayed; known = k.known }

  pub IsStep-self : (s : NodeState) → IsStep c s s
  IsStep-self s = record { replayed = λ p. p; known = λ h p. p }

  pub IsStep-trans : {s t u : NodeState} → IsStep c s t → IsStep c t u → IsStep c s u
  IsStep-trans p q = record {
    replayed = λ k. q.replayed (p.replayed k);
    known = λ h k. q.known h (p.known h k);
  }

  has_block-single :
      (block : Block) (xs : List Block) → has_block block.block_hash (xs ++ block ∷ []) ≡ true
  has_block-single block [] = ground arith
  has_block-single block (x ∷ xs) = ground (arith, has_block-single block xs)

  -- Membership in the three lists of blocks.
  has_block-all :
      (h : HashBytes) (s : NodeState)
      → has_block h (all_blocks s) ≡ (
          has_block h s.blocks
          || has_block h s.pending_certified_children
          || has_block h s.orphan_blocks)
  has_block-all h s = ground (
    arith,
    has_block-append h s.blocks (s.pending_certified_children ++ s.orphan_blocks),
    has_block-append h s.pending_certified_children s.orphan_blocks,
  )

  pub buffer_orphan-IsStep :
      (s : NodeState) (block : Block)
      → IsStep c s (buffer_orphan s block)
        × (has_block block.block_hash (all_blocks (buffer_orphan s block)) ≡ true)
  unfolding buffer_orphan
  buffer_orphan-IsStep s block = elim (Bool-cases (has_block block.block_hash s.orphan_blocks)) [
    | inl there ↦ rw there (IsStep-self s, ground (arith, has_block-all block.block_hash s))
    | inr new ↦
        let s' : NodeState = record s { orphan_blocks = s.orphan_blocks ++ block ∷ [] } in
        rw new (
          record {
            replayed = λ p. p;
            known = λ h k. ground (
              arith,
              has_block-all h s,
              has_block-all h s',
              has_block-append h s.orphan_blocks (block ∷ []),
            );
          },
          ground (arith, has_block-all block.block_hash s', has_block-single block s.orphan_blocks),
        )
  ]

  pub buffer_pending-IsStep :
      (s : NodeState) (block : Block)
      → IsStep c s (buffer_pending s block)
        × (has_block block.block_hash (all_blocks (buffer_pending s block)) ≡ true)
  unfolding buffer_pending
  buffer_pending-IsStep s block =
      let pending = s.pending_certified_children in
      elim (Bool-cases (has_block block.block_hash pending)) [
        | inl there ↦ rw there (IsStep-self s, ground (arith, has_block-all block.block_hash s))
        | inr new ↦
            let s' : NodeState = record s { pending_certified_children = pending ++ block ∷ [] } in
            rw new (
              record {
                replayed = λ p. p;
                known = λ h k. ground (
                  arith,
                  has_block-all h s,
                  has_block-all h s',
                  has_block-append h pending (block ∷ []),
                );
              },
              ground (arith, has_block-all block.block_hash s', has_block-single block pending),
            )
      ]

  pub append_block-IsStep :
      (s : NodeState) (block : Block)
      → (apply_block c s.ledger block).0 ≡ ok tt
      → IsStep c s (append_block c s (apply_block c s.ledger block).1 block)
        × (has_block block.block_hash
              (all_blocks (append_block c s (apply_block c s.ledger block).1 block))
            ≡ true)
  unfolding append_block
  append_block-IsStep s block applied =
      let s' = append_block c s (apply_block c s.ledger block).1 block in
      (
        record {
          replayed = λ p. replay_blocks-snoc c s.genesis s.blocks block p applied;
          known = λ h k. ground (
            arith,
            has_block-all h s,
            has_block-all h s',
            has_block-append h s.blocks (block ∷ []),
          );
        },
        ground (arith, has_block-all block.block_hash s', has_block-single block s.blocks),
      )
