-- ===== src/Ledger/Replay.antt =====
-- A replay of a chain and a block is the replay of the chain and then the block.
use entangrid.Prelude.{
  List, [], ◌∷◌, ◌++◌, ◌≡◌, refl, Result, ok, err, ◌==◌, Bool-cases, Result-cases, inl, inr,
}
use entangrid.Types.Records.{Block, GenesisConfig}
use entangrid.Types.Encoding.{Crypto}
use entangrid.Ledger.Blocks.{IsHead}
use entangrid.Ledger.{
  LedgerState, seal_block, state_root, apply_transactions, apply_block, replay_from, replay_blocks,
  from_genesis,
}

module _ (c : Crypto) where
  pub replay_from-append :
      (s : LedgerState) (xs ys : List Block) {t : LedgerState}
      → replay_from c s xs ≡ ok t
      → replay_from c s (xs ++ ys) ≡ replay_from c t ys
  unfolding replay_from
  replay_from-append s [] ys {t} h = let same : s ≡ t = cc in rw same refl
  replay_from-append s (x ∷ xs) ys {t} h = elim (Result-cases (apply_block c s x).0) [
    | inl (u, applied) ↦
        rw (applied, replay_from)
          (replay_from-append (apply_block c s x).1 xs ys (rw (applied, replay_from) at h))
    | inr (text, failed) ↦ absurd (cc (rw (failed, replay_from) at h))
  ]

  pub replay_blocks-snoc :
      (genesis : GenesisConfig) (chain : List Block) (block : Block) {s : LedgerState}
      → replay_blocks c genesis chain ≡ ok s
      → (apply_block c s block).0 ≡ ok tt
      → replay_blocks c genesis (chain ++ block ∷ []) ≡ ok (apply_block c s block).1
  unfolding replay_blocks replay_from
  replay_blocks-snoc genesis chain block {s} replayed applied =
      rw
        (
          replay_from-append (from_genesis genesis) chain (block ∷ []) replayed,
          replay_from,
          applied,
        )
        refl

  seal_block-IsHead :
      (block : Block) (r : Result (Unit {0})) (t : LedgerState)
      → (seal_block c block (r, t)).0 ≡ ok tt
      → IsHead block (seal_block c block (r, t)).1
  unfolding seal_block
  seal_block-IsHead block (err text) t h = cc
  seal_block-IsHead block (ok u) t h =
      elim (Bool-cases (state_root c t == block.header.state_root)) [
        | inl same ↦
            rw (same, seal_block) (record { tip_hash = refl; height = refl; last_slot = refl })
        | inr other ↦ absurd (cc (rw (other, seal_block) at h))
      ]

  -- A block that is applied is the head.
  pub apply_block-IsHead :
      (s : LedgerState) (block : Block)
      → (apply_block c s block).0 ≡ ok tt
      → IsHead block (apply_block c s block).1
  unfolding apply_block
  apply_block-IsHead s block h =
      let (r, t) = apply_transactions c s block.transactions in seal_block-IsHead block r t h

  -- One more block at the front of a replay.
  pub replay_from-cons :
      (s : LedgerState) (block : Block) (rest : List Block) {t : LedgerState}
      → (apply_block c s block).0 ≡ ok tt
      → replay_from c (apply_block c s block).1 rest ≡ ok t
      → replay_from c s (block ∷ rest) ≡ ok t
  unfolding replay_from
  replay_from-cons s block rest applied later = rw (applied, replay_from) later

  pub replay_from-uncons :
      (s : LedgerState) (block : Block) (rest : List Block) {t : LedgerState}
      → replay_from c s (block ∷ rest) ≡ ok t
      → ((apply_block c s block).0 ≡ ok tt) × (replay_from c (apply_block c s block).1 rest ≡ ok t)
  unfolding replay_from
  replay_from-uncons s block rest h = elim (Result-cases (apply_block c s block).0) [
    | inl (_, applied) ↦ (applied, rw (applied, replay_from) at h)
    | inr (text, failed) ↦ absurd (cc (rw (failed, replay_from) at h))
  ]
