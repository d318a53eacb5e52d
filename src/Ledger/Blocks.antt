-- ===== src/Ledger/Blocks.antt =====
-- `apply_block` and `replay_blocks`: what a block changes, what a refused block leaves, and the
-- sum of the balances along a chain.
use entangrid.Prelude.{
  ◌<◌, ◌≡◌, refl, ◌∙◌, List, [], ◌∷◌, Result, ok, err, All, arith, u64_mod, Bool-cases, inl, inr,
  ◌==◌, String, ◌⊎◌,
}
use entangrid.BTree.Key.{bytes_key}
use entangrid.BTree.Map.Laws.{IsOrdered}
use entangrid.BTree.Map.Total.{total}
use entangrid.Types.Records.{GenesisConfig, SignedTransaction, Block}
use entangrid.Types.Encoding.{Crypto}
use entangrid.Ledger.{
  LedgerState, from_genesis, apply_transaction, apply_transactions, state_root, seal_block,
  apply_block, replay_blocks,
}
use entangrid.Ledger.Loops.{apply_transactions_keep, replay_from_keep}
use entangrid.Ledger.Supply.{IsBounded, MovesAway, apply_transactions-total}

-- Two states with the same chain position.
pub record SameHead (s s' : LedgerState) : Type 0 where
  pub tip_hash : s'.tip_hash ≡ s.tip_hash
  pub height : s'.height ≡ s.height
  pub last_slot : s'.last_slot ≡ s.last_slot

-- The state is at the block.
pub record IsHead (block : Block) (s' : LedgerState) : Type 0 where
  pub tip_hash : s'.tip_hash ≡ block.block_hash
  pub height : s'.height ≡ block.header.block_number
  pub last_slot : s'.last_slot ≡ block.header.slot

apply_transaction-SameHead :
    (s : LedgerState) (signed : SignedTransaction) {s' : LedgerState}
    → apply_transaction s signed ≡ ok s'
    → SameHead s s'
unfolding apply_transaction
apply_transaction-SameHead s signed h = ground arith

everything : (txs : List SignedTransaction) → All (λ _. Unit {0}) txs
everything [] = tt
everything (tx ∷ txs) = (tt, everything txs)

module _ (c : Crypto) where
  apply_transactions-SameHead :
      (s : LedgerState) (txs : List SignedTransaction) → SameHead s (apply_transactions c s txs).1
  apply_transactions-SameHead s txs =
      apply_transactions_keep c (SameHead s) (λ _. Unit {0})
        (λ s₁ signed s₂ p _ _ applied.
          let q = apply_transaction-SameHead s₁ signed applied in
          record {
            tip_hash = q.tip_hash ∙ p.tip_hash;
            height = q.height ∙ p.height;
            last_slot = q.last_slot ∙ p.last_slot;
          })
        s txs (record { tip_hash = refl; height = refl; last_slot = refl }) (everything txs)

  -- What the end of `apply_block` makes of the loop's result `(r, t)`.
  abbrev Outcome :
      LedgerState → Block → Result (Unit {0}) → Result (Unit {0}) × LedgerState → Type 0
  Outcome s block r out =
      ((out.0 ≡ ok tt)
        × (r ≡ ok tt)
        × (state_root c out.1 ≡ block.header.state_root)
        × IsHead block out.1)
      ⊎ (((text : String) × (out.0 ≡ err text)) × SameHead s out.1)

  seal_block-Outcome :
      (s : LedgerState) (block : Block) (r : Result (Unit {0})) (t : LedgerState)
      → SameHead s t
      → Outcome s block r (seal_block c block (r, t))
  unfolding seal_block state_root
  seal_block-Outcome s block (err text) t kept = inr ((text, refl), kept)
  seal_block-Outcome s block (ok _) t kept =
      elim (Bool-cases (state_root c t == block.header.state_root)) [
        | inl same ↦ rw same (
            inl (
              refl,
              refl,
              ground arith,
              record { tip_hash = refl; height = refl; last_slot = refl },
            ))
        | inr other ↦ rw other (inr (("state root mismatch", refl), kept))
      ]

  module _ (s : LedgerState) (block : Block) where
    -- `apply_block` either succeeds, and then every transaction of the block was applied, the
    -- state has the root that the header claims, and its head is the block; or it fails, and
    -- then the head is the one from before.
    pub apply_block_outcome :
        (((apply_block c s block).0 ≡ ok tt)
          × ((apply_transactions c s block.transactions).0 ≡ ok tt)
          × (state_root c (apply_block c s block).1 ≡ block.header.state_root)
          × IsHead block (apply_block c s block).1)
        ⊎ (((text : String) × ((apply_block c s block).0 ≡ err text))
            × SameHead s (apply_block c s block).1)
    unfolding apply_block
    apply_block_outcome =
        let (r, t) = apply_transactions c s block.transactions in
        seal_block-Outcome s block r t (apply_transactions-SameHead s block.transactions)

    balances-apply_block :
        (apply_block c s block).1.balances ≡ (apply_transactions c s block.transactions).1.balances
    unfolding apply_block state_root
    balances-apply_block = ground arith

-- A block whose transactions all go from one account to another.
abbrev pub BlockMovesAway : Block → Type 0
BlockMovesAway block = MovesAway block.transactions

-- A replay that succeeds ends with the sum of the initial balances, if these are an ordered map
-- whose sum fits a `u64` and no transaction of the chain pays its own sender.
pub replay_blocks-total :
    (c : Crypto) (genesis : GenesisConfig) (blocks : List Block) {s' : LedgerState}
    → IsOrdered genesis.initial_balances
    → total genesis.initial_balances < u64_mod
    → All BlockMovesAway blocks
    → replay_blocks c genesis blocks ≡ ok s'
    → total s'.balances ≡ total genesis.initial_balances
unfolding replay_blocks from_genesis
replay_blocks-total c genesis blocks ordered fits away h =
    (replay_from_keep c (λ s. (total s.balances ≡ total genesis.initial_balances) × IsBounded s)
      BlockMovesAway
      (λ s block (e, b) m.
        let (same, b') = apply_transactions-total c s block.transactions b m in
        let e' = balances-apply_block c s block in
        (rw e' (same ∙ e), record { ordered = rw e' b'.ordered; fits = rw e' b'.fits }))
      (from_genesis genesis) blocks (refl, record { ordered = ordered; fits = fits }) away h).0
