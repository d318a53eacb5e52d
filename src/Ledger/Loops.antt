-- ===== src/Ledger/Loops.antt =====
-- The rules for the loops of `apply_block` and `replay_blocks`.
use entangrid.Prelude.{
  ◌≡◌, refl, subst, List, [], ◌∷◌, ok-injective, Result-cases, >>=-eq-ok, ok, inl, inr, All, ◌>>◌,
}
use entangrid.Types.Records.{SignedTransaction, Block}
use entangrid.Types.Encoding.{Crypto}
use entangrid.Ledger.{
  LedgerState, apply_transaction, validate_tx, apply_transactions, apply_block, replay_from,
}

module _ (c : Crypto) where
  -- A round that goes on has validated its transaction and applied it.
  pub round-ok :
      (s : LedgerState) (signed : SignedTransaction) {s' : LedgerState}
      → (validate_tx c s signed >> apply_transaction s signed) ≡ ok s'
      → (validate_tx c s signed ≡ ok tt) × (apply_transaction s signed ≡ ok s')
  round-ok s signed h =
      let (_, v, a) = >>=-eq-ok (validate_tx c s signed) (λ _. apply_transaction s signed) h in
      (v, a)

  -- What every accepted transaction keeps, the loop keeps, whether it fails or not.
  pub apply_transactions_keep {ℓ κ} :
      (P : LedgerState → Type ℓ) (Q : SignedTransaction → Type κ)
      → ((s : LedgerState) (signed : SignedTransaction) (s' : LedgerState)
          → P s
          → Q signed
          → validate_tx c s signed ≡ ok tt
          → apply_transaction s signed ≡ ok s'
          → P s')
      → (s : LedgerState) (txs : List SignedTransaction) → P s
      → All Q txs
      → P (apply_transactions c s txs).1
  unfolding apply_transactions
  apply_transactions_keep P Q keep s [] p q = p
  apply_transactions_keep P Q keep s (signed ∷ rest) p (q, qs) =
      elim (Result-cases (validate_tx c s signed >> apply_transaction s signed)) [
        | inl (s', e) ↦
            let (v, a) = round-ok s signed e in
            rw (e, apply_transactions)
              (apply_transactions_keep P Q keep s' rest (keep s signed s' p q v a) qs)
        | inr (text, e) ↦ rw (e, apply_transactions) p
      ]

  -- A loop that succeeds has applied its first transaction, and the rest after it.
  pub apply_transactions-ok :
      (s : LedgerState) (signed : SignedTransaction) (rest : List SignedTransaction)
      → (apply_transactions c s (signed ∷ rest)).0 ≡ ok tt
      → (s' : LedgerState) × (validate_tx c s signed ≡ ok tt)
        × (apply_transaction s signed ≡ ok s')
        × (apply_transactions c s (signed ∷ rest) ≡ apply_transactions c s' rest)
  unfolding apply_transactions
  apply_transactions-ok s signed rest h =
      elim (Result-cases (validate_tx c s signed >> apply_transaction s signed)) [
        | inl (s', e) ↦
            let (v, a) = round-ok s signed e in (s', v, a, rw (e, apply_transactions) refl)
        | inr (text, e) ↦ cc (rw (e, apply_transactions) at h)
      ]

  -- What every block keeps, a replay that succeeds keeps.
  pub replay_from_keep {ℓ κ} :
      (P : LedgerState → Type ℓ) (Q : Block → Type κ)
      → ((s : LedgerState) (block : Block) → P s → Q block → P (apply_block c s block).1)
      → (s : LedgerState) (blocks : List Block) {s' : LedgerState} → P s
      → All Q blocks
      → replay_from c s blocks ≡ ok s'
      → P s'
  unfolding replay_from
  replay_from_keep P Q keep s [] p q e = subst P (ok-injective e) p
  replay_from_keep P Q keep s (block ∷ rest) p (q, qs) e =
      elim (Result-cases (apply_block c s block).0) [
        | inl (_, applied) ↦
            replay_from_keep P Q keep (apply_block c s block).1 rest (keep s block p q) qs
              (rw (applied, replay_from) at e)
        | inr (text, failed) ↦ absurd (cc (rw (failed, replay_from) at e))
      ]
