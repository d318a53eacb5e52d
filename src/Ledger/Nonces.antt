-- ===== src/Ledger/Nonces.antt =====
-- Nonces: each accepted transaction uses the next one of its account, so none is accepted twice.
use entangrid.Prelude.{
  ℕ, suc, ◌+◌, ◌%◌, ◌<◌, ◌≡◌, ◌≢◌, refl, List, [], ◌∷◌, ok, arith, u64_mod, add_u64, if◌then◌else◌,
  inl, inr, Bool-cases,
}
use entangrid.BTree.Key.{bytes_key, bytes_self}
use entangrid.BTree.Map
use entangrid.Types.Records.{AccountId, SignedTransaction}
use entangrid.Types.Encoding.{Crypto}
use entangrid.Ledger.{
  LedgerState, account_eq, amount_of, apply_transaction, validate_tx, apply_transactions,
}
use entangrid.Ledger.Loops.{apply_transactions-ok}
use entangrid.Ledger.Supply.{
  account_eq→eq, ne_of_account_eq, amount_of-insert_self, amount_of-insert_ne,
}

-- How many of the transactions an account sends.
unfoldable pub sent : AccountId → List SignedTransaction → ℕ
sent a [] = 0
sent a (signed ∷ rest) =
    if account_eq a signed.transaction.from then suc (sent a rest) else sent a rest

sent-cons :
    (a : AccountId) (signed : SignedTransaction) (rest : List SignedTransaction)
    → sent a (signed ∷ rest)
      ≡ (if account_eq a signed.transaction.from then suc (sent a rest) else sent a rest)
unfolding sent
sent-cons a signed rest = refl

-- One transaction moves the nonce of its sender by one, and no other.
nonce-apply_transaction :
    (s : LedgerState) (signed : SignedTransaction) (a : AccountId) {s' : LedgerState}
    → apply_transaction s signed ≡ ok s'
    → amount_of s'.nonces a ≡ (
        if account_eq a signed.transaction.from
        then add_u64 (amount_of s.nonces a) 1
        else amount_of s.nonces a)
unfolding apply_transaction
nonce-apply_transaction s signed a {s'} h =
    let from = signed.transaction.from in
    let next = add_u64 (amount_of s.nonces from) 1 in
    let e : s'.nonces ≡ Map.insert s.nonces from next = ground arith in
    elim (Bool-cases (account_eq a from)) [
      | inl same ↦
          let p : a ≡ from = account_eq→eq a from same in
          rw (same, e) (rw p (amount_of-insert_self s.nonces from next))
      | inr other ↦
          rw (other, e) (amount_of-insert_ne s.nonces from next a (ne_of_account_eq a from other))
    ]

module _ (c : Crypto) where
  accepted-nonce :
      (s : LedgerState) (signed : SignedTransaction)
      → validate_tx c s signed ≡ ok tt
      → amount_of s.nonces signed.transaction.from ≡ signed.transaction.nonce
  unfolding validate_tx
  accepted-nonce s signed h = ground arith

  -- When all transactions of a list are applied, the nonce of an account, a `u64`, has grown by
  -- the number of those transactions that the account sends, with the wrap-around of a `u64`.
  pub nonces-apply_transactions :
      (s : LedgerState) (txs : List SignedTransaction) (a : AccountId)
      → amount_of s.nonces a < u64_mod
      → (apply_transactions c s txs).0 ≡ ok tt
      → amount_of (apply_transactions c s txs).1.nonces a
        ≡ (amount_of s.nonces a + sent a txs) % u64_mod
  nonces-apply_transactions s [] a fits h = unfold apply_transactions sent in omega arith
  nonces-apply_transactions s (signed ∷ rest) a fits h =
      let (s', v, applied, e) = apply_transactions-ok c s signed rest h in
      let first = nonce-apply_transaction s signed a applied in
      let ih = nonces-apply_transactions s' rest a (ground (arith, first)) (rw e at h) in
      rw e (ground (arith, ih, first, sent-cons a signed rest))

  -- After a list of transactions is applied as a whole, its first one is not accepted again, as
  -- long as its nonce and the later transactions of its account do not reach the end of a `u64`.
  pub no_replay :
      (s : LedgerState) (signed : SignedTransaction) (rest : List SignedTransaction)
      → (apply_transactions c s (signed ∷ rest)).0 ≡ ok tt
      → signed.transaction.nonce + 1 + sent signed.transaction.from rest < u64_mod
      → validate_tx c (apply_transactions c s (signed ∷ rest)).1 signed ≢ ok tt
  no_replay s signed rest h fits again =
      let from = signed.transaction.from in
      let (s', v, applied, e) = apply_transactions-ok c s signed rest h in
      let before = accepted-nonce s signed v in
      let after = accepted-nonce (apply_transactions c s (signed ∷ rest)).1 signed again in
      let all : amount_of (apply_transactions c s (signed ∷ rest)).1.nonces from
          ≡ (amount_of s.nonces from + sent from (signed ∷ rest)) % u64_mod =
        nonces-apply_transactions s (signed ∷ rest) from (omega (arith, before)) h in
      let self : sent from (signed ∷ rest) ≡ suc (sent from rest) =
        ground (arith, sent-cons from signed rest, bytes_self from) in
      omega (arith, before, after, all, self)
