-- ===== src/Ledger/Validation.antt =====
-- What `validate_tx` accepts, and whose accounts a validator can spend from.
use entangrid.Prelude.{◌<◌, ◌≤◌, ◌≡◌, ◌↔◌, sym, ◌∙◌, ok, true, arith, u64_mod}
use entangrid.BTree.Key.{bytes_self}
use entangrid.Types.Records.{SignedTransaction}
use entangrid.Types.Encoding.{Crypto, Hashed, validator_account}
use entangrid.Types.Encoding.Accounts.{validator_account-injective}
use entangrid.Ledger.{LedgerState, account_eq, amount_of, validate_tx}
use entangrid.Ledger.Supply.{account_eq→eq}

module _ (c : Crypto) (s : LedgerState) (signed : SignedTransaction) where
  open signed use {transaction as t}

  -- What `validate_tx` is to check.
  pub record IsAcceptable : Type 0 where
    pub hashed : c.canonical_hash (Hashed.transaction t) ≡ signed.tx_hash
    pub own : t.from ≡ validator_account signed.signer_id
    pub verified : c.verify signed.signer_id signed.tx_hash signed.signature ≡ ok true
    pub funded : t.amount ≤ amount_of s.balances t.from
    pub next : amount_of s.nonces t.from ≡ t.nonce

  accepted : validate_tx c s signed ≡ ok tt → IsAcceptable
  unfolding validate_tx
  accepted h = record {
    hashed = ground arith;
    own = account_eq→eq t.from (validator_account signed.signer_id) (ground arith);
    verified = ground arith;
    funded = ground arith;
    next = ground arith;
  }

  accepts : IsAcceptable → validate_tx c s signed ≡ ok tt
  unfolding validate_tx
  accepts a =
      let same : account_eq t.from (validator_account signed.signer_id) ≡ true =
        rw a.own (ground (arith, bytes_self (validator_account signed.signer_id))) in
      rw (same, a.verified) (ground arith)

  -- A transaction is accepted exactly if its hash is that of its content, its account is that of
  -- its signer, the signature verifies, the balance covers the amount, and the nonce is the next.
  pub validate_tx_iff : (validate_tx c s signed ≡ ok tt) ↔ IsAcceptable
  validate_tx_iff = (accepted, accepts)

-- Only one validator can spend from an account: two accepted transactions from the same account,
-- in whatever states, have the same signer, if the signers' numbers are `u64`.
pub accepted-signer :
    (c : Crypto) (s s' : LedgerState) (signed signed' : SignedTransaction)
    → signed.signer_id < u64_mod
    → signed'.signer_id < u64_mod
    → validate_tx c s signed ≡ ok tt
    → validate_tx c s' signed' ≡ ok tt
    → signed.transaction.from ≡ signed'.transaction.from
    → signed.signer_id ≡ signed'.signer_id
accepted-signer c s s' signed signed' a b h h' e =
    validator_account-injective signed.signer_id signed'.signer_id a b (
      sym (IsAcceptable.own (accepted c s signed h))
      ∙ e
      ∙ IsAcceptable.own (accepted c s' signed' h'))
