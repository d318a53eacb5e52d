-- ===== src/Ledger.antt =====
-- crates/entangrid-ledger/src/lib.rs: validation and application of transactions and blocks.
mod Loops
pub mod Supply
pub mod Validation
pub mod Nonces
pub mod Blocks
pub mod Replay
use entangrid.Prelude.{
  ℕ, ◌-◌, Bool, Option, List, [], ◌∷◌, Result, ok, err, Ordering, not, ltb, ◌==◌, bail_if, ◌>>=◌,
  ◌>>◌, if◌then◌else◌, unwrap_or, add_u64, true, false,
}
use entangrid.BTree.Key.{compare_bytes, bytes_key}
use entangrid.BTree.Map
use entangrid.BTree.Map.{BTreeMap}
use entangrid.Types.Records.{
  AccountId, GenesisConfig, Transaction, SignedTransaction, Block, StateSnapshot, HashBytes,
}
use entangrid.Types.Encoding.{Crypto, Hashed, empty_hash, validator_account}

-- `LedgerState` holds a `StateSnapshot` and nothing else.
abbrev pub LedgerState : Type 0
LedgerState = StateSnapshot

-- `==` of account names.
abbrev pub account_eq : AccountId → AccountId → Bool
account_eq a b = elim (compare_bytes a b) [ Ordering.eq ↦ true | _ ↦ false ]

-- `get(account).copied().unwrap_or_default()`
unfoldable pub amount_of : BTreeMap AccountId ℕ → AccountId → ℕ
amount_of m account = unwrap_or (Map.get m account) 0

unfoldable pub from_genesis : GenesisConfig → LedgerState
from_genesis genesis = record {
  balances = genesis.initial_balances;
  nonces = [];
  tip_hash = empty_hash;
  height = 0;
  last_slot = 0;
}

unfoldable pub balance_of : LedgerState → AccountId → ℕ
unfolding amount_of
balance_of s account = amount_of s.balances account

unfoldable pub apply_transaction : LedgerState → SignedTransaction → Result LedgerState
apply_transaction s signed =
    let t = signed.transaction in
    let from_balance = amount_of s.balances t.from in
    let to_balance = amount_of s.balances t.to in
    let debited = Map.insert s.balances t.from (from_balance - t.amount) in
    let nonce = amount_of s.nonces t.from in
    if ltb from_balance t.amount
    then err "insufficient balance during apply"
    else ok (record s {
      balances = Map.insert debited t.to (add_u64 to_balance t.amount);
      nonces = Map.insert s.nonces t.from (add_u64 nonce 1);
    })

module _ (c : Crypto) where
  unfoldable pub validate_tx : LedgerState → SignedTransaction → Result (Unit {0})
  validate_tx s signed = do
    let t = signed.transaction
    let expected_hash = c.canonical_hash (Hashed.transaction t)
    bail_if (not (expected_hash == signed.tx_hash)) "transaction hash mismatch"
    bail_if (not (account_eq t.from (validator_account signed.signer_id)))
        "transaction source account must match signer"
    verified ← c.verify signed.signer_id signed.tx_hash signed.signature
    bail_if (not verified) "transaction signature verification failed"
    bail_if (ltb (amount_of s.balances t.from) t.amount) "insufficient balance"
    bail_if (not (amount_of s.nonces t.from == t.nonce)) "unexpected nonce"

  -- The loop of `apply_block`. A failure leaves what the earlier rounds wrote, so the state comes
  -- back beside the result.
  unfoldable pub apply_transactions :
      LedgerState → List SignedTransaction → Result (Unit {0}) × LedgerState
  apply_transactions s [] = (ok tt, s)
  apply_transactions s (signed ∷ rest) = elim (validate_tx s signed >> apply_transaction s signed) [
    | ok s' ↦ apply_transactions s' rest
    | err e ↦ (err e, s)
  ]

  unfoldable pub state_root : LedgerState → HashBytes
  state_root s = c.canonical_hash (Hashed.state s.balances s.nonces)

  -- The end of `apply_block`, after the loop.
  unfoldable pub seal_block :
      Block → Result (Unit {0}) × LedgerState → Result (Unit {0}) × LedgerState
  seal_block block (err e, s) = (err e, s)
  seal_block block (ok _, s) =
      if state_root s == block.header.state_root
      then (
        ok tt,
        record s {
          tip_hash = block.block_hash;
          height = block.header.block_number;
          last_slot = block.header.slot;
        },
      )
      else (err "state root mismatch", s)

  unfoldable pub apply_block : LedgerState → Block → Result (Unit {0}) × LedgerState
  unfolding seal_block
  apply_block s block = seal_block block (apply_transactions s block.transactions)

  -- The loop of `replay_blocks`; a failure drops the state.
  unfoldable pub replay_from : LedgerState → List Block → Result LedgerState
  replay_from s [] = ok s
  replay_from s (block ∷ rest) = elim (apply_block s block).0 [
    | ok _ ↦ replay_from (apply_block s block).1 rest
    | err e ↦ err e
  ]

  unfoldable pub replay_blocks : GenesisConfig → List Block → Result LedgerState
  unfolding replay_from
  replay_blocks genesis blocks = replay_from (from_genesis genesis) blocks
