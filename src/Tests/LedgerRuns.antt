-- ===== src/Tests/LedgerRuns.antt =====
-- The ledger on two payments.
use entangrid.Prelude.{
  ◌+◌, ◌<◌, ◌≡◌, ◌≢◌, ◌^◌, String, err, ap, refl, List, [], ◌∷◌, ok, arith, ◌↔◌, ◌⊎◌,
}
use entangrid.BTree.Key.{bytes_key}
use entangrid.BTree.Map
use entangrid.BTree.Map.Total.{total}
use entangrid.Types.Records.{SignedTransaction, Block}
use entangrid.Ledger.{
  LedgerState, apply_transaction, amount_of, apply_transactions, validate_tx, apply_block,
  replay_blocks, replay_from, from_genesis, seal_block, state_root,
}
use entangrid.Types.Encoding.{validator_account, decimal}
use entangrid.Ledger.Supply.{
  IsBounded, self_transfer_mints, apply_transactions-total, ne_of_account_eq,
}
use entangrid.Ledger.Blocks.{IsHead, SameHead, replay_blocks-total, apply_block_outcome}
use entangrid.Ledger.Nonces.{sent, no_replay}
use entangrid.Ledger.Validation.{IsAcceptable, validate_tx_iff}
use entangrid.Tests.Fixtures.{crypto, account, genesis, ledger, payment, block}

abbrev paid : LedgerState
paid = record ledger {
  balances = (account 1, 70) ∷ (account 2, 80) ∷ [];
  nonces = (account 1, 1) ∷ [];
}

run_payment : apply_transaction ledger (payment 1 2 30 0) ≡ ok paid
unfolding apply_transaction amount_of Map.get Map.insert
run_payment = refl

ledger-IsBounded : IsBounded ledger
unfolding total
ledger-IsBounded = record { ordered = ((refl, tt), (tt, tt)); fits = omega arith }

other_account : account 2 ≢ account 1
other_account = ne_of_account_eq (account 2) (account 1) refl

abbrev minted : LedgerState
minted = record ledger {
  balances = (account 1, 130) ∷ (account 2, 50) ∷ [];
  nonces = (account 1, 1) ∷ [];
}

run_self_payment : apply_transaction ledger (payment 1 1 30 0) ≡ ok minted
unfolding apply_transaction amount_of Map.get Map.insert
run_self_payment = refl

total_fits : total ledger.balances + 30 < 2 ^ 64
unfolding total
total_fits = omega arith

self_transfer_mints_example : total minted.balances ≡ total ledger.balances + 30
self_transfer_mints_example =
    self_transfer_mints ledger (payment 1 1 30 0) ledger-IsBounded run_self_payment refl total_fits

-- A block of two payments of one account.
abbrev two : List SignedTransaction
two = payment 1 2 30 0 ∷ payment 1 2 5 1 ∷ []

apply_transactions-total_example :
    (total (apply_transactions crypto ledger two).1.balances ≡ total ledger.balances)
    × IsBounded (apply_transactions crypto ledger two).1
apply_transactions-total_example =
    apply_transactions-total crypto ledger two ledger-IsBounded (other_account, (other_account, tt))

abbrev paid_twice : LedgerState
paid_twice = record ledger {
  balances = (account 1, 65) ∷ (account 2, 85) ∷ [];
  nonces = (account 1, 2) ∷ [];
}

run_two : apply_transactions crypto ledger two ≡ (ok tt, paid_twice)
unfolding apply_transactions validate_tx apply_transaction amount_of Map.get Map.insert
    validator_account decimal
run_two = refl

two_applied : (apply_transactions crypto ledger two).0 ≡ ok tt
two_applied = ap (λ r. r.0) run_two

nonce_fits : amount_of ledger.nonces (account 1) < 2 ^ 64
unfolding amount_of Map.get
nonce_fits = omega arith

rest_fits : 0 + 1 + sent (account 1) (payment 1 2 5 1 ∷ []) < 2 ^ 64
unfolding sent
rest_fits = omega arith

no_replay_example :
    validate_tx crypto (apply_transactions crypto ledger two).1 (payment 1 2 30 0) ≢ ok tt
no_replay_example =
    no_replay crypto ledger (payment 1 2 30 0) (payment 1 2 5 1 ∷ []) two_applied rest_fits

validate_tx_iff_example :
    (validate_tx crypto ledger (payment 1 2 30 0) ≡ ok tt)
    ↔ IsAcceptable crypto ledger (payment 1 2 30 0)
validate_tx_iff_example = validate_tx_iff crypto ledger (payment 1 2 30 0)

run_validation : validate_tx crypto ledger (payment 1 2 30 0) ≡ ok tt
unfolding validate_tx amount_of Map.get validator_account decimal
run_validation = refl

one_fits : 1 < 2 ^ 64
one_fits = omega arith

run_next_validation : validate_tx crypto paid (payment 1 2 5 1) ≡ ok tt
unfolding validate_tx amount_of Map.get validator_account decimal
run_next_validation = refl

abbrev paying_block : Block
paying_block = block 1 0 11 two

apply_block_outcome_example :
    (((apply_block crypto ledger paying_block).0 ≡ ok tt)
      × ((apply_transactions crypto ledger two).0 ≡ ok tt)
      × (state_root crypto (apply_block crypto ledger paying_block).1 ≡ 7)
      × IsHead paying_block (apply_block crypto ledger paying_block).1)
    ⊎ (((text : String) × ((apply_block crypto ledger paying_block).0 ≡ err text))
        × SameHead ledger (apply_block crypto ledger paying_block).1)
apply_block_outcome_example = apply_block_outcome crypto ledger paying_block

abbrev replayed : LedgerState
replayed = record paid_twice { tip_hash = 11; height = 1; last_slot = 1 }

run_replay : replay_blocks crypto genesis (paying_block ∷ []) ≡ ok replayed
unfolding replay_blocks replay_from from_genesis apply_block seal_block state_root
    apply_transactions validate_tx apply_transaction amount_of Map.get Map.insert validator_account
    decimal
run_replay = refl

replay_blocks-total_example : total replayed.balances ≡ total genesis.initial_balances
replay_blocks-total_example =
    replay_blocks-total crypto genesis (paying_block ∷ []) ledger-IsBounded.ordered
      ledger-IsBounded.fits ((other_account, (other_account, tt)), tt) run_replay
