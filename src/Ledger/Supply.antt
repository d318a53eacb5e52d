-- ===== src/Ledger/Supply.antt =====
-- The sum of all balances under `apply_transaction` and the loops over it.
use entangrid.Prelude.{
  ℕ, ◌+◌, ◌-◌, ◌<◌, ◌≤◌, ◌≡◌, ◌≢◌, refl, List, ok, All, arith, u64_mod, sym, ◌∙◌, add_u64,
  unwrap_or, ap, if◌then◌else◌, Bool-cases, true, false, inl, inr, subst, Ordering,
}
use native.Mathlib.Nat.{mod-eq_of_lt}
use entangrid.BTree.Key.{bytes_key, bytes_self, bytes-eq, compare_bytes}
use entangrid.BTree.Map
use entangrid.BTree.Map.{BTreeMap}
use entangrid.BTree.Map.Laws.{IsOrdered, insert-IsOrdered, get-insert_self, get-insert_ne}
use entangrid.BTree.Map.Total.{total, total-insert, get-le-total}
use entangrid.Types.Records.{AccountId, SignedTransaction}
use entangrid.Types.Encoding.{Crypto}
use entangrid.Ledger.Loops.{apply_transactions_keep}
use entangrid.Ledger.{
  LedgerState, amount_of, apply_transaction, apply_transactions, account_eq, balance_of,
}

pub account_eq→eq : (a b : AccountId) → account_eq a b ≡ true → a ≡ b
account_eq→eq a b h = ground (arith, bytes-eq a b)

pub ne_of_account_eq : (a b : AccountId) → account_eq a b ≡ false → a ≢ b
ne_of_account_eq a b h e =
    ground (arith, subst (λ x. compare_bytes a x ≡ Ordering.eq) e (bytes_self a))

account_eq_of_ne : (a b : AccountId) → a ≢ b → account_eq a b ≡ false
account_eq_of_ne a b h = elim (Bool-cases (account_eq a b)) [
  | inl same ↦ absurd (h (account_eq→eq a b same))
  | inr other ↦ other
]

-- The balances are a map, and their sum fits a `u64`.
pub record IsBounded (s : LedgerState) : Type 0 where
  pub ordered : IsOrdered s.balances
  pub fits : total s.balances < u64_mod

-- The laws of the map, said of the amount that an account holds.
total-insert_amount :
    (m : BTreeMap AccountId ℕ) (k : AccountId) (v : ℕ)
    → IsOrdered m
    → total (Map.insert m k v) + amount_of m k ≡ total m + v
unfolding amount_of
total-insert_amount m k v h = total-insert m k v h

amount_of-le-total : (m : BTreeMap AccountId ℕ) (k : AccountId) → amount_of m k ≤ total m
unfolding amount_of
amount_of-le-total m k = get-le-total m k

pub amount_of-insert_self :
    (m : BTreeMap AccountId ℕ) (k : AccountId) (v : ℕ) → amount_of (Map.insert m k v) k ≡ v
unfolding amount_of
amount_of-insert_self m k v = ap (λ o. unwrap_or o 0) (get-insert_self m k v)

pub amount_of-insert_ne :
    (m : BTreeMap AccountId ℕ) (k : AccountId) (v : ℕ) (i : AccountId)
    → i ≢ k
    → amount_of (Map.insert m k v) i ≡ amount_of m i
unfolding amount_of
amount_of-insert_ne m k v i h = ap (λ o. unwrap_or o 0) (get-insert_ne m k v i h)

module _ (m : BTreeMap AccountId ℕ) (from to : AccountId) (amount : ℕ) (h : IsOrdered m) where
  abbrev debited : BTreeMap AccountId ℕ
  debited = Map.insert m from (amount_of m from - amount)

  abbrev credited : BTreeMap AccountId ℕ
  credited = Map.insert debited to (add_u64 (amount_of m to) amount)

  module _ (le : amount ≤ amount_of m from) where
    debited-total : total debited + amount ≡ total m
    debited-total =
        omega (
          arith,
          total-insert_amount m from (amount_of m from - amount) h,
          amount_of-le-total m from,
        )

    credit_total :
        amount_of m to + amount < u64_mod
        → total credited + amount_of debited to + amount ≡ total m + amount_of m to + amount
    credit_total fits =
        let o : IsOrdered debited = insert-IsOrdered m from _ h in
        rw (mod-eq_of_lt fits)
          (omega (arith, debited-total, total-insert_amount debited to (amount_of m to + amount) o))

    -- What a transfer between two accounts leaves in all.
    transfer_total : to ≢ from → total m < u64_mod → total credited ≡ total m
    transfer_total ne fits =
        let kept = amount_of-insert_ne m from (amount_of m from - amount) to ne in
        omega (
          arith,
          debited-total,
          kept,
          amount_of-le-total debited to,
          credit_total (omega (arith, debited-total, kept, amount_of-le-total debited to)),
        )

    -- What a transfer of an account to itself leaves in all.
    self_transfer_total : to ≡ from → total m + amount < u64_mod → total credited ≡ total m + amount
    self_transfer_total eq fits =
        let wrote : amount_of debited to ≡ amount_of m from - amount =
          rw eq (amount_of-insert_self m from (amount_of m from - amount)) in
        let same : amount_of m to ≡ amount_of m from = ap (amount_of m) eq in
        omega (
          arith,
          wrote,
          same,
          amount_of-le-total m to,
          credit_total (omega (arith, amount_of-le-total m to)),
        )

    module _ (ne : to ≢ from) (fits : total m < u64_mod) (i : AccountId) where
      amount_of-credited :
          amount_of credited i
          ≡ (if account_eq i to then amount_of m to + amount else amount_of debited i)
      amount_of-credited =
          let kept = amount_of-insert_ne m from (amount_of m from - amount) to ne in
          let got = add_u64 (amount_of m to) amount in
          let wrap : got ≡ amount_of m to + amount =
            mod-eq_of_lt (omega (arith, kept, debited-total, amount_of-le-total debited to)) in
          elim (Bool-cases (account_eq i to)) [
            | inl same ↦
                rw (same, account_eq→eq i to same) (amount_of-insert_self debited to got ∙ wrap)
            | inr other ↦
                rw other (amount_of-insert_ne debited to got i (ne_of_account_eq i to other))
          ]

      amount_of-debited :
          amount_of debited i
          ≡ (if account_eq i from then amount_of m from - amount else amount_of m i)
      amount_of-debited = elim (Bool-cases (account_eq i from)) [
        | inl same ↦ rw (same, account_eq→eq i from same) (amount_of-insert_self m from _)
        | inr other ↦ rw other (amount_of-insert_ne m from _ i (ne_of_account_eq i from other))
      ]

      credited_moves :
          amount_of credited i + (if account_eq i from then amount else 0)
          ≡ amount_of m i + (if account_eq i to then amount else 0)
      credited_moves = elim (Bool-cases (account_eq i to)) [
        | inl p ↦
            let e = account_eq→eq i to p in
            let q = account_eq_of_ne i from (λ r. ne (sym e ∙ r)) in
            let same = ap (amount_of m) e in
            let c : amount_of credited i ≡ amount_of m to + amount = rw p at amount_of-credited in
            rw (p, q) (omega (arith, c, same))
        | inr p ↦
            let c : amount_of credited i ≡ amount_of debited i = rw p at amount_of-credited in
            elim (Bool-cases (account_eq i from)) [
              | inl q ↦
                  let same = ap (amount_of m) (account_eq→eq i from q) in
                  let d : amount_of debited i ≡ amount_of m from - amount =
                    rw q at amount_of-debited in
                  rw (p, q) (omega (arith, c, d, same))
              | inr q ↦
                  let d : amount_of debited i ≡ amount_of m i = rw q at amount_of-debited in
                  rw (p, q) (omega (arith, c, d))
            ]
      ]

  credited-IsOrdered : IsOrdered credited
  credited-IsOrdered = insert-IsOrdered debited to _ (insert-IsOrdered m from _ h)

module _ (s : LedgerState) (signed : SignedTransaction) {s' : LedgerState} (h : IsBounded s)
    (applied : apply_transaction s signed ≡ ok s') where
  open signed use {transaction as t}

  abbrev moved : BTreeMap AccountId ℕ
  moved = credited s.balances t.from t.to t.amount h.ordered

  apply_transaction-eq : (t.amount ≤ amount_of s.balances t.from) × (s'.balances ≡ moved)
  unfolding apply_transaction
  apply_transaction-eq = ground arith

  -- Where the balances are an ordered map whose sum fits a `u64`, a transfer between two different
  -- accounts neither creates nor destroys anything: the sum of the balances is the same after it,
  -- and they stay such a map.
  pub transfer-IsBounded : t.to ≢ t.from → (total s'.balances ≡ total s.balances) × IsBounded s'
  transfer-IsBounded ne =
      let (le, e) = apply_transaction-eq in
      let same : total s'.balances ≡ total s.balances =
        rw e (transfer_total s.balances t.from t.to t.amount h.ordered le ne h.fits) in
      (
        same,
        record {
          ordered = rw e (credited-IsOrdered s.balances t.from t.to t.amount h.ordered);
          fits = rw same h.fits;
        },
      )

  -- Where the balances are an ordered map and their sum fits a `u64` also with the amount, a
  -- transfer of an account to itself creates its amount out of nothing.
  pub self_transfer_mints :
      t.to ≡ t.from
      → total s.balances + t.amount < u64_mod
      → total s'.balances ≡ total s.balances + t.amount
  self_transfer_mints eq fits =
      let (le, e) = apply_transaction-eq in
      rw e (self_transfer_total s.balances t.from t.to t.amount h.ordered le eq fits)

-- What a transfer between two different accounts does to each account, where the balances are an
-- ordered map whose sum fits a `u64`: the sender gives the amount, the receiver gets it, and
-- nobody else's balance changes.
pub transfer-moves :
    (s : LedgerState) (signed : SignedTransaction) (i : AccountId) {s' : LedgerState}
    → IsBounded s
    → signed.transaction.to ≢ signed.transaction.from
    → apply_transaction s signed ≡ ok s'
    → balance_of s' i
        + (if account_eq i signed.transaction.from then signed.transaction.amount else 0)
      ≡ balance_of s i
        + (if account_eq i signed.transaction.to then signed.transaction.amount else 0)
unfolding balance_of
transfer-moves s signed i h ne applied =
    let t = signed.transaction in
    let (le, e) = apply_transaction-eq s signed h applied in
    rw e (credited_moves s.balances t.from t.to t.amount h.ordered le ne h.fits i)

-- Every transaction goes from one account to another.
abbrev pub MovesAway : List SignedTransaction → Type 0
MovesAway = All (λ signed. signed.transaction.to ≢ signed.transaction.from)

module _ (c : Crypto) where
  -- Where the balances are an ordered map whose sum fits a `u64`, applying transactions between
  -- different accounts keeps that sum, also where one of them is refused and the rest is left out,
  -- and the balances stay such a map.
  pub apply_transactions-total :
      (s : LedgerState) (txs : List SignedTransaction)
      → IsBounded s
      → MovesAway txs
      → (total (apply_transactions c s txs).1.balances ≡ total s.balances)
        × IsBounded (apply_transactions c s txs).1
  apply_transactions-total s txs h m =
      apply_transactions_keep c (λ s'. (total s'.balances ≡ total s.balances) × IsBounded s')
        (λ signed. signed.transaction.to ≢ signed.transaction.from)
        (λ s₁ signed s₂ (e, b) away _ applied.
          let (same, b') = transfer-IsBounded s₁ signed b applied away in (same ∙ e, b'))
        s txs (refl, h) m
