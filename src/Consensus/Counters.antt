-- ===== src/Consensus/Counters.antt =====
-- Bounds on what the counters of an epoch can claim.
use native.Mathlib.Nat.{mod-lt, div-add-mod, add-zero}
use entangrid.Prelude.{
  ℕ, zero, suc, ◌+◌, ◌*◌, ◌/◌, ◌<◌, ◌≤◌, ◌≡◌, refl, List, [], ◌∷◌, true, All, arith, length,
  add_u64,
}
use entangrid.BTree.Key.{nat_key}
use entangrid.BTree.Set
use entangrid.BTree.Set.{BTreeSet, contains}
use entangrid.BTree.Set.Laws.{IsAscending, insert-IsAscending, length-insert-le}
use entangrid.Quorum.{IsSubset, length-IsSubset, IsAscending-IsNodup}
use entangrid.Types.Records.{ValidatorId, Epoch, RelayReceipt, ServiceCounters}
use entangrid.Types.Encoding.{Crypto}
use entangrid.Consensus.Engine.{ConsensusEngine, epoch_for_slot}
use entangrid.Consensus.Receipts.{
  Tally, no_tally, tally_receipt, tally_receipts, counters_from_receipts,
}

range : ℕ → ℕ → List ℕ
range a zero = []
range a (suc n) = a ∷ range (suc a) n

contains-range : (a n x : ℕ) → a ≤ x → x < a + n → contains (range a n) x ≡ true
unfolding range contains
contains-range a zero x h k = absurd (omega arith)
contains-range a (suc n) x h k = ground (arith, contains-range (suc a) n x)

length-range : (a n : ℕ) → length (range a n) ≡ n
unfolding range
length-range a zero = refl
length-range a (suc n) = omega (arith, length-range (suc a) n)

abbrev IsWithin : ℕ → ℕ → BTreeSet ℕ → Type 0
IsWithin a n s = All (λ x. (a ≤ x) × (x < a + n)) s

insert-IsWithin :
    (a n : ℕ) (s : BTreeSet ℕ) (k : ℕ)
    → a ≤ k
    → k < a + n
    → IsWithin a n s
    → IsWithin a n (Set.insert s k)
unfolding Set.insert
insert-IsWithin a n [] k p q h = ((p, q), tt)
insert-IsWithin a n (j ∷ s) k p q h = ground (arith, insert-IsWithin a n s k p q)

IsWithin-IsSubset : (a n : ℕ) (s : BTreeSet ℕ) → IsWithin a n s → IsSubset s (range a n)
IsWithin-IsSubset a n [] h = tt
IsWithin-IsSubset a n (x ∷ s) ((p, q), h) = (contains-range a n x p q, IsWithin-IsSubset a n s h)

-- What the loop keeps, `k` rounds in, when all slots lie in an interval of `n` slots from `a` on.
record IsTally (a n k : ℕ) (t : Tally) : Type 0 where
  ascending : IsAscending t.heartbeat_slots
  within : IsWithin a n t.heartbeat_slots
  timely : t.timely_deliveries ≤ k
  peers : length t.distinct_peers ≤ k

add_one_le : (x k : ℕ) → x ≤ k → add_u64 x 1 ≤ suc k
add_one_le x k h = omega arith

module _ (e : ConsensusEngine) (a n : ℕ) where
  tally_receipt-IsTally :
      (k : ℕ) (t : Tally) (r : RelayReceipt)
      → a ≤ r.slot
      → r.slot < a + n
      → IsTally a n k t
      → IsTally a n (suc k) (tally_receipt e t r)
  unfolding tally_receipt
  tally_receipt-IsTally k t r p q h = record {
    ascending =
        ground (arith, insert-IsAscending t.heartbeat_slots r.slot h.ascending, h.ascending);
    within = ground (arith, insert-IsWithin a n t.heartbeat_slots r.slot p q h.within, h.within);
    timely = ground (arith, add_one_le t.timely_deliveries k h.timely);
    peers = omega (arith, length-insert-le t.distinct_peers r.destination_validator_id);
  }

  tally_receipts-IsTally :
      (k : ℕ) (t : Tally) (rs : List RelayReceipt)
      → All (λ r. (a ≤ r.slot) × (r.slot < a + n)) rs
      → IsTally a n k t
      → IsTally a n (k + length rs) (tally_receipts e t rs)
  unfolding tally_receipts
  tally_receipts-IsTally k t [] i h = rw add-zero h
  tally_receipts-IsTally k t (r ∷ rs) ((p, q), i) h =
      let shift : suc k + length rs ≡ k + suc (length rs) = omega arith in
      rw (← shift) (
        tally_receipts-IsTally (suc k) (tally_receipt e t r) rs i
          (tally_receipt-IsTally k t r p q h))

-- The slots of an epoch.
epoch_slots :
    (e : ConsensusEngine) (epoch slot : ℕ)
    → 0 < e.genesis.slots_per_epoch
    → epoch_for_slot e slot ≡ epoch
    → (e.genesis.slots_per_epoch * epoch ≤ slot)
      × (slot < e.genesis.slots_per_epoch * epoch + e.genesis.slots_per_epoch)
unfolding epoch_for_slot
epoch_slots e epoch slot pos h =
    let s = e.genesis.slots_per_epoch in
    let at : epoch ≡ slot / s = ground arith in
    rw at (omega (arith, div-add-mod slot s, mod-lt slot pos))

-- What an epoch's counters can claim at most.
pub record IsPlausible (receipts : List RelayReceipt) (n : ServiceCounters) : Type 0 where
  pub uptime : n.uptime_windows ≤ n.total_windows
  pub timely : n.timely_deliveries ≤ length receipts
  pub peers : n.distinct_peers ≤ length receipts
  pub windows : 0 < n.total_windows
  pub deliveries : 0 < n.expected_deliveries
  pub expected : 0 < n.expected_peers

All-within :
    (e : ConsensusEngine) (epoch : Epoch) (rs : List RelayReceipt)
    → 0 < e.genesis.slots_per_epoch
    → All (λ r. epoch_for_slot e r.slot ≡ epoch) rs
    → All
        (λ r.
          (e.genesis.slots_per_epoch * epoch ≤ r.slot)
          × (r.slot < e.genesis.slots_per_epoch * epoch + e.genesis.slots_per_epoch))
        rs
All-within e epoch [] pos h = tt
All-within e epoch (r ∷ rs) pos (p, h) =
    (epoch_slots e epoch r.slot pos p, All-within e epoch rs pos h)

-- Where an epoch has slots, the counters made of receipts whose slots lie in the epoch never claim
-- more heartbeat windows than the epoch has slots, nor more timely deliveries or peers than there
-- are receipts; and no ratio of the score divides by zero.
pub counters_from_receipts-IsPlausible :
    (c : Crypto) (e : ConsensusEngine) (v : ValidatorId) (epoch : Epoch)
    (receipts : List RelayReceipt) (failed invalid : ℕ)
    → 0 < e.genesis.slots_per_epoch
    → All (λ r. epoch_for_slot e r.slot ≡ epoch) receipts
    → IsPlausible receipts (counters_from_receipts c e v epoch receipts failed invalid)
unfolding counters_from_receipts
counters_from_receipts-IsPlausible c e v epoch receipts failed invalid pos h =
    let s = e.genesis.slots_per_epoch in
    let a = s * epoch in
    let start : IsTally a s 0 no_tally = record {
      ascending = tt;
      within = tt;
      timely = omega arith;
      peers = omega arith;
    } in
    let t =
      tally_receipts-IsTally e a s 0 no_tally receipts (All-within e epoch receipts pos h) start in
    let slots = (tally_receipts e no_tally receipts).heartbeat_slots in
    let fits =
      length-IsSubset slots (range a s) (IsAscending-IsNodup slots t.ascending)
        (IsWithin-IsSubset a s slots t.within) in
    record {
      uptime = omega (arith, fits, length-range a s);
      timely = omega (arith, t.timely);
      peers = omega (arith, t.peers);
      windows = omega arith;
      deliveries = omega arith;
      expected = omega arith;
    }
