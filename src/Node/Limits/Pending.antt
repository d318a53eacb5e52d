-- ===== src/Node/Limits/Pending.antt =====
-- The slots that a tick has to process.
use entangrid.Prelude.{
  ℕ, zero, suc, ◌+◌, ◌-◌, ◌<◌, ◌≡◌, ◌↔◌, ◌⊎◌, inl, inr, Bool-cases, true, ◌&&◌, some, leb, ltb,
  arith,
}
use entangrid.BTree.Key.{nat_key}
use entangrid.BTree.Set.{contains}
use entangrid.Quorum.{IsNodup}
use entangrid.Node.Limits.{range, pending_slots_to_process}

contains-range : (n first s : ℕ) → contains (range n first) s ≡ (leb first s && ltb s (first + n))
unfolding contains range
contains-range zero first s = ground arith
contains-range (suc n) first s = ground (arith, contains-range n (first + 1) s)

range-IsNodup : (n first : ℕ) → IsNodup (range n first)
unfolding range
range-IsNodup zero first = tt
range-IsNodup (suc n) first =
    (ground (arith, contains-range n (first + 1) first), range-IsNodup n (first + 1))

-- After a slot that was processed, the pending slots are exactly the current one and the slots
-- between the processed one and it, each of them once: the current slot alone where the processed
-- one is not before it.
pub pending_slots_to_process-exact :
    (previous_slot current_slot s : ℕ)
    → ((contains (pending_slots_to_process (some previous_slot) current_slot) s ≡ true)
        ↔ ((s ≡ current_slot) ⊎ ((previous_slot < s) × (s < current_slot))))
      × IsNodup (pending_slots_to_process (some previous_slot) current_slot)
unfolding pending_slots_to_process range
pending_slots_to_process-exact previous_slot current_slot s =
    let n = current_slot - previous_slot in
    let inside = contains-range n (previous_slot + 1) s in
    elim (Bool-cases (leb current_slot previous_slot)) [
      | inl early ↦
          let alone = contains-range 1 current_slot s in
          rw early (
            ((λ h. ground (arith, alone)), (λ h. ground (arith, alone))),
            range-IsNodup 1 current_slot,
          )
      | inr late ↦ rw late (
        ((λ h. ground (arith, inside)), (λ h. ground (arith, inside))),
        range-IsNodup n (previous_slot + 1),
      )
    ]
