-- ===== src/Consensus/Assignments.antt =====
-- Who is assigned to whom: every validator gets the same number of different witnesses.
use entangrid.Prelude.{
  ℕ, zero, suc, ◌+◌, ◌-◌, ◌<◌, ◌≡◌, ◌↔◌, refl, sym, ◌∙◌, ap, subst, List, [], ◌∷◌, true, false,
  some, none, arith, length, get_elem?, Bool-cases, inl, inr, min, ok,
}
use native.Mathlib.Nat.{add-zero, zero-add}
use entangrid.BTree.Key.{nat_key}
use entangrid.BTree.Set.{contains}
use entangrid.BTree.Map
use entangrid.BTree.Map.{BTreeMap}
use entangrid.BTree.Map.Laws.{get-insert_self, get-insert_ne}
use entangrid.Quorum.{IsNodup, IsSubset}
use entangrid.Quorum.Distinct.{contains-cons, contains-nil, index_of_contains, get_elem?-lt}
use entangrid.Types.Records.{ValidatorId, Epoch, EpochAssignment, RelayReceipt}
use entangrid.Types.Encoding.{Crypto}
use entangrid.Consensus.Engine.{
  ConsensusEngine, new, relations, max_relations, rotated_ids, assignment_at, assign_from,
  assignments_for_epoch, assignment_for, is_witness_for, is_relay_target_for, epoch_for_slot,
}
use entangrid.Consensus.Committee.{service_committee_for}
use entangrid.Consensus.Receipts.{validate_receipt_assignment}
use entangrid.Consensus.Rotation.{
  relations-IsPicked, rotate_left-IsNodup, length-rotate_left, contains-rotate_left,
}

module _ (c : Crypto) (e : ConsensusEngine) (epoch : Epoch) (rotated : List ValidatorId) where
  get-assign_from_absent :
      (pos : ℕ) (rest : List ValidatorId) (m : BTreeMap ValidatorId EpochAssignment)
      (v : ValidatorId)
      → contains rest v ≡ false
      → Map.get (assign_from c e epoch rotated pos rest m) v ≡ Map.get m v
  unfolding assign_from
  get-assign_from_absent pos [] m v h = refl
  get-assign_from_absent pos (x ∷ rest) m v h =
      get-assign_from_absent (suc pos) rest (Map.insert m x (assignment_at c e epoch rotated pos x))
        v (ground (arith, contains-cons rest x v))
      ∙ get-insert_ne m x (assignment_at c e epoch rotated pos x) v
          (ground (arith, contains-cons rest x v))

  get-assign_from :
      (pos i : ℕ) (rest : List ValidatorId) (m : BTreeMap ValidatorId EpochAssignment)
      (v : ValidatorId)
      → IsNodup rest
      → get_elem? rest i ≡ some v
      → Map.get (assign_from c e epoch rotated pos rest m) v
        ≡ some (assignment_at c e epoch rotated (pos + i) v)
  unfolding assign_from
  get-assign_from pos i [] m v n h = absurd (cc)
  get-assign_from pos zero (x ∷ rest) m v (new, n) h =
      let same : x ≡ v = ground arith in
      let next = Map.insert m x (assignment_at c e epoch rotated pos x) in
      let absent : contains rest v ≡ false = subst (λ y. contains rest y ≡ false) same new in
      let stays = get-assign_from_absent (suc pos) rest next v absent in
      let wrote : Map.get next v ≡ some (assignment_at c e epoch rotated pos v) =
        subst
          (λ y.
            Map.get (Map.insert m y (assignment_at c e epoch rotated pos y)) v
            ≡ some (assignment_at c e epoch rotated pos v))
          (sym same) (get-insert_self m v (assignment_at c e epoch rotated pos v)) in
      rw add-zero (stays ∙ wrote)
  get-assign_from pos (suc i) (x ∷ rest) m v (new, n) h =
      let ih =
        get-assign_from (suc pos) i rest (Map.insert m x (assignment_at c e epoch rotated pos x)) v
          n h in
      let shift : suc pos + i ≡ pos + suc i = omega arith in rw (← shift) ih

-- An assignment of the kind that the epoch's loop makes.
pub record IsFairAssignment (ids : List ValidatorId) (witness_count : ℕ) (v : ValidatorId)
    (a : EpochAssignment) : Type 0 where
  pub owner : a.validator_id ≡ v
  pub counted : length a.witnesses ≡ min witness_count (length ids - 1)
  pub different : IsNodup a.witnesses
  pub others : contains a.witnesses v ≡ false
  pub members : IsSubset a.witnesses ids
  pub aligned : a.relay_targets ≡ a.witnesses

subset_trans :
    (xs ys zs : List ℕ)
    → ((z : ℕ) → contains ys z ≡ contains zs z)
    → IsSubset xs ys
    → IsSubset xs zs
subset_trans [] ys zs f s = tt
subset_trans (x ∷ xs) ys zs f (m, s) = (sym (f x) ∙ m, subset_trans xs ys zs f s)

module _ (c : Crypto) (e : ConsensusEngine) (epoch : Epoch) (v w : ValidatorId) where
  committee_at :
      (a : EpochAssignment)
      → assignment_for c e epoch v ≡ some a
      → a.relay_targets ≡ a.witnesses
      → (is_witness_for c e w v epoch ≡ contains (service_committee_for c e epoch v) w)
        × (is_relay_target_for c e v w epoch ≡ contains (service_committee_for c e epoch v) w)
  unfolding is_witness_for is_relay_target_for service_committee_for
  committee_at a found aligned = (rw found refl, rw (found, aligned) refl)

  no_committee :
      assignment_for c e epoch v ≡ none
      → (is_witness_for c e w v epoch ≡ contains (service_committee_for c e epoch v) w)
        × (is_relay_target_for c e v w epoch ≡ contains (service_committee_for c e epoch v) w)
  unfolding is_witness_for is_relay_target_for service_committee_for
  no_committee missing = (rw missing (sym (contains-nil w)), rw missing (sym (contains-nil w)))

module _ (c : Crypto) (e : ConsensusEngine) (distinct : IsNodup e.validator_ids) (epoch : Epoch)
    (v : ValidatorId) where
  -- Where the validators' numbers are pairwise different, every validator has in every epoch an
  -- assignment: pairwise different validators other than itself, `witness_count` of them or all
  -- others if there are fewer, which are both its witnesses and its relay targets.
  pub assignment_for-IsFair :
      contains e.validator_ids v ≡ true
      → (a : EpochAssignment) × (assignment_for c e epoch v ≡ some a)
        × IsFairAssignment e.validator_ids e.genesis.witness_count v a
  unfolding assignment_for
  assignment_for-IsFair member =
      let ids = e.validator_ids in
      let rotated = rotated_ids c e epoch in
      let n : IsNodup rotated = rotate_left-IsNodup ids _ distinct in
      let len : length rotated ≡ length ids = length-rotate_left ids _ in
      let same : (z : ℕ) → contains rotated z ≡ contains ids z =
        λ z. contains-rotate_left ids _ z in
      let (p, own) = index_of_contains rotated v (same v ∙ member) in
      let below : p < length rotated = get_elem?-lt rotated p v own in
      let k = max_relations c e rotated in
      let picked = relations-IsPicked rotated n p v own below 1 k (omega arith) (omega arith) in
      (
        assignment_at c e epoch rotated p v,
        subst
            (λ q.
              Map.get (assignments_for_epoch c e epoch) v
              ≡ some (assignment_at c e epoch rotated q v))
            (zero-add p) (get-assign_from c e epoch rotated 0 p rotated [] v n own),
        record {
          owner = refl;
          counted = picked.counted ∙ ap (λ l. min e.genesis.witness_count (l - 1)) len;
          different = picked.different;
          others = picked.others;
          members = subset_trans (relations rotated p v 1 k) rotated ids same picked.members;
          aligned = refl;
        },
      )

  -- A validator that the genesis does not name has no assignment.
  assignment_for-none : contains e.validator_ids v ≡ false → assignment_for c e epoch v ≡ none
  unfolding assignment_for Map.get
  assignment_for-none absent =
      get-assign_from_absent c e epoch (rotated_ids c e epoch) 0 (rotated_ids c e epoch) [] v
        (unfold rotated_ids in contains-rotate_left e.validator_ids _ v ∙ absent)

  -- Witnesses and relay targets of a validator are the members of its service committee.
  is_assigned :
      (w : ValidatorId)
      → (is_witness_for c e w v epoch ≡ contains (service_committee_for c e epoch v) w)
        × (is_relay_target_for c e v w epoch ≡ contains (service_committee_for c e epoch v) w)
  is_assigned w = elim (Bool-cases (contains e.validator_ids v)) [
    | inl member ↦
        let (a, found, fair) = assignment_for-IsFair member in
        committee_at c e epoch v w a found fair.aligned
    | inr absent ↦ no_committee c e epoch v w (assignment_for-none absent)
  ]

-- Where the validators' numbers are pairwise different, a receipt may be claimed exactly if its
-- epoch is that of its slot, and its witness and its destination are both in the service committee
-- of its source.
pub validate_receipt_assignment_iff :
    (c : Crypto) (e : ConsensusEngine) (r : RelayReceipt)
    → IsNodup e.validator_ids
    → (validate_receipt_assignment c e r ≡ ok tt) ↔ (
        (epoch_for_slot e r.slot ≡ r.epoch)
        × (contains (service_committee_for c e r.epoch r.source_validator_id) r.witness_validator_id
            ≡ true)
        × (contains
              (service_committee_for c e r.epoch r.source_validator_id)
              r.destination_validator_id
            ≡ true))
unfolding validate_receipt_assignment
validate_receipt_assignment_iff c e r distinct =
    let w = is_assigned c e distinct r.epoch r.source_validator_id r.witness_validator_id in
    let d = is_assigned c e distinct r.epoch r.source_validator_id r.destination_validator_id in
    ground (arith, w.0, d.1)
