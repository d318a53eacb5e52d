-- ===== src/Consensus/Engine.antt =====
-- Slots, epochs, proposers and the assignment of witnesses.
use entangrid.Prelude.{
  ℕ, zero, suc, ◌+◌, ◌-◌, ◌/◌, ◌%◌, List, [], ◌∷◌, ◌++◌, map, Option, none, some, Bool, false, min,
  max, leb, ◌==◌, if◌then◌else◌, length, get_elem?, take, drop, map_option, unwrap_or,
}
use entangrid.BTree.Key.{nat_key}
use entangrid.BTree.Map
use entangrid.BTree.Map.{BTreeMap}
use entangrid.BTree.Set.{contains}
use entangrid.Types.Records.{ValidatorId, Slot, Epoch, HashBytes, GenesisConfig, EpochAssignment}
use entangrid.Types.Encoding.{Crypto}
use entangrid.Types.Encoding.Words.{le_bytes, hash_bytes, leading_u64}

-- `sort_unstable` of numbers.
unfoldable pub insert_sorted : ℕ → List ℕ → List ℕ
insert_sorted x [] = x ∷ []
insert_sorted x (y ∷ ys) = let rest = insert_sorted x ys in if leb x y then x ∷ y ∷ ys else y ∷ rest

unfoldable pub sort : List ℕ → List ℕ
unfolding insert_sorted
sort [] = []
sort (x ∷ xs) = insert_sorted x (sort xs)

pub record ConsensusEngine : Type 0 where
  pub genesis : GenesisConfig
  pub validator_ids : List ValidatorId

-- `ConsensusEngine::new`
unfoldable pub new : GenesisConfig → ConsensusEngine
unfolding sort
new genesis = record {
  genesis = genesis;
  validator_ids = sort (map (λ v. v.validator_id) genesis.validators);
}

-- `saturating_sub` is `-` on ℕ.
unfoldable pub slot_at : ConsensusEngine → ℕ → Option Slot
slot_at e timestamp =
    let offset = timestamp - e.genesis.genesis_time_unix_millis in
    if e.genesis.slot_duration_millis == 0
    then none
    else some (offset / e.genesis.slot_duration_millis)

unfoldable pub epoch_for_slot : ConsensusEngine → Slot → Epoch
epoch_for_slot e slot =
    if e.genesis.slots_per_epoch == 0 then 0 else slot / e.genesis.slots_per_epoch

-- `rotate_left`
unfoldable pub rotate_left : List ValidatorId → ℕ → List ValidatorId
rotate_left ids n = drop n ids ++ take n ids

-- The loop over `offset` for the validator at `position`: `remaining` offsets from `offset` on.
unfoldable pub relations : List ValidatorId → ℕ → ValidatorId → ℕ → ℕ → List ValidatorId
relations rotated position validator_id offset zero = []
relations rotated position validator_id offset (suc remaining) =
    let rest = relations rotated position validator_id (suc offset) remaining in
    elim (get_elem? rotated ((position + offset) % length rotated)) [
      | none ↦ rest
      | some target ↦ if target == validator_id then rest else target ∷ rest
    ]

module _ (c : Crypto) (e : ConsensusEngine) where
  unfoldable pub epoch_seed : Epoch → HashBytes
  unfolding hash_bytes le_bytes
  epoch_seed epoch = c.hash_many (hash_bytes e.genesis.epoch_seed ∷ le_bytes 8 epoch ∷ [])

  unfoldable pub proposer_for_slot : Slot → Option ValidatorId
  unfolding epoch_seed epoch_for_slot leading_u64
  proposer_for_slot slot =
      let seed = epoch_seed (epoch_for_slot e slot) in
      let selection = c.hash_many (hash_bytes seed ∷ le_bytes 8 slot ∷ []) in
      get_elem? e.validator_ids (leading_u64 selection % length e.validator_ids)

  unfoldable pub rotated_ids : Epoch → List ValidatorId
  unfolding epoch_seed rotate_left leading_u64
  rotated_ids epoch =
      rotate_left e.validator_ids (leading_u64 (epoch_seed epoch) % max (length e.validator_ids) 1)

  -- `witness_count.min(rotated.len().saturating_sub(1))`
  abbrev pub max_relations : List ValidatorId → ℕ
  max_relations rotated = min e.genesis.witness_count (length rotated - 1)

  -- The assignment of the validator at `position`. The loop pushes each target to both lists.
  unfoldable pub assignment_at : Epoch → List ValidatorId → ℕ → ValidatorId → EpochAssignment
  unfolding relations
  assignment_at epoch rotated position validator_id =
      let targets = relations rotated position validator_id 1 (max_relations rotated) in
      record {
        epoch = epoch;
        validator_id = validator_id;
        witnesses = targets;
        relay_targets = targets;
      }

  -- The loop over the positions, with the validators that are left.
  unfoldable pub assign_from :
      Epoch
      → List ValidatorId
      → ℕ
      → List ValidatorId
      → BTreeMap ValidatorId EpochAssignment
      → BTreeMap ValidatorId EpochAssignment
  unfolding assignment_at
  assign_from epoch rotated position [] assignments = assignments
  assign_from epoch rotated position (validator_id ∷ rest) assignments =
      assign_from epoch rotated (suc position) rest
        (Map.insert assignments validator_id (assignment_at epoch rotated position validator_id))

  unfoldable pub assignments_for_epoch : Epoch → BTreeMap ValidatorId EpochAssignment
  unfolding assign_from rotated_ids
  assignments_for_epoch epoch = assign_from epoch (rotated_ids epoch) 0 (rotated_ids epoch) []

  -- `remove(&validator_id)` on the map, whose rest is dropped
  unfoldable pub assignment_for : Epoch → ValidatorId → Option EpochAssignment
  unfolding assignments_for_epoch
  assignment_for epoch validator_id = Map.get (assignments_for_epoch epoch) validator_id

  unfoldable pub is_witness_for : ValidatorId → ValidatorId → Epoch → Bool
  is_witness_for witness source epoch =
      unwrap_or (map_option (λ a. contains a.witnesses witness) (assignment_for epoch source)) false

  unfoldable pub is_relay_target_for : ValidatorId → ValidatorId → Epoch → Bool
  is_relay_target_for source destination epoch =
      unwrap_or
        (map_option (λ a. contains a.relay_targets destination) (assignment_for epoch source)) false
