-- ===== src/Consensus/Slots.antt =====
-- Slots in time, and the proposer of a slot.
use native.Mathlib.Nat.{mod-lt, div-add-mod}
use entangrid.Prelude.{
  ℕ, suc, ◌+◌, ◌*◌, ◌-◌, ◌/◌, ◌%◌, ◌<◌, ◌≤◌, ◌≡◌, ◌↔◌, ◌∙◌, sym, refl, List, [], ◌∷◌, map, Option,
  some, Bool, true, false, arith, length, ◌&&◌, ok, unwrap_or, get_elem?,
}
use entangrid.BTree.Key.{nat_key}
use entangrid.BTree.Set.{contains}
use entangrid.Quorum.Distinct.{get_elem?-some, contains-get_elem?}
use entangrid.Types.Records.{
  Slot, HashBytes, F64, Block, GenesisConfig, ValidatorConfig, ValidatorId,
}
use entangrid.Types.Encoding.{Crypto}
use entangrid.Types.Floats.{Floats, f64_zero}
use entangrid.Consensus.Engine.{
  ConsensusEngine, new, slot_at, proposer_for_slot, sort, insert_sorted,
}
use entangrid.Consensus.Rotation.{contains-sort}
use entangrid.Consensus.Score.{validate_block_basic}

-- From the genesis time on, the slot of a time is the one whose interval of `slot_duration_millis`
-- holds the time.
pub slot_at_interval :
    (e : ConsensusEngine) (t s : ℕ)
    → slot_at e t ≡ some s
    → e.genesis.genesis_time_unix_millis ≤ t
    → (e.genesis.genesis_time_unix_millis + e.genesis.slot_duration_millis * s ≤ t)
      × (t < e.genesis.genesis_time_unix_millis + e.genesis.slot_duration_millis * (s + 1))
unfolding slot_at
slot_at_interval e t s h started =
    let d = e.genesis.slot_duration_millis in
    let offset = t - e.genesis.genesis_time_unix_millis in
    let at : s ≡ offset / d = ground arith in
    let pos : 0 < d = ground arith in rw at (omega (arith, div-add-mod offset d, mod-lt offset pos))

length-insert_sorted : (x : ℕ) (xs : List ℕ) → length (insert_sorted x xs) ≡ suc (length xs)
unfolding insert_sorted
length-insert_sorted x [] = refl
length-insert_sorted x (y ∷ ys) = ground (arith, length-insert_sorted x ys)

length-sort : (xs : List ℕ) → length (sort xs) ≡ length xs
unfolding sort
length-sort [] = refl
length-sort (x ∷ xs) = omega (arith, length-insert_sorted x (sort xs), length-sort xs)

length-ids : (ws : List ValidatorConfig) → length (map (λ w. w.validator_id) ws) ≡ length ws
length-ids [] = refl
length-ids (w ∷ ws) = omega (arith, length-ids ws)

-- A number picks a member of a list that is not empty.
pick :
    (ids : List ℕ) (n : ℕ)
    → 0 < length ids
    → (v : ℕ) × (get_elem? ids (n % length ids) ≡ some v) × (contains ids v ≡ true)
pick ids n h =
    let (v, found) = get_elem?-some ids (n % length ids) (mod-lt n h) in
    (v, found, contains-get_elem? ids (n % length ids) v found)

-- If the genesis names a validator, every slot has a proposer, which is one of those named.
pub proposer_for_slot-member :
    (c : Crypto) (genesis : GenesisConfig) (slot : Slot)
    → 0 < length genesis.validators
    → (v : ValidatorId) × (proposer_for_slot c (new genesis) slot ≡ some v)
      × (contains (map (λ w. w.validator_id) genesis.validators) v ≡ true)
unfolding proposer_for_slot new
proposer_for_slot-member c genesis slot h =
    let ws = map (λ w. w.validator_id) genesis.validators in
    let (v, found, member) =
      pick (sort ws) _ (omega (arith, length-sort ws, length-ids genesis.validators)) in
    (v, found, sym (contains-sort ws v) ∙ member)

-- A block passes `validate_block_basic` exactly if it comes from the proposer of its slot, its
-- parent is the expected one, and, where the gate is on, the score is not below the threshold.
pub validate_block_basic_iff :
    (f : Floats) (c : Crypto) (e : ConsensusEngine) (block : Block) (parent : HashBytes)
    (score : Option F64) (gating : Bool) (threshold : F64)
    → (validate_block_basic f c e block parent score gating threshold ≡ some (ok tt)) ↔ (
        (proposer_for_slot c e block.header.slot ≡ some block.header.proposer_id)
        × (block.header.parent_hash ≡ parent)
        × ((gating && f.lt (unwrap_or score f64_zero) threshold) ≡ false))
unfolding validate_block_basic
validate_block_basic_iff f c e block parent score gating threshold = ground arith
