-- ===== src/Node/Chains/Termination.antt =====
-- The loop of `build_chain_to_tip` ends: it visits no block twice.
use entangrid.Prelude.{
  ℕ, zero, suc, ◌+◌, ◌<◌, ◌≡◌, ◌≢◌, refl, List, [], ◌∷◌, map, none, some, true, Option-cases,
  Bool-cases, inl, inr, arith, length, ◌==◌,
}
use entangrid.BTree.Key.{nat_key}
use entangrid.BTree.Map
use entangrid.BTree.Map.{BTreeMap}
use entangrid.BTree.Set
use entangrid.BTree.Set.{BTreeSet, contains}
use entangrid.BTree.Set.Laws.{IsAscending, insert-IsAscending, length-insert}
use entangrid.Quorum.{IsSubset, length-IsSubset, IsAscending-IsNodup, insert-IsSubset}
use entangrid.Quorum.Distinct.{contains-cons}
use entangrid.Types.Records.{HashBytes, Block}
use entangrid.Types.Encoding.{empty_hash}
use entangrid.Node.State.{NodeState, all_blocks}
use entangrid.Node.Chains.{index_blocks, walk_back}

abbrev hashes : BTreeMap HashBytes Block → List HashBytes
hashes by_hash = map (λ entry. entry.0) by_hash

contains-hashes :
    (m : BTreeMap HashBytes Block) (k : HashBytes) (b : Block)
    → Map.get m k ≡ some b
    → contains (hashes m) k ≡ true
unfolding Map.get
contains-hashes [] k b h = absurd (cc)
contains-hashes ((j, w) ∷ m) k b h =
    ground (arith, contains-cons (hashes m) j k, contains-hashes m k b)

length-hashes : (m : BTreeMap HashBytes Block) → length (hashes m) ≡ length m
length-hashes [] = refl
length-hashes (entry ∷ m) = omega (arith, length-hashes m)

module _ (by_hash : BTreeMap HashBytes Block) where
  -- The fuel covers the blocks that are left to visit.
  walk_back-finishes :
      (fuel : ℕ) (visited : BTreeSet HashBytes) (current : HashBytes) (chain : List Block)
      → IsAscending visited
      → IsSubset visited (hashes by_hash)
      → length by_hash < fuel + length visited
      → walk_back by_hash fuel visited current chain ≢ none
  unfolding walk_back
  walk_back-finishes zero visited current chain a s h = absurd (
      omega (
        arith,
        length-IsSubset visited (hashes by_hash) (IsAscending-IsNodup visited a) s,
        length-hashes by_hash,
      ))
  walk_back-finishes (suc fuel) visited current chain a s h =
      elim (Bool-cases (current == empty_hash)) [
        | inl stop ↦ rw stop (cc)
        | inr on ↦ elim (Bool-cases (contains visited current)) [
          | inl again ↦ rw (on, again) (cc)
          | inr new ↦ elim (Option-cases (Map.get by_hash current)) [
            | inl missing ↦ rw (on, new, missing) (cc)
            | inr (block, found) ↦
                rw (on, new, found)
                  (walk_back-finishes fuel (Set.insert visited current) block.header.parent_hash
                    (block ∷ chain) (insert-IsAscending visited current a)
                    (insert-IsSubset visited (hashes by_hash) current
                      (contains-hashes by_hash current block found) s)
                    (omega (arith, length-insert visited current new)))
          ]
        ]
      ]

-- In every state and for every tip the loop ends by itself, within one round for each known block
-- and one for the empty hash: a cycle of parents is noticed.
pub build_chain_to_tip-finishes :
    (s : NodeState) (tip_hash : HashBytes)
    → walk_back
        (index_blocks [] (all_blocks s))
        (suc (length (index_blocks [] (all_blocks s))))
        []
        tip_hash
        []
      ≢ none
build_chain_to_tip-finishes s tip_hash =
    walk_back-finishes (index_blocks [] (all_blocks s))
      (suc (length (index_blocks [] (all_blocks s)))) [] tip_hash [] tt tt (omega arith)
