-- ===== src/Node/Chains/Links.antt =====
-- What `build_chain_to_tip` returns.
use entangrid.Prelude.{
  ℕ, zero, suc, ◌≡◌, ◌≢◌, refl, ◌∙◌, sym, ap, subst, List, [], ◌∷◌, Option, none, some, true,
  Option-cases, Bool-cases, inl, inr, ◌⊎◌, arith, length, ◌==◌, ==_iff, All, last, map_option,
  add_u64,
}
use entangrid.BTree.Key.{nat_key}
use entangrid.BTree.Map
use entangrid.BTree.Map.{BTreeMap}
use entangrid.BTree.Map.Laws.{get-insert_self, get-insert_ne}
use entangrid.BTree.Set
use entangrid.BTree.Set.{BTreeSet, contains}
use entangrid.Types.Records.{HashBytes, Block}
use entangrid.Types.Encoding.{empty_hash}
use entangrid.Node.State.{NodeState, all_blocks}
use entangrid.Node.Chains.{
  index_blocks, walk_back, is_linked, checked_chain, build_chain_to_tip, has_block,
}

-- A chain from the block after `parent`, which has number `height`.
abbrev pub IsLinked : HashBytes → ℕ → List Block → Type 0
IsLinked parent height [] = Unit
IsLinked parent height (block ∷ rest) =
    (block.header.parent_hash ≡ parent)
    × (block.header.block_number ≡ height)
    × IsLinked block.block_hash (add_u64 height 1) rest

is_linked-IsLinked :
    (parent : HashBytes) (height : ℕ) (chain : List Block)
    → is_linked parent height chain ≡ true
    → IsLinked parent height chain
unfolding is_linked
is_linked-IsLinked parent height [] h = tt
is_linked-IsLinked parent height (b ∷ rest) h =
    ground (arith, is_linked-IsLinked b.block_hash (add_u64 height 1) rest)

-- The index gives a block of the list, under its own hash.
get-index_blocks :
    (bs : List Block) (m : BTreeMap HashBytes Block) (k : HashBytes) (b : Block)
    → Map.get (index_blocks m bs) k ≡ some b
    → (Map.get m k ≡ some b) ⊎ ((b.block_hash ≡ k) × (has_block k bs ≡ true))
unfolding index_blocks
get-index_blocks [] m k b h = inl h
get-index_blocks (x ∷ bs) m k b h = elim (get-index_blocks bs (Map.insert m x.block_hash x) k b h) [
  | inr (own, there) ↦ inr (own, ground arith)
  | inl here ↦ elim (Bool-cases (k == x.block_hash)) [
    | inl same ↦
        let p : k ≡ x.block_hash = (==_iff k x.block_hash).0 same in
        let here' : Map.get (Map.insert m x.block_hash x) x.block_hash ≡ some b =
          subst (λ z. Map.get (Map.insert m x.block_hash x) z ≡ some b) p here in
        let e : some x ≡ some b = sym (get-insert_self m x.block_hash x) ∙ here' in
        let own : b.block_hash ≡ k = ground arith in inr (own, ground arith)
    | inr other ↦ inl (sym (get-insert_ne m x.block_hash x k (ground arith)) ∙ here)
  ]
]

-- What every found block has, and `walk_back` keeps.
module _ {ℓ} (P : Block → Type ℓ) (by_hash : BTreeMap HashBytes Block)
    (found_P : (k : HashBytes) (b : Block) → Map.get by_hash k ≡ some b → P b) where
  -- The loop only puts blocks in front of what it has.
  walk_back-All :
      (fuel : ℕ) (visited : BTreeSet HashBytes) (current : HashBytes) (acc : List Block)
      {chain : List Block}
      → walk_back by_hash fuel visited current acc ≡ some (some chain)
      → All P acc
      → All P chain
  unfolding walk_back
  walk_back-All zero visited current acc h p = absurd (cc)
  walk_back-All (suc fuel) visited current acc {chain} h p =
      elim (Bool-cases (current == empty_hash)) [
        | inl stop ↦ let e : acc ≡ chain = ground arith in subst (λ c. All P c) e p
        | inr on ↦ elim (Option-cases (Map.get by_hash current)) [
          | inl missing ↦ absurd (ground arith)
          | inr (block, found) ↦
              walk_back-All fuel (Set.insert visited current) block.header.parent_hash (block ∷ acc)
                (ground arith) (found_P current block found, p)
        ]
      ]

-- The last block stays the last.
walk_back-last :
    (by_hash : BTreeMap HashBytes Block) (fuel : ℕ) (visited : BTreeSet HashBytes)
    (current : HashBytes) (b : Block) (acc : List Block) {chain : List Block}
    → walk_back by_hash fuel visited current (b ∷ acc) ≡ some (some chain)
    → last chain ≡ last (b ∷ acc)
unfolding walk_back
walk_back-last by_hash zero visited current b acc h = absurd (cc)
walk_back-last by_hash (suc fuel) visited current b acc {chain} h =
    elim (Bool-cases (current == empty_hash)) [
      | inl stop ↦ let e : b ∷ acc ≡ chain = ground arith in ap last (sym e)
      | inr on ↦ elim (Option-cases (Map.get by_hash current)) [
        | inl missing ↦ absurd (ground arith)
        | inr (block, found) ↦
            walk_back-last by_hash fuel (Set.insert visited current) block.header.parent_hash block
              (b ∷ acc) {chain = chain} (ground arith)
      ]
    ]

-- The tip is the last block.
walk_back-tip :
    (by_hash : BTreeMap HashBytes Block) (fuel : ℕ) (tip : HashBytes) {chain : List Block}
    → ((k : HashBytes) (b : Block) → Map.get by_hash k ≡ some b → b.block_hash ≡ k)
    → walk_back by_hash (suc fuel) [] tip [] ≡ some (some chain)
    → tip ≢ empty_hash
    → map_option (λ b. b.block_hash) (last chain) ≡ some tip
unfolding walk_back contains
walk_back-tip by_hash fuel tip {chain} own h ne = elim (Option-cases (Map.get by_hash tip)) [
  | inl missing ↦ absurd (ground arith)
  | inr (block, found) ↦
      let rest : walk_back by_hash fuel (Set.insert [] tip) block.header.parent_hash (block ∷ [])
          ≡ some (some chain) =
        ground arith in
      let l =
        walk_back-last by_hash fuel (Set.insert [] tip) block.header.parent_hash block [] rest in
      rw l (ap some (own tip block found))
]

-- A chain that `build_chain_to_tip` may return for the tip.
pub record IsChainTo (s : NodeState) (tip_hash : HashBytes) (chain : List Block) : Type 0 where
  pub linked : IsLinked empty_hash 1 chain
  pub known : All (λ b. has_block b.block_hash (all_blocks s) ≡ true) chain
  pub ends : tip_hash ≢ empty_hash → map_option (λ b. b.block_hash) (last chain) ≡ some tip_hash

checked_chain-some :
    (w : Option (Option (List Block))) {chain : List Block}
    → checked_chain w ≡ some chain
    → (w ≡ some (some chain)) × (is_linked empty_hash 1 chain ≡ true)
unfolding checked_chain
checked_chain-some none h = absurd (cc)
checked_chain-some (some none) h = absurd (cc)
checked_chain-some (some (some c)) {chain} h = elim (Bool-cases (is_linked empty_hash 1 c)) [
  | inl linked ↦
      let e : some c ≡ some chain = sym (rw linked refl) ∙ h in
      let e' : c ≡ chain = cc in (ap some e, subst (λ x. is_linked empty_hash 1 x ≡ true) e' linked)
  | inr broken ↦ absurd (cc (rw broken at h))
]

indexed :
    (s : NodeState) (k : HashBytes) (b : Block)
    → Map.get (index_blocks [] (all_blocks s)) k ≡ some b
    → (b.block_hash ≡ k) × (has_block b.block_hash (all_blocks s) ≡ true)
indexed s k b h = elim (get-index_blocks (all_blocks s) [] k b h) [
  | inl nothing ↦ absurd (unfold Map.get in cc nothing)
  | inr (own, there) ↦ (own, subst (λ z. has_block z (all_blocks s) ≡ true) (sym own) there)
]

-- A chain that is returned starts at the empty hash with number 1, links each block to the one
-- before and counts up, consists of known blocks, and ends in the tip.
pub build_chain_to_tip-IsChainTo :
    (s : NodeState) (tip_hash : HashBytes) {chain : List Block}
    → build_chain_to_tip s tip_hash ≡ some chain
    → IsChainTo s tip_hash chain
build_chain_to_tip-IsChainTo s tip_hash {chain} h =
    let by_hash = index_blocks [] (all_blocks s) in
    let (w, linked) =
      checked_chain-some (walk_back by_hash (suc (length by_hash)) [] tip_hash []) {chain = chain}
        (unfold build_chain_to_tip in h) in
    record {
      linked = is_linked-IsLinked empty_hash 1 chain linked;
      known =
          walk_back-All (λ b. has_block b.block_hash (all_blocks s) ≡ true) by_hash
            (λ k b p. (indexed s k b p).1) (suc (length by_hash)) [] tip_hash [] w tt;
      ends = walk_back-tip by_hash (length by_hash) tip_hash (λ k b p. (indexed s k b p).0) w;
    }
