-- ===== src/Node/Acceptance/Known.antt =====
-- Known blocks and the certified head, as lookups in lists.
use entangrid.Prelude.{
  List, [], ◌∷◌, Option, none, some, Bool, true, ◌&&◌, ◌||◌, ◌==◌, ◌≡◌, refl, inl, inr, arith,
  Bool-cases, Option-cases, is_some, ◌++◌, find, any, reverse,
}
use entangrid.BTree.Key.{nat_key}
use entangrid.BTree.Map
use entangrid.BTree.Map.{values}
use entangrid.Types.Records.{HashBytes, Block}
use entangrid.Node.State.{
  NodeState, all_blocks, known_block, current_certified_head, certified_height,
  highest_locked_qc_hash, is_certified, or_else, certified_head_only_active,
}
use entangrid.Node.Chains.{has_block}
use entangrid.Node.Adoption.Keeps.{has_block-append}

pub and-left : (a b : Bool) → (a && b) ≡ true → a ≡ true
and-left a b h = ground arith

find-some {ℓ} :
    {A : Type ℓ} (p : A → Bool) (xs : List A) {x : A}
    → find p xs ≡ some x
    → (p x ≡ true) × (any p xs ≡ true)
find-some p [] {x} h = cc
find-some p (y ∷ ys) {x} h = elim (Bool-cases (p y)) [
  | inl here ↦ let same : y ≡ x = cc (rw here at h) in (rw (← same) here, rw here refl)
  | inr there ↦ ground (arith, find-some p ys {x = x})
]

pub is_some-find {ℓ} : {A : Type ℓ} (p : A → Bool) (xs : List A) → is_some (find p xs) ≡ any p xs
is_some-find p [] = refl
is_some-find p (x ∷ xs) = ground (arith, is_some-find p xs)

pub is_some-or_else {ℓ} :
    {A : Type ℓ} (a b : Option A) → is_some (or_else a b) ≡ (is_some a || is_some b)
is_some-or_else none b = refl
is_some-or_else (some a) b = refl

pub known_block-has_block :
    (s : NodeState) (hash : HashBytes)
    → is_some (known_block s hash) ≡ true
    → has_block hash (all_blocks s) ≡ true
unfolding known_block
known_block-has_block s hash h =
    let p : Block → Bool = λ b. b.block_hash == hash in
    let pending = s.pending_certified_children in
    ground (
      arith,
      h,
      has_block-append hash s.blocks (pending ++ s.orphan_blocks),
      has_block-append hash pending s.orphan_blocks,
      is_some-or_else (find p s.blocks) (or_else (find p pending) (find p s.orphan_blocks)),
      is_some-or_else (find p pending) (find p s.orphan_blocks),
      is_some-find p s.blocks,
      is_some-find p pending,
      is_some-find p s.orphan_blocks,
    )

-- The locked block has a certificate, and so a height.
certified_height-some :
    (s : NodeState) (hash : HashBytes)
    → Map.contains_key s.quorum_certificates hash ≡ true
    → certified_height s hash ≡ none
    → ⊥
unfolding certified_height
certified_height-some s hash h k = ground (arith, Option-cases (Map.get s.quorum_certificates hash))

pub head_of_certified_only :
    (s : NodeState) → certified_head_only_active s ≡ true → current_certified_head s ≡ none → ⊥
unfolding certified_head_only_active current_certified_head highest_locked_qc_hash
head_of_certified_only s active no_head =
    elim (Option-cases (find (is_certified s) (reverse s.blocks))) [
      | inl nothing ↦ ground (arith)
      | inr (block, found) ↦
          let certified = (find-some (is_certified s) (reverse s.blocks) found).0 in
          elim (Option-cases (certified_height s block.block_hash)) [
            | inl no_height ↦ certified_height-some s block.block_hash certified no_height
            | inr (height, at) ↦ ground (arith)
          ]
    ]
