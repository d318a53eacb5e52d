-- ===== src/Node/Segments/Aligned.antt =====
-- What is left of a segment after its alignment.
use entangrid.Prelude.{
  ℕ, zero, suc, ◌+◌, ◌-◌, ◌≤◌, ◌≡◌, refl, sym, ◌∙◌, ap, List, [], ◌∷◌, some, ◌==◌, length, take,
  drop, get_elem?, arith, map_option, ok, Bool-cases, Option-cases, inl, inr,
}
use entangrid.Types.Records.{HashBytes, Block, RelayReceipt, StateSnapshot, ChainSegment}
use entangrid.Node.Segments.{
  max_incremental_sync_blocks, hash_before, build_chain_segment_from_chain, check_overlap,
  align_overlap, align_chain_segment_to_local_chain,
}

drop-drop : {A : Type 0} (m n : ℕ) (xs : List A) → drop m (drop n xs) ≡ drop (n + m) xs
drop-drop m zero xs = let e : 0 + m ≡ m = omega arith in rw e refl
drop-drop zero (suc n) [] = let e : suc n + 0 ≡ suc n = omega arith in rw e refl
drop-drop (suc m) (suc n) [] = let e : suc n + suc m ≡ suc (suc (n + m)) = omega arith in rw e refl
drop-drop m (suc n) (x ∷ xs) =
    let e : suc n + m ≡ suc (n + m) = omega arith in rw e (drop-drop m n xs)

-- What a segment holds that a node cuts from a chain.
pub record IsCut (blocks : List Block) (known_height : ℕ) (known_tip_hash : HashBytes)
    (preferred_max_blocks : ℕ) (chain : ChainSegment) : Type 0 where
  pub base_height : chain.base_height ≡ known_height
  pub base_tip_hash : chain.base_tip_hash ≡ known_tip_hash
  pub known : hash_before known_height blocks ≡ some known_tip_hash
  pub cut : chain.blocks ≡ drop known_height blocks
  pub bounded : length chain.blocks ≤ max_incremental_sync_blocks
  pub preferred : length chain.blocks ≤ preferred_max_blocks

-- A segment is cut only for a peer whose height and tip are on the chain; it has all the blocks
-- after that height, and at most the two limits of them.
pub build_chain_segment_from_chain-IsCut :
    (target : StateSnapshot) (blocks : List Block) (receipts : List RelayReceipt)
    (window known_height : ℕ) (known_tip_hash : HashBytes) (preferred : ℕ) {chain : ChainSegment}
    → build_chain_segment_from_chain target blocks receipts window known_height known_tip_hash
        preferred
      ≡ some chain
    → IsCut blocks known_height known_tip_hash preferred chain
unfolding build_chain_segment_from_chain
build_chain_segment_from_chain-IsCut target blocks receipts window known_height known_tip_hash
      preferred {chain} h =
    elim (Option-cases (hash_before known_height blocks)) [
      | inl missing ↦ absurd (ground arith)
      | inr (expected, found) ↦ record {
        base_height = ground arith;
        base_tip_hash = ground arith;
        known = ground arith;
        cut = ground arith;
        bounded = ground arith;
        preferred = ground arith;
      }
    ]

-- The local chain has the blocks of the list from an index on.
abbrev pub Overlaps : List Block → ℕ → List Block → Type 0
Overlaps local_blocks index [] = Unit
Overlaps local_blocks index (block ∷ rest) =
    (map_option (λ b. b.block_hash) (get_elem? local_blocks index) ≡ some block.block_hash)
    × Overlaps local_blocks (index + 1) rest

check_overlap-cons :
    (local_blocks : List Block) (index : ℕ) (block : Block) (rest : List Block)
    → check_overlap local_blocks index (block ∷ rest) ≡ ok tt
    → (map_option (λ b. b.block_hash) (get_elem? local_blocks index) ≡ some block.block_hash)
      × (check_overlap local_blocks (index + 1) rest ≡ ok tt)
unfolding check_overlap
check_overlap-cons local_blocks index block rest h =
    elim (Option-cases (get_elem? local_blocks index)) [
      | inl missing ↦ absurd (ground arith)
      | inr (local_block, found) ↦
          let same : local_block.block_hash ≡ block.block_hash = ground arith in
          (rw (found, same) refl, ground arith)
    ]

check_overlap-Overlaps :
    (local_blocks : List Block) (index : ℕ) (blocks : List Block)
    → check_overlap local_blocks index blocks ≡ ok tt
    → Overlaps local_blocks index blocks
check_overlap-Overlaps local_blocks index [] h = tt
check_overlap-Overlaps local_blocks index (block ∷ rest) h =
    let (same, next) = check_overlap-cons local_blocks index block rest h in
    (same, check_overlap-Overlaps local_blocks (index + 1) rest next)

-- What an alignment leaves of a segment.
pub record IsAligned (local_blocks : List Block) (local_snapshot : StateSnapshot)
    (chain aligned : ChainSegment) : Type 0 where
  pub base_height : aligned.base_height ≡ local_snapshot.height
  pub base_tip_hash : aligned.base_tip_hash ≡ local_snapshot.tip_hash
  pub base_known : hash_before chain.base_height local_blocks ≡ some chain.base_tip_hash
  pub not_ahead : chain.base_height ≤ local_snapshot.height
  pub left : aligned.blocks ≡ drop (local_snapshot.height - chain.base_height) chain.blocks
  pub overlap :
      Overlaps local_blocks chain.base_height
        (take (local_snapshot.height - chain.base_height) chain.blocks)

module _ (local_blocks : List Block) (local_snapshot : StateSnapshot) (chain : ChainSegment) where
  same_base :
      {aligned : ChainSegment}
      → chain.base_height ≡ local_snapshot.height
      → chain.base_tip_hash ≡ local_snapshot.tip_hash
      → hash_before chain.base_height local_blocks ≡ some chain.base_tip_hash
      → aligned ≡ chain
      → IsAligned local_blocks local_snapshot chain aligned
  same_base {aligned} height tip known e =
      let zero_left : local_snapshot.height - chain.base_height ≡ 0 = omega arith in
      record {
        base_height = rw e height;
        base_tip_hash = rw e tip;
        base_known = known;
        not_ahead = omega arith;
        left = rw (zero_left, e) refl;
        overlap = rw zero_left tt;
      }

  lower_base :
      {aligned : ChainSegment}
      → chain.base_height ≤ local_snapshot.height
      → hash_before chain.base_height local_blocks ≡ some chain.base_tip_hash
      → align_overlap local_blocks local_snapshot chain ≡ ok aligned
      → IsAligned local_blocks local_snapshot chain aligned
  unfolding align_overlap
  lower_base {aligned} le known h =
      let n = local_snapshot.height - chain.base_height in
      let checked : check_overlap local_blocks chain.base_height (take n chain.blocks) ≡ ok tt =
        ground arith in
      record {
        base_height = ground arith;
        base_tip_hash = ground arith;
        base_known = known;
        not_ahead = le;
        left = ground arith;
        overlap =
            check_overlap-Overlaps local_blocks chain.base_height (take n chain.blocks) checked;
      }

  -- A segment that a node aligns to its chain starts at the node's height and tip afterwards.
  -- Its old base is on the node's chain, not above its height; the blocks up to the node's height
  -- are the ones that the node has, and they are what is dropped.
  pub align_chain_segment_to_local_chain-IsAligned :
      {aligned : ChainSegment}
      → align_chain_segment_to_local_chain local_blocks local_snapshot chain ≡ ok aligned
      → IsAligned local_blocks local_snapshot chain aligned
  unfolding align_chain_segment_to_local_chain
  align_chain_segment_to_local_chain-IsAligned {aligned} h =
      elim (Option-cases (hash_before chain.base_height local_blocks)) [
        | inl missing ↦ absurd (ground arith)
        | inr (expected, found) ↦
            let known : hash_before chain.base_height local_blocks ≡ some chain.base_tip_hash =
              ground arith in
            elim (Bool-cases (chain.base_height == local_snapshot.height)) [
              | inl same ↦
                  same_base {aligned = aligned} (ground arith) (ground arith) known (ground arith)
              | inr lower ↦ lower_base {aligned = aligned} (ground arith) known (ground arith)
            ]
      ]

-- From one node's chain to another's: a segment cut from a chain at a height that the other node
-- has reached, and aligned there, is that chain from the other node's height on.
pub aligned_cut :
    (target : StateSnapshot) (blocks local_blocks : List Block) (receipts : List RelayReceipt)
    (window known_height : ℕ) (known_tip_hash : HashBytes) (preferred : ℕ)
    (local_snapshot : StateSnapshot) {chain aligned : ChainSegment}
    → build_chain_segment_from_chain target blocks receipts window known_height known_tip_hash
        preferred
      ≡ some chain
    → align_chain_segment_to_local_chain local_blocks local_snapshot chain ≡ ok aligned
    → aligned.blocks ≡ drop local_snapshot.height blocks
aligned_cut target blocks local_blocks receipts window known_height known_tip_hash preferred
      local_snapshot {chain} {aligned} built h =
    let cut =
      build_chain_segment_from_chain-IsCut target blocks receipts window known_height known_tip_hash
        preferred built in
    let a = align_chain_segment_to_local_chain-IsAligned local_blocks local_snapshot chain h in
    let n = local_snapshot.height - chain.base_height in
    let height : chain.base_height + n ≡ local_snapshot.height = omega (arith, a.not_ahead) in
    let moved : drop n chain.blocks ≡ drop n (drop chain.base_height blocks) =
      ap (drop n) (cut.cut ∙ ap (λ k. drop k blocks) (sym cut.base_height)) in
    a.left ∙ moved ∙ drop-drop n chain.base_height blocks ∙ ap (λ k. drop k blocks) height
