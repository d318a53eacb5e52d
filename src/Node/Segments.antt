-- ===== src/Node/Segments.antt =====
-- Incremental sync: the segment that a node cuts from its chain for a peer, and how the peer
-- aligns it to its own chain.
pub mod Aligned
use entangrid.Prelude.{
  ℕ, zero, suc, ◌+◌, ◌-◌, List, [], ◌∷◌, Option, none, some, Bool, not, ◌||◌, min, ◌==◌, ltb, leb,
  if◌then◌else◌, is_empty, length, get_elem?, take, drop, last, filter, map_option, unwrap_or,
  and_then, Result, ok, err, ◌>>=◌, ◌>>◌, bail_if,
}
use entangrid.Types.Records.{HashBytes, Block, RelayReceipt, StateSnapshot, ChainSegment}
use entangrid.Types.Encoding.{empty_hash}

abbrev pub max_incremental_sync_blocks : ℕ
max_incremental_sync_blocks = 64

-- The hash of the block before a height, or the empty hash.
abbrev pub hash_before : ℕ → List Block → Option HashBytes
hash_before height blocks =
    if height == 0
    then some empty_hash
    else map_option (λ b. b.block_hash) (get_elem? blocks (height - 1))

abbrev epoch_of : Option Block → ℕ
epoch_of block = unwrap_or (map_option (λ b. b.header.epoch) block) 0

-- The first epoch of which the segment has the receipts.
unfoldable pub earliest_receipt_epoch : List Block → ℕ → ℕ → ℕ
earliest_receipt_epoch blocks window_epochs known_height =
    min (epoch_of (last blocks) - (window_epochs - 1))
      ((if known_height == 0 then 0 else epoch_of (get_elem? blocks (known_height - 1))) - 1)

unfoldable pub build_chain_segment_from_chain :
    StateSnapshot → List Block → List RelayReceipt → ℕ → ℕ → HashBytes → ℕ → Option ChainSegment
unfolding earliest_receipt_epoch
build_chain_segment_from_chain target_snapshot blocks receipts window_epochs known_height
      known_tip_hash preferred_max_blocks =
    let missing_blocks = drop known_height blocks in
    if leb (length blocks) known_height
    then none
    else and_then (hash_before known_height blocks) λ expected_tip_hash.
      if not (expected_tip_hash == known_tip_hash)
      then none
      else if is_empty missing_blocks
          || ltb max_incremental_sync_blocks (length missing_blocks)
          || ltb preferred_max_blocks (length missing_blocks)
      then none
      else some (record {
        base_height = known_height;
        base_tip_hash = known_tip_hash;
        target_snapshot = target_snapshot;
        blocks = missing_blocks;
        receipts =
            filter
              (λ receipt.
                leb (earliest_receipt_epoch blocks window_epochs known_height) receipt.epoch)
              receipts;
        proposal_votes = [];
      })

-- The loop over the blocks that both sides should have, from an index of the local chain.
unfoldable pub check_overlap : List Block → ℕ → List Block → Result (Unit {0})
check_overlap local_blocks index [] = ok tt
check_overlap local_blocks index (block ∷ rest) =
    let next = check_overlap local_blocks (index + 1) rest in
    elim (get_elem? local_blocks index) [
      | none ↦ err "incremental sync missing local overlap"
      | some local_block ↦
          if not (local_block.block_hash == block.block_hash)
          then err "incremental sync diverged from local chain"
          else next
    ]

-- The end of the alignment, once the base is the local one.
unfoldable pub align_overlap : List Block → StateSnapshot → ChainSegment → Result ChainSegment
unfolding check_overlap
align_overlap local_blocks local_snapshot chain =
    let overlap = local_snapshot.height - chain.base_height in
    bail_if (ltb (length chain.blocks) overlap) "incremental sync missing local overlap"
    >> check_overlap local_blocks chain.base_height (take overlap chain.blocks)
    >> ok (record chain {
      base_height = local_snapshot.height;
      base_tip_hash = local_snapshot.tip_hash;
      blocks = drop overlap chain.blocks;
    })

unfoldable pub align_chain_segment_to_local_chain :
    List Block → StateSnapshot → ChainSegment → Result ChainSegment
unfolding align_overlap
align_chain_segment_to_local_chain local_blocks local_snapshot chain =
    if ltb local_snapshot.height chain.base_height
    then err "incremental sync height mismatch"
    else elim (hash_before chain.base_height local_blocks) [
      | none ↦ err "incremental sync missing local base block"
      | some expected_base_tip_hash ↦
          if not (expected_base_tip_hash == chain.base_tip_hash)
          then err "incremental sync tip mismatch"
          else if chain.base_height == local_snapshot.height
          then (if not (chain.base_tip_hash == local_snapshot.tip_hash)
              then err "incremental sync tip mismatch"
              else ok chain)
          else align_overlap local_blocks local_snapshot chain
    ]
