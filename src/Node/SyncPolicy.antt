-- ===== src/Node/SyncPolicy.antt =====
-- Small decisions of the sync protocol: which snapshot is better, which requests are answered,
-- which anchors are kept.
pub mod Preference
pub mod Anchors
use Prim.Native.Nat.Ordering.{lt, eq, gt}
use entangrid.Prelude.{
  ℕ, ◌+◌, ◌-◌, List, [], ◌∷◌, ◌++◌, Option, none, some, Bool, true, false, not, ◌&&◌, ◌||◌, ◌==◌,
  ltb, leb, Ordering, compare, is_some, last, length, map_option, unwrap_or, option_eq, filter,
  take, if◌then◌else◌, u64_max,
}
use entangrid.BTree.Key.{nat_key, then_with}
use entangrid.BTree.Map
use entangrid.BTree.Map.{BTreeMap}
use entangrid.BTree.Set
use entangrid.BTree.Set.{BTreeSet, contains}
use entangrid.Types.Records.{
  ValidatorId, Epoch, HashBytes, Block, StateSnapshot, ProposalVote, SyncQcAnchor, ChainSnapshot,
  ChainSegment,
}
use entangrid.Types.Encoding.{Crypto, empty_hash}
use entangrid.Consensus.Engine.{ConsensusEngine, is_relay_target_for}
use entangrid.Node.State.{NodeState, highest_local_qc}
use entangrid.Node.Quality.{
  Quality, compare_quality, is_greater, pre_qc_tip_support_quality,
  branch_quality_with_extra_tip_vote,
}

unfoldable pub build_receipt_fetch_plan : ValidatorId → BTreeSet ValidatorId → List ValidatorId
build_receipt_fetch_plan requester_id peer_ids =
    filter (λ peer_id. not (peer_id == requester_id)) peer_ids

-- The tests of a set of triples go through its membership function.
unfoldable pub should_record_failed_session :
    Crypto
    → ConsensusEngine
    → BTreeSet ValidatorId
    → (Epoch → ValidatorId → ValidatorId → Bool)
    → Epoch
    → ValidatorId
    → ValidatorId
    → Bool
should_record_failed_session c e known_live_peers observed epoch validator_id peer_validator_id =
    if not (is_relay_target_for c e validator_id peer_validator_id epoch)
    then false
    else if not (contains known_live_peers peer_validator_id)
    then false
    else if observed epoch validator_id peer_validator_id
    then false
    else true

unfoldable pub sync_request_known_state : ℕ → HashBytes → Bool → ℕ × HashBytes
sync_request_known_state local_height local_tip_hash force_full_snapshot =
    if force_full_snapshot then (u64_max, empty_hash) else (local_height, local_tip_hash)

unfoldable pub is_force_full_snapshot_hint : ℕ → HashBytes → Bool
is_force_full_snapshot_hint known_height known_tip_hash =
    known_height == u64_max && known_tip_hash == empty_hash

unfoldable pub should_record_peer_sync_status : ℕ → HashBytes → Bool
unfolding is_force_full_snapshot_hint
should_record_peer_sync_status height tip_hash = not (is_force_full_snapshot_hint height tip_hash)

-- `INCREMENTAL_SYNC_FAILURES_BEFORE_FULL_SNAPSHOT`
unfoldable pub sync_repair_should_force_full_snapshot : ℕ → Bool
sync_repair_should_force_full_snapshot failure_count = leb 1 failure_count

-- The order of `merge_sync_qc_anchors`: higher blocks first, then greater hashes.
abbrev pub compare_anchors : SyncQcAnchor → SyncQcAnchor → Ordering
compare_anchors left right =
    then_with (compare right.block_number left.block_number)
      (compare right.block_hash left.block_hash)

-- `sort_by`, which is stable.
unfoldable pub insert_anchor : SyncQcAnchor → List SyncQcAnchor → List SyncQcAnchor
insert_anchor anchor [] = anchor ∷ []
insert_anchor anchor (first ∷ rest) =
    let later = insert_anchor anchor rest in
    if is_greater (compare_anchors anchor first) then first ∷ later else anchor ∷ first ∷ rest

unfoldable pub sort_anchors : List SyncQcAnchor → List SyncQcAnchor
unfolding insert_anchor
sort_anchors [] = []
sort_anchors (anchor ∷ rest) = insert_anchor anchor (sort_anchors rest)

-- `dedup_by`: an anchor with the hash of the one kept before it is dropped.
unfoldable pub dedup_after : SyncQcAnchor → List SyncQcAnchor → List SyncQcAnchor
dedup_after kept [] = []
dedup_after kept (anchor ∷ rest) =
    let same = dedup_after kept rest in
    let next = dedup_after anchor rest in
    if anchor.block_hash == kept.block_hash then same else anchor ∷ next

unfoldable pub dedup_anchors : List SyncQcAnchor → List SyncQcAnchor
unfolding dedup_after
dedup_anchors [] = []
dedup_anchors (anchor ∷ rest) = anchor ∷ dedup_after anchor rest

unfoldable pub merge_sync_qc_anchors : List SyncQcAnchor → List SyncQcAnchor → ℕ → List SyncQcAnchor
unfolding sort_anchors dedup_anchors
merge_sync_qc_anchors existing incoming limit =
    take limit (dedup_anchors (sort_anchors (existing ++ incoming)))

-- `SYNC_REQUEST_COOLDOWN_MILLIS`
abbrev pub sync_request_cooldown_millis : ℕ
sync_request_cooldown_millis = 1500

pub record ServedSyncRequest : Type 0 where
  pub known_height : ℕ
  pub known_tip_hash : HashBytes
  pub served_local_height : ℕ
  pub served_local_tip_hash : HashBytes
  pub served_local_highest_qc_height : ℕ
  pub served_local_highest_qc_hash : Option HashBytes
  pub served_at_unix_millis : ℕ

unfoldable pub sync_request_should_throttle :
    ServedSyncRequest → ℕ → ℕ → HashBytes → ℕ → HashBytes → ℕ → Option HashBytes → Bool
unfolding is_force_full_snapshot_hint
sync_request_should_throttle served now_unix_millis known_height known_tip_hash local_height
      local_tip_hash local_highest_qc_height local_highest_qc_hash =
    let anchored =
      local_highest_qc_height == known_height
      && option_eq local_highest_qc_hash (some known_tip_hash)
      && ltb local_highest_qc_height local_height in
    let advanced =
      ltb served.served_local_highest_qc_height local_highest_qc_height
      || (local_highest_qc_height == served.served_local_highest_qc_height
          && not (option_eq local_highest_qc_hash served.served_local_highest_qc_hash))
      || not (
          local_height == served.served_local_height
          && local_tip_hash == served.served_local_tip_hash) in
    if is_force_full_snapshot_hint known_height known_tip_hash
    then false
    else if anchored
    then false
    else if advanced
    then false
    else ltb (now_unix_millis - served.served_at_unix_millis) sync_request_cooldown_millis
      && served.known_height == known_height
      && served.known_tip_hash == known_tip_hash

-- `snapshot_preference`, compared as the source compares the tuples.
unfoldable pub compare_snapshots : StateSnapshot → StateSnapshot → Ordering
compare_snapshots a b =
    then_with (compare a.height b.height)
      (then_with (compare a.last_slot b.last_slot) (compare a.tip_hash b.tip_hash))

unfoldable pub should_adopt_snapshot : StateSnapshot → StateSnapshot → Bool
unfolding compare_snapshots
should_adopt_snapshot local remote = is_greater (compare_snapshots remote local)

unfoldable pub should_adopt_certified_snapshot : StateSnapshot → ℕ → StateSnapshot → ℕ → Bool
unfolding should_adopt_snapshot
should_adopt_certified_snapshot local local_highest_qc_height remote remote_highest_qc_height =
    if not (remote_highest_qc_height == local_highest_qc_height)
    then ltb local_highest_qc_height remote_highest_qc_height
    else should_adopt_snapshot local remote

-- The voters of each block: `entry(hash).or_default().insert(voter)`.
unfoldable pub vote_sets :
    BTreeMap HashBytes (BTreeSet ValidatorId)
    → List ProposalVote
    → BTreeMap HashBytes (BTreeSet ValidatorId)
vote_sets sets [] = sets
vote_sets sets (vote ∷ votes) =
    vote_sets
      (Map.insert sets vote.block_hash
        (Set.insert (unwrap_or (Map.get sets vote.block_hash) []) vote.validator_id))
      votes

unfoldable pub snapshot_branch_quality : List Block → List ProposalVote → Quality
unfolding vote_sets pre_qc_tip_support_quality
snapshot_branch_quality chain proposal_votes =
    let tip = last chain in
    let sets = vote_sets [] proposal_votes in
    let voters : Block → ℕ =
      λ block. unwrap_or (map_option (λ set. length set) (Map.get sets block.block_hash)) 0 in
    pre_qc_tip_support_quality (unwrap_or (map_option voters tip) 0)
      (unwrap_or (map_option (λ b. b.header.block_number) tip) 0)
      (unwrap_or (map_option (λ b. b.header.slot) tip) 0)
      (unwrap_or (map_option (λ b. b.block_hash) tip) empty_hash)

abbrev is_equal : Ordering → Bool
is_equal eq = true
is_equal _ = false

unfoldable pub should_adopt_chain_segment : NodeState → StateSnapshot → ChainSegment → Bool
unfolding should_adopt_snapshot highest_local_qc
should_adopt_chain_segment s local_snapshot chain =
    if should_adopt_snapshot local_snapshot chain.target_snapshot
    then true
    else if not s.consensus_v2
    then false
    else elim (highest_local_qc s) [
      | none ↦ false
      | some local_qc ↦
          ltb local_qc.block_number local_snapshot.height
          && chain.base_height == local_qc.block_number
          && chain.base_tip_hash == local_qc.block_hash
          && ltb local_qc.block_number chain.target_snapshot.height
          && not (is_equal (compare_snapshots chain.target_snapshot local_snapshot))
    ]

unfoldable pub should_adopt_chain_snapshot : NodeState → StateSnapshot → ChainSnapshot → Bool
unfolding should_adopt_snapshot snapshot_branch_quality
should_adopt_chain_snapshot s local_snapshot chain =
    if not s.consensus_v2 || is_some (highest_local_qc s)
    then should_adopt_snapshot local_snapshot chain.snapshot
    else is_greater (
        compare_quality (snapshot_branch_quality chain.blocks chain.proposal_votes)
          (branch_quality_with_extra_tip_vote s s.blocks none))

unfoldable pub should_push_local_snapshot_after_sync_response :
    NodeState → StateSnapshot → ChainSnapshot → Bool
unfolding should_adopt_snapshot snapshot_branch_quality
should_push_local_snapshot_after_sync_response s local_snapshot chain =
    if not s.consensus_v2 || is_some (highest_local_qc s)
    then should_adopt_snapshot chain.snapshot local_snapshot
    else is_greater (
        compare_quality (branch_quality_with_extra_tip_vote s s.blocks none)
          (snapshot_branch_quality chain.blocks chain.proposal_votes))
