-- ===== src/Node/State/Recovery.antt =====
-- `recovery_sync_only_active`: while the node starts and a peer is ahead of it, by the state that
-- the node has at the time of the call.
use entangrid.Prelude.{
  ℕ, Option, some, none, Bool, false, not, ◌&&◌, ◌||◌, ◌==◌, ltb, leb, any, map_option, unwrap_or,
  option_eq, if◌then◌else◌,
}
use entangrid.BTree.Key.{nat_key}
use entangrid.BTree.Map
use entangrid.Types.Records.{ValidatorId, HashBytes}
use entangrid.Node.State.{NodeState, PeerSyncStatus, highest_local_qc}

pub record LocalSyncView : Type 0 where
  pub height : ℕ
  pub tip_hash : HashBytes
  pub tip_last_slot : ℕ
  pub highest_qc_hash : Option HashBytes
  pub highest_qc_height : ℕ

unfoldable pub local_sync_view : NodeState → LocalSyncView
unfolding highest_local_qc
local_sync_view s =
    let local_qc = highest_local_qc s in
    let raw_view : LocalSyncView = record {
      height = s.ledger.height;
      tip_hash = s.ledger.tip_hash;
      tip_last_slot = s.ledger.last_slot;
      highest_qc_hash = map_option (λ qc. qc.block_hash) local_qc;
      highest_qc_height = unwrap_or (map_option (λ qc. qc.block_number) local_qc) 0;
    } in
    if not s.startup_sync_barrier then raw_view else elim local_qc [
      | none ↦ raw_view
      | some qc ↦ if leb s.ledger.height qc.block_number then raw_view else record {
        height = qc.block_number;
        tip_hash = qc.block_hash;
        tip_last_slot = qc.slot;
        highest_qc_hash = some qc.block_hash;
        highest_qc_height = qc.block_number;
      }
    ]

abbrev pub SyncPreference : Type 0
SyncPreference = ℕ × ℕ × HashBytes

unfoldable pub peer_sync_status_preference : PeerSyncStatus → SyncPreference
peer_sync_status_preference status = (status.height, status.tip_last_slot, status.tip_hash)

unfoldable pub local_sync_view_preference : LocalSyncView → SyncPreference
local_sync_view_preference view = (view.height, view.tip_last_slot, view.tip_hash)

-- `>` on the tuples.
unfoldable pub is_preferred_to : SyncPreference → SyncPreference → Bool
is_preferred_to (height, slot, hash) (height', slot', hash') =
    ltb height' height
    || (height == height' && (ltb slot' slot || (slot == slot' && ltb hash' hash)))

unfoldable pub status_is_ahead : LocalSyncView → PeerSyncStatus → Bool
unfolding peer_sync_status_preference local_sync_view_preference is_preferred_to
status_is_ahead local status =
    ltb local.highest_qc_height status.highest_qc_height
    || (status.highest_qc_height == local.highest_qc_height
        && not (option_eq status.highest_qc_hash local.highest_qc_hash))
    || (ltb 0 local.highest_qc_height
        && status.highest_qc_height == local.highest_qc_height
        && option_eq status.highest_qc_hash local.highest_qc_hash
        && status.height == local.height
        && not (status.tip_hash == local.tip_hash)
        && status.tip_last_slot == 0)
    || is_preferred_to (peer_sync_status_preference status) (local_sync_view_preference local)

unfoldable pub peer_status_is_ahead : NodeState → ValidatorId → Bool
unfolding local_sync_view status_is_ahead
peer_status_is_ahead s validator_id =
    unwrap_or
      (map_option (status_is_ahead (local_sync_view s)) (Map.get s.peer_sync_status validator_id))
      false

unfoldable pub recovery_sync_only_active : NodeState → Bool
unfolding peer_status_is_ahead
recovery_sync_only_active s = s.startup_sync_barrier && any (peer_status_is_ahead s) s.peers
