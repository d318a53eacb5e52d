-- ===== src/Node/Limits.antt =====
-- Limits: the messages that a node takes from a peer in a window of time, and the slots that a
-- tick processes.
pub mod Bound
pub mod Pending
use entangrid.Prelude.{
  ℕ, zero, suc, ◌+◌, ◌-◌, List, [], ◌∷◌, Option, none, some, Bool, true, false, ◌||◌, ◌&&◌, ◌==◌,
  leb, if◌then◌else◌,
}
use entangrid.Types.Records.{ServiceCounters}

pub data PeerMessageClass : Type 0 where
  sync_control transaction_gossip receipt_gossip : PeerMessageClass

pub record PeerMessageWindow : Type 0 where
  pub started_at_unix_millis : ℕ
  pub sync_control_messages : ℕ
  pub transaction_gossip_messages : ℕ
  pub receipt_gossip_messages : ℕ

abbrev pub peer_message_window_millis : ℕ
peer_message_window_millis = 5000

-- The three `MAX_…_PER_WINDOW`.
abbrev pub limit_of : PeerMessageClass → ℕ
limit_of PeerMessageClass.sync_control = 24
limit_of PeerMessageClass.transaction_gossip = 256
limit_of PeerMessageClass.receipt_gossip = 512

abbrev pub counter_of : PeerMessageWindow → PeerMessageClass → ℕ
counter_of w PeerMessageClass.sync_control = w.sync_control_messages
counter_of w PeerMessageClass.transaction_gossip = w.transaction_gossip_messages
counter_of w PeerMessageClass.receipt_gossip = w.receipt_gossip_messages

abbrev pub count : PeerMessageWindow → PeerMessageClass → PeerMessageWindow
count w PeerMessageClass.sync_control = record w {
  sync_control_messages = w.sync_control_messages + 1;
}
count w PeerMessageClass.transaction_gossip = record w {
  transaction_gossip_messages = w.transaction_gossip_messages + 1;
}
count w PeerMessageClass.receipt_gossip = record w {
  receipt_gossip_messages = w.receipt_gossip_messages + 1;
}

-- The window at a time: the old one, or a new one.
unfoldable pub window_at : PeerMessageWindow → ℕ → PeerMessageWindow
window_at w now_unix_millis =
    if w.started_at_unix_millis == 0
      || leb peer_message_window_millis (now_unix_millis - w.started_at_unix_millis)
    then record {
      started_at_unix_millis = now_unix_millis;
      sync_control_messages = 0;
      transaction_gossip_messages = 0;
      receipt_gossip_messages = 0;
    }
    else w

unfoldable pub allow_peer_message_in_window :
    PeerMessageWindow → PeerMessageClass → ℕ → Bool × PeerMessageWindow
unfolding window_at
allow_peer_message_in_window w message_class now_unix_millis =
    let current = window_at w now_unix_millis in
    if leb (limit_of message_class) (counter_of current message_class)
    then (false, current)
    else (true, count current message_class)

-- The numbers from one up to another, both included: `n` of them.
unfoldable pub range : ℕ → ℕ → List ℕ
range zero first = []
range (suc n) first = first ∷ range n (first + 1)

unfoldable pub pending_slots_to_process : Option ℕ → ℕ → List ℕ
unfolding range
pending_slots_to_process none current_slot = range (current_slot + 1) 0
pending_slots_to_process (some previous_slot) current_slot =
    if leb current_slot previous_slot
    then current_slot ∷ []
    else range (current_slot - previous_slot) (previous_slot + 1)

unfoldable pub service_counters_dominate : ServiceCounters → ServiceCounters → Bool
service_counters_dominate candidate existing =
    candidate.total_windows == existing.total_windows
    && candidate.expected_deliveries == existing.expected_deliveries
    && candidate.expected_peers == existing.expected_peers
    && leb existing.uptime_windows candidate.uptime_windows
    && leb existing.timely_deliveries candidate.timely_deliveries
    && leb existing.distinct_peers candidate.distinct_peers
    && leb existing.failed_sessions candidate.failed_sessions
    && leb existing.invalid_receipts candidate.invalid_receipts
