-- ===== src/Node/Limits/Bound.antt =====
-- No peer gets more than its share of a window.
use entangrid.Prelude.{
  ℕ, ◌+◌, ◌-◌, ◌≤◌, ◌<◌, ◌≡◌, ◌≢◌, List, [], ◌∷◌, Bool, true, false, arith, if◌then◌else◌,
}
use entangrid.Node.Limits.{
  PeerMessageClass, PeerMessageWindow, peer_message_window_millis, limit_of, counter_of, window_at,
  allow_peer_message_in_window,
}

-- The window after messages, each with its class and its time.
unfoldable pub after_messages : PeerMessageWindow → List (PeerMessageClass × ℕ) → PeerMessageWindow
after_messages w [] = w
after_messages w ((message_class, now) ∷ rest) =
    after_messages (allow_peer_message_in_window w message_class now).1 rest

abbrev class_eq : PeerMessageClass → PeerMessageClass → Bool
class_eq PeerMessageClass.sync_control PeerMessageClass.sync_control = true
class_eq PeerMessageClass.transaction_gossip PeerMessageClass.transaction_gossip = true
class_eq PeerMessageClass.receipt_gossip PeerMessageClass.receipt_gossip = true
class_eq _ _ = false

-- How many messages of a class are let through.
unfoldable pub allowed : PeerMessageWindow → PeerMessageClass → List (PeerMessageClass × ℕ) → ℕ
allowed w k [] = 0
allowed w k ((message_class, now) ∷ rest) =
    let step = allow_peer_message_in_window w message_class now in
    let later = allowed step.1 k rest in
    if (if step.0 then class_eq message_class k else false) then later + 1 else later

-- A time inside a window that is open.
abbrev pub IsInside : PeerMessageWindow → ℕ → Type 0
IsInside w now =
    (w.started_at_unix_millis ≢ 0) × (now - w.started_at_unix_millis < peer_message_window_millis)

-- One message inside the window: the window goes on, and the counter of a class grows by the
-- messages of the class that are let through, up to its limit.
step_inside :
    (w : PeerMessageWindow) (m k : PeerMessageClass) (now : ℕ)
    → IsInside w now
    → counter_of w k ≤ limit_of k
    → let step = allow_peer_message_in_window w m now in
      (step.1.started_at_unix_millis ≡ w.started_at_unix_millis)
      × (counter_of step.1 k ≤ limit_of k)
      × (counter_of step.1 k ≡ (
          if (if step.0 then class_eq m k else false) then counter_of w k + 1 else counter_of w k))
unfolding allow_peer_message_in_window window_at
step_inside w PeerMessageClass.sync_control PeerMessageClass.sync_control now (opened, inside) le =
    ground arith
step_inside w PeerMessageClass.sync_control PeerMessageClass.transaction_gossip now (opened, inside)
      le =
    ground arith
step_inside w PeerMessageClass.sync_control PeerMessageClass.receipt_gossip now (opened, inside)
      le =
    ground arith
step_inside w PeerMessageClass.transaction_gossip PeerMessageClass.sync_control now (opened, inside)
      le =
    ground arith
step_inside w PeerMessageClass.transaction_gossip PeerMessageClass.transaction_gossip now
      (opened, inside) le =
    ground arith
step_inside w PeerMessageClass.transaction_gossip PeerMessageClass.receipt_gossip now
      (opened, inside) le =
    ground arith
step_inside w PeerMessageClass.receipt_gossip PeerMessageClass.sync_control now (opened, inside)
      le =
    ground arith
step_inside w PeerMessageClass.receipt_gossip PeerMessageClass.transaction_gossip now
      (opened, inside) le =
    ground arith
step_inside w PeerMessageClass.receipt_gossip PeerMessageClass.receipt_gossip now (opened, inside)
      le =
    ground arith

abbrev pub AllInside : PeerMessageWindow → List (PeerMessageClass × ℕ) → Type 0
AllInside w [] = Unit
AllInside w ((m, now) ∷ rest) = IsInside w now × AllInside w rest

AllInside-same :
    (w w' : PeerMessageWindow) (messages : List (PeerMessageClass × ℕ))
    → w'.started_at_unix_millis ≡ w.started_at_unix_millis
    → AllInside w messages
    → AllInside w' messages
AllInside-same w w' [] e a = tt
AllInside-same w w' ((m, now) ∷ rest) e ((opened, inside), a) =
    ((rw e opened, rw e inside), AllInside-same w w' rest e a)

-- Of any messages that reach an open window before it ends, in any order and of any classes, at
-- most the limit of a class, less those counted already, is let through in that class, if those
-- counted already are within the limit.
pub allowed_le_limit :
    (w : PeerMessageWindow) (k : PeerMessageClass) (messages : List (PeerMessageClass × ℕ))
    → AllInside w messages
    → counter_of w k ≤ limit_of k
    → counter_of w k + allowed w k messages ≤ limit_of k
unfolding allowed
allowed_le_limit w k [] a le = omega arith
allowed_le_limit w k ((m, now) ∷ rest) (i, a) le =
    let step = allow_peer_message_in_window w m now in
    let (started, le', counted) = step_inside w m k now i le in
    let ih = allowed_le_limit step.1 k rest (AllInside-same w step.1 rest started a) le' in
    elim (if step.0 then class_eq m k else false)
        as (λ b.
          counter_of step.1 k ≡ (if b then counter_of w k + 1 else counter_of w k)
          → counter_of w k + (if b then allowed step.1 k rest + 1 else allowed step.1 k rest)
            ≤ limit_of k) [ true ↦ λ e. omega (arith, e, ih) | false ↦ λ e. omega (arith, e, ih) ]
      counted
