-- ===== src/Node/Receipts.antt =====
-- The receipts that a node stores, each once: by its content and by the event that it claims.
pub mod Unique
use entangrid.Prelude.{ℕ, List, [], ◌∷◌, ◌++◌, Bool, true, false, if◌then◌else◌, map}
use entangrid.BTree.Key.{nat_key}
use entangrid.BTree.Set
use entangrid.BTree.Set.{BTreeSet, contains}
use entangrid.Types.Scheme.{default_signature}
use entangrid.Types.Records.{HashBytes, RelayReceipt, Block}
use entangrid.Types.Encoding.{Crypto, Hashed}

-- The fields `receipts`, `seen_receipts` and `seen_receipt_events` of `NodeRunner`.
pub record ReceiptBook : Type 0 where
  pub receipts : List RelayReceipt
  pub seen_receipts : BTreeSet HashBytes
  pub seen_receipt_events : BTreeSet HashBytes

-- `collect` into a set.
unfoldable pub collect : List HashBytes → BTreeSet HashBytes → BTreeSet HashBytes
collect [] set = set
collect (hash ∷ hashes) set = collect hashes (Set.insert set hash)

module _ (c : Crypto) where
  abbrev pub receipt_hash : RelayReceipt → HashBytes
  receipt_hash receipt = c.canonical_hash (Hashed.receipt receipt)

  abbrev pub receipt_signing_hash : RelayReceipt → HashBytes
  receipt_signing_hash receipt =
      c.canonical_hash (Hashed.receipt (record receipt { signature = default_signature }))

  unfoldable pub receipt_event_hash : RelayReceipt → HashBytes
  receipt_event_hash r = c.canonical_hash (
      Hashed.receipt_event
        (r.epoch ∷ r.slot ∷ r.source_validator_id ∷ r.destination_validator_id
          ∷ r.witness_validator_id ∷ r.sequence_number ∷ [])
        r.message_class)

  -- Whether the receipt is new, and the book with it.
  unfoldable pub persist_receipt : ReceiptBook → RelayReceipt → Bool × ReceiptBook
  persist_receipt book receipt =
      if contains book.seen_receipts (receipt_hash receipt)
      then (false, book)
      else if contains book.seen_receipt_events (receipt_event_hash receipt)
      then (false, book)
      else (
        true,
        record {
          receipts = book.receipts ++ receipt ∷ [];
          seen_receipts = Set.insert book.seen_receipts (receipt_hash receipt);
          seen_receipt_events = Set.insert book.seen_receipt_events (receipt_event_hash receipt);
        },
      )

  unfoldable pub import_commitment_receipts : ReceiptBook → List RelayReceipt → ReceiptBook
  unfolding persist_receipt
  import_commitment_receipts book [] = book
  import_commitment_receipts book (receipt ∷ receipts) =
      import_commitment_receipts (persist_receipt book receipt).1 receipts

  -- The receipts' part of `rebuild_seen_sets`.
  unfoldable pub rebuild_seen_receipts : ReceiptBook → ReceiptBook
  unfolding collect
  rebuild_seen_receipts book = record {
    receipts = book.receipts;
    seen_receipts = collect (map receipt_hash book.receipts) [];
    seen_receipt_events = collect (map receipt_event_hash book.receipts) [];
  }

  -- The receipts of an adopted chain, block by block.
  unfoldable pub import_chain_receipts : ReceiptBook → List Block → ReceiptBook
  unfolding import_commitment_receipts
  import_chain_receipts book [] = book
  import_chain_receipts book (block ∷ blocks) =
      import_chain_receipts (import_commitment_receipts book block.commitment_receipts) blocks
