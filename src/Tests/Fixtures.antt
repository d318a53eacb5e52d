-- ===== src/Tests/Fixtures.antt =====
-- Concrete parameters, a genesis with three validators, and blocks and votes on it.
use entangrid.Prelude.{ℕ, List, [], ◌∷◌, ◌++◌, none, true, false, ok, ltb, leb, ◌==◌, ◌+◌}
use entangrid.BTree.Map.{BTreeMap}
use entangrid.Types.Scheme.{SignatureScheme, PublicKeyScheme, TypedSignature, PublicIdentity}
use entangrid.Types.Records.{
  AccountId, ValidatorConfig, GenesisConfig, SignedTransaction, Block, ProposalVote, HashBytes,
  QuorumCertificate, MessageClass, RelayReceipt, ServiceAttestation, ServiceAggregate,
}
use entangrid.Types.Encoding.{Crypto, Hashed, account_prefix}
use entangrid.Types.Floats.{Floats, default_service_score_weights}
use entangrid.Types.Evidence.{no_counters}
use entangrid.Consensus.Engine.{ConsensusEngine}
use entangrid.Ledger.{LedgerState}
use entangrid.Node.State.{NodeState}

abbrev pub plain : TypedSignature
plain = record { scheme = SignatureScheme.ed25519; bytes = []; components = [] }

-- Every signature is good, and every hash is the same.
abbrev pub crypto : Crypto
crypto = record {
  canonical_hash = λ _. 7;
  hash_many = λ _. 0;
  verify = λ _ _ _. ok true;
  sign = λ _ _. ok plain;
}

abbrev pub floats : Floats
floats = record {
  of_u64 = λ n. n;
  add = λ x y. x;
  sub = λ x y. x;
  mul = λ x y. x;
  div = λ x y. x;
  lt = λ x y. ltb x y;
  le = λ x y. leb x y;
  eq = λ x y. x == y;
}

abbrev pub account : ℕ → AccountId
account n = account_prefix ++ (b'0' + n) ∷ []

abbrev pub identity : PublicIdentity
identity = record { scheme = PublicKeyScheme.ed25519; bytes = []; components = [] }

abbrev pub validator : ℕ → ValidatorConfig
validator n = record {
  validator_id = n;
  stake = 1;
  address = [];
  dev_secret = [];
  public_identity = identity;
  session_public_identity = none;
}

abbrev pub genesis : GenesisConfig
genesis = record {
  chain_id = [];
  epoch_seed = 0;
  genesis_time_unix_millis = 5000;
  slot_duration_millis = 1000;
  slots_per_epoch = 10;
  max_txs_per_block = 5;
  witness_count = 2;
  validators = validator 1 ∷ validator 2 ∷ validator 3 ∷ [];
  initial_balances = (account 1, 100) ∷ (account 2, 50) ∷ [];
}

abbrev pub engine : ConsensusEngine
engine = record { genesis = genesis; validator_ids = 1 ∷ 2 ∷ 3 ∷ [] }

abbrev pub payment : ℕ → ℕ → ℕ → ℕ → SignedTransaction
payment source target amount nonce = record {
  transaction = record {
    from = account source;
    to = account target;
    amount = amount;
    nonce = nonce;
    memo = none;
  };
  signer_id = source;
  signature = plain;
  tx_hash = 7;
  submitted_at_unix_millis = 0;
}

abbrev pub block : ℕ → HashBytes → HashBytes → List SignedTransaction → Block
block number parent hash transactions = record {
  header = record {
    block_number = number;
    parent_hash = parent;
    slot = number;
    epoch = 0;
    proposer_id = 1;
    timestamp_unix_millis = 0;
    state_root = 7;
    transactions_root = 0;
    topology_root = 0;
  };
  transactions = transactions;
  commitment = none;
  commitment_receipts = [];
  signature = plain;
  block_hash = hash;
}

abbrev pub ledger : LedgerState
ledger = record {
  balances = (account 1, 100) ∷ (account 2, 50) ∷ [];
  nonces = [];
  tip_hash = 0;
  height = 0;
  last_slot = 0;
}

abbrev pub first_block : Block
first_block = block 1 0 11 []

abbrev pub second_block : Block
second_block = block 2 11 12 []

abbrev pub vote : ℕ → Block → ProposalVote
vote n b = record {
  validator_id = n;
  block_hash = b.block_hash;
  block_number = b.header.block_number;
  epoch = b.header.epoch;
  slot = b.header.slot;
  signature = plain;
}

abbrev pub votes_on : Block → BTreeMap ℕ ProposalVote
votes_on b = (1, vote 1 b) ∷ (2, vote 2 b) ∷ (3, vote 3 b) ∷ []

-- A node with one block, votes of all validators on it, and a second block beside its chain.
abbrev pub node : NodeState
node = record {
  validator_id = 1;
  consensus_v2 = true;
  require_hybrid_validator_signatures = false;
  enable_receipts = true;
  enable_service_gating = false;
  service_gating_start_epoch = 3;
  service_gating_threshold = 0;
  service_score_window_epochs = 4;
  service_score_weights = default_service_score_weights;
  startup_sync_barrier = false;
  peers = [];
  peer_sync_status = [];
  genesis = genesis;
  consensus = engine;
  ledger = record ledger { tip_hash = 11; height = 1; last_slot = 1 };
  blocks = first_block ∷ [];
  receipt_book = record { receipts = []; seen_receipts = []; seen_receipt_events = [] };
  orphan_blocks = second_block ∷ [];
  pending_certified_children = [];
  mempool = [];
  seen_transactions = [];
  seen_blocks = 11 ∷ [];
  service_aggregates = [];
  latest_service_scores = [];
  proposal_votes = (11, votes_on first_block) ∷ [];
  buffered_proposal_votes = [];
  quorum_certificates = [];
}

abbrev pub certificate : QuorumCertificate
certificate = record {
  block_hash = 11;
  block_number = 1;
  epoch = 0;
  slot = 1;
  vote_root = 7;
  votes = vote 1 first_block ∷ vote 2 first_block ∷ vote 3 first_block ∷ [];
}

abbrev pub receipt : RelayReceipt
receipt = record {
  epoch = 0;
  slot = 3;
  source_validator_id = 1;
  destination_validator_id = 2;
  witness_validator_id = 3;
  message_class = MessageClass.heartbeat;
  transcript_digest = 0;
  latency_bucket_ms = 0;
  byte_count_bucket = 0;
  sequence_number = 1;
  signature = plain;
}

abbrev pub attestation : ℕ → ServiceAttestation
attestation n = record {
  subject_validator_id = 1;
  committee_member_id = n;
  epoch = 0;
  counters = no_counters;
  signature = plain;
}

abbrev pub aggregate : ServiceAggregate
aggregate = record {
  subject_validator_id = 1;
  epoch = 0;
  attestation_root = 7;
  attestations = attestation 2 ∷ attestation 3 ∷ [];
  aggregate_counters = no_counters;
}

-- The hash of a block tells its number.
abbrev pub block_crypto : Crypto
block_crypto = record crypto {
  canonical_hash = λ value. elim value [
    | Hashed.block header transactions commitment ↦ 10 + header.block_number
    | _ ↦ 7
  ];
}

abbrev pub good_block : ℕ → ℕ → Block
good_block number parent =
    let b = block number parent (10 + number) [] in
    record b { header = record b.header { transactions_root = 7 } }
