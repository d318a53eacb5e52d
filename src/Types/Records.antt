-- ===== src/Types/Records.antt =====
-- The records of the protocol. `u64`, `usize` and `[u8; 32]` are numbers: a hash is the number
-- that its bytes spell from the most significant one, so that `<` on numbers is the order of the
-- arrays. A `String` is its bytes. An `f64` is its bit pattern.
use entangrid.Prelude.{ℕ, List, Option}
use entangrid.BTree.Map.{BTreeMap}
use entangrid.Types.Scheme.{Bytes, TypedSignature, PublicIdentity, SessionPublicIdentity}

abbrev pub ValidatorId : Type 0
ValidatorId = ℕ

abbrev pub Slot : Type 0
Slot = ℕ

abbrev pub Epoch : Type 0
Epoch = ℕ

abbrev pub HashBytes : Type 0
HashBytes = ℕ

abbrev pub AccountId : Type 0
AccountId = Bytes

abbrev pub F64 : Type 0
F64 = ℕ

pub data MessageClass : Type 0 where
  heartbeat transaction block : MessageClass

pub record ValidatorConfig : Type 0 where
  pub validator_id : ValidatorId
  pub stake : ℕ
  pub address : Bytes
  pub dev_secret : Bytes
  pub public_identity : PublicIdentity
  pub session_public_identity : Option SessionPublicIdentity

pub record GenesisConfig : Type 0 where
  pub chain_id : Bytes
  pub epoch_seed : HashBytes
  pub genesis_time_unix_millis : ℕ
  pub slot_duration_millis : ℕ
  pub slots_per_epoch : ℕ
  pub max_txs_per_block : ℕ
  pub witness_count : ℕ
  pub validators : List ValidatorConfig
  pub initial_balances : BTreeMap AccountId ℕ

pub record Transaction : Type 0 where
  pub from : AccountId
  pub to : AccountId
  pub amount : ℕ
  pub nonce : ℕ
  pub memo : Option Bytes

pub record SignedTransaction : Type 0 where
  pub transaction : Transaction
  pub signer_id : ValidatorId
  pub signature : TypedSignature
  pub tx_hash : HashBytes
  pub submitted_at_unix_millis : ℕ

pub record RelayReceipt : Type 0 where
  pub epoch : Epoch
  pub slot : Slot
  pub source_validator_id : ValidatorId
  pub destination_validator_id : ValidatorId
  pub witness_validator_id : ValidatorId
  pub message_class : MessageClass
  pub transcript_digest : HashBytes
  pub latency_bucket_ms : ℕ
  pub byte_count_bucket : ℕ
  pub sequence_number : ℕ
  pub signature : TypedSignature

pub record CommitmentSummary : Type 0 where
  pub by_message_class : BTreeMap MessageClass ℕ
  pub distinct_peers : ℕ
  pub relay_score : F64

pub record TopologyCommitment : Type 0 where
  pub epoch : Epoch
  pub validator_id : ValidatorId
  pub receipt_root : HashBytes
  pub receipt_count : ℕ
  pub summary : CommitmentSummary

pub record EpochAssignment : Type 0 where
  pub epoch : Epoch
  pub validator_id : ValidatorId
  pub witnesses : List ValidatorId
  pub relay_targets : List ValidatorId

pub record BlockHeader : Type 0 where
  pub block_number : ℕ
  pub parent_hash : HashBytes
  pub slot : Slot
  pub epoch : Epoch
  pub proposer_id : ValidatorId
  pub timestamp_unix_millis : ℕ
  pub state_root : HashBytes
  pub transactions_root : HashBytes
  pub topology_root : HashBytes

pub record Block : Type 0 where
  pub header : BlockHeader
  pub transactions : List SignedTransaction
  pub commitment : Option TopologyCommitment
  pub commitment_receipts : List RelayReceipt
  pub signature : TypedSignature
  pub block_hash : HashBytes

pub record StateSnapshot : Type 0 where
  pub balances : BTreeMap AccountId ℕ
  pub nonces : BTreeMap AccountId ℕ
  pub tip_hash : HashBytes
  pub height : ℕ
  pub last_slot : Slot

pub record ProposalVote : Type 0 where
  pub validator_id : ValidatorId
  pub block_hash : HashBytes
  pub block_number : ℕ
  pub epoch : Epoch
  pub slot : Slot
  pub signature : TypedSignature

pub record QuorumCertificate : Type 0 where
  pub block_hash : HashBytes
  pub block_number : ℕ
  pub epoch : Epoch
  pub slot : Slot
  pub vote_root : HashBytes
  pub votes : List ProposalVote

pub record ServiceCounters : Type 0 where
  pub uptime_windows : ℕ
  pub total_windows : ℕ
  pub timely_deliveries : ℕ
  pub expected_deliveries : ℕ
  pub distinct_peers : ℕ
  pub expected_peers : ℕ
  pub failed_sessions : ℕ
  pub invalid_receipts : ℕ

pub record ServiceAttestation : Type 0 where
  pub subject_validator_id : ValidatorId
  pub committee_member_id : ValidatorId
  pub epoch : Epoch
  pub counters : ServiceCounters
  pub signature : TypedSignature

pub record ServiceAggregate : Type 0 where
  pub subject_validator_id : ValidatorId
  pub epoch : Epoch
  pub attestation_root : HashBytes
  pub attestations : List ServiceAttestation
  pub aggregate_counters : ServiceCounters

pub record ServiceScoreWeights : Type 0 where
  pub uptime_weight : F64
  pub delivery_weight : F64
  pub diversity_weight : F64
  pub penalty_weight : F64

pub record ChainSnapshot : Type 0 where
  pub snapshot : StateSnapshot
  pub blocks : List Block
  pub receipts : List RelayReceipt
  pub proposal_votes : List ProposalVote

pub record ChainSegment : Type 0 where
  pub base_height : ℕ
  pub base_tip_hash : HashBytes
  pub target_snapshot : StateSnapshot
  pub blocks : List Block
  pub receipts : List RelayReceipt
  pub proposal_votes : List ProposalVote

pub record SyncQcAnchor : Type 0 where
  pub block_hash : HashBytes
  pub block_number : ℕ
