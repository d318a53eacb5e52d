-- ===== src/Types/Encoding.antt =====
-- What is hashed, the cryptography that the program calls, and account names.
pub mod Accounts
pub mod Words
use entangrid.Prelude.{
  ℕ, zero, suc, ◌+◌, ◌*◌, ◌/◌, ◌%◌, ◌<◌, ◌≡◌, List, [], ◌∷◌, ◌++◌, Bool, Option, Result, ltb,
  if◌then◌else◌,
}
use entangrid.BTree.Map.{BTreeMap}
use entangrid.Types.Scheme.{Bytes, TypedSignature}
use entangrid.Types.Records.{
  ValidatorId, HashBytes, AccountId, Transaction, SignedTransaction, RelayReceipt, BlockHeader,
  TopologyCommitment, ProposalVote, ServiceAttestation, Epoch, Slot, MessageClass,
}

-- The values that the program passes to `canonical_hash`.
pub data Hashed : Type 0 where
  transaction : Transaction → Hashed
  transactions : List SignedTransaction → Hashed
  state : BTreeMap AccountId ℕ → BTreeMap AccountId ℕ → Hashed
  block : BlockHeader → List SignedTransaction → Option TopologyCommitment → Hashed
  commitment : TopologyCommitment → Hashed
  receipt : RelayReceipt → Hashed
  receipt_event : List ℕ → MessageClass → Hashed
  hashes : List HashBytes → Hashed
  vote : ProposalVote → Hashed
  votes : List ProposalVote → Hashed
  attestations : List ServiceAttestation → Hashed

-- `blake3` over `bincode`, and the `CryptoBackend` trait: a verification fails for an unknown
-- validator, and otherwise answers.
pub record Crypto : Type 0 where
  pub canonical_hash : Hashed → HashBytes
  pub hash_many : List Bytes → HashBytes
  pub verify : ValidatorId → HashBytes → TypedSignature → Result Bool
  pub sign : ValidatorId → HashBytes → Result TypedSignature

-- `empty_hash`
abbrev pub empty_hash : HashBytes
empty_hash = 0

-- The decimal digits of a number; a `u64` has at most twenty.
unfoldable pub decimal : ℕ → ℕ → Bytes
decimal zero n = []
decimal (suc fuel) n =
    let rest = decimal fuel (n / 10) in
    if ltb n 10 then (b'0' + n) ∷ [] else rest ++ (b'0' + n % 10) ∷ []

abbrev pub account_prefix : Bytes
account_prefix = b'v' ∷ b'a' ∷ b'l' ∷ b'i' ∷ b'd' ∷ b'a' ∷ b't' ∷ b'o' ∷ b'r' ∷ b'-' ∷ []

-- `validator_account`: `format!("validator-{validator_id}")`
unfoldable pub validator_account : ValidatorId → AccountId
unfolding decimal
validator_account validator_id = account_prefix ++ decimal 20 validator_id
