-- ===== src/Lib.antt =====
-- Entangrid: the ledger, the consensus engine and the fork choice of a node.
--
-- The program is a set of Rust crates. `crates/entangrid-types` has the records of the protocol,
-- `crates/entangrid-ledger` the account balances, `crates/entangrid-consensus` the slots, the
-- proposers, the witnesses and the service scores, and `crates/entangrid-node` the node, which
-- stores blocks, votes and quorum certificates, chooses a chain among them and exchanges chains
-- with its peers. The node calls the consensus engine for assignments and the ledger to replay
-- the chain that it adopts; certificates rest on the votes that it has stored.
--
-- Modules and what they model (each operation has the source's name, in snake case):
--   Prelude       numbers, lists, options and results as the code uses them. `Result` is `Result<T>`
--                 with the error's text, `add_u64` is `+` on `u64` in a release build (it wraps; a
--                 debug build panics), `saturating_mul` is the method of that name.
--   BTree         `BTreeMap` and `BTreeSet` of the standard library as ascending lists, for a
--                 `Key`: a type with a lawful comparison, taken as an instance.
--   Types         crates/entangrid-types/src/lib.rs: Scheme (signature and key schemes), Records,
--                 Encoding (what is hashed, account names), Evidence (certificates, aggregates and
--                 their roots), Floats, Classes, Signature (hybrid signatures and
--                 the two serde forms of `TypedSignature`).
--   Quorum        the counting of duplicate-free lists that the quorum arguments share.
--   Ledger        crates/entangrid-ledger/src/lib.rs. `LedgerState` is the snapshot that it holds.
--                 `apply_block` returns its state beside its result, since a failure leaves what
--                 the loop wrote before it.
--   Consensus     crates/entangrid-consensus/src/lib.rs: Engine (slots, proposers, assignments),
--                 Receipts, Committee (service aggregates), Score.
--   Node          crates/entangrid-node/src/lib.rs: State (the fields of `NodeRunner` that the
--                 modelled operations use, and lookups in them), Receipts (the stored receipts),
--                 Chains (`build_chain_to_tip`, `branch_relation`), Quality
--                 (`compare_branch_quality`), Adoption (`adopt_canonical_chain` and the decisions
--                 that lead to it), Certificates (the checks of votes and certificates), Votes
--                 (conflicts and storage of votes), Finality (certificates built, imported and
--                 restored), Voting (the node's own vote), Policy (the hybrid signature policies),
--                 Commitments (`validate_commitment_bundle`, `validate_snapshot_receipts`), Gating
--                 (the gate on proposers), BlockChecks and Acceptance (`accept_block` and
--                 `try_promote_orphans`), Segments and Snapshots (chains from peers, cut, aligned,
--                 validated and applied), SyncPolicy (the decisions of the sync protocol), Limits
--                 (the window of a peer's messages, pending slots).
--   Tests         concrete parameters, and the development at them.
--
-- Parameters. `Crypto` stands for `blake3` over `bincode` and the `CryptoBackend` trait: a hash of
-- each value that the code hashes, and verification and signing that may fail. No theorem assumes
-- that hashes are injective or that signatures are sound. `Floats` stands for the `f64` operations,
-- `Bincode` for the encoding of the components of a hybrid signature.
--
-- Representation. A hash is the number that its 32 bytes spell from the most significant one, so
-- that the order of hashes is that of the arrays; a `String` is its bytes; `u64` and `usize` are
-- natural numbers with the wrap-around or saturation of the source written out.
--
-- Loops and fuel. Loops over lists are recursion on the list. `build_chain_to_tip` walks parents,
-- and runs on fuel: one round for each known block and one for the empty hash, which is enough
-- since a block that comes up twice ends the loop. `decimal` has fuel for the twenty digits that
-- a `u64` can have. A node's own vote is imported, and the import may make the node vote again for
-- the tip that it moves to, so `maybe_broadcast_local_proposal_vote` runs on fuel that bounds how
-- deep its calls nest; the steps that may end in a vote take it as an argument, `LocalVote`, and
-- the theorems about them hold for every fuel. `try_promote_orphans` takes the number of rounds of
-- its loop.
--
-- Where the source would panic the model has `none`: division by a slot duration of zero, and the
-- proposer of a genesis without validators. In `accept_block` and the validation of snapshots the
-- latter is the error "panicked".
--
-- Errors. A step of the node answers with an `Outcome`: a result, an error with its text and the
-- state that the source leaves behind, which keeps all that was changed before the error, or the
-- end of the fuel. Where the source swallows the error and goes on (a buffered vote, an orphan, a
-- vote of a snapshot, the node's own vote) the model goes on from that state; the end of the fuel
-- is never swallowed. The error's text is the constant part of the source's. Errors of files and
-- messages are left out.
--
-- Not modelled: the signatures themselves (crates/entangrid-crypto), the transport
-- (crates/entangrid-network), the simulator (crates/entangrid-sim), files, logs, metrics and
-- messages, the event loop of the node and the proposals that it builds, the import of certified
-- sync responses, service attestations, the entry of transactions to the mempool, and the serde
-- forms of the types other than `TypedSignature`.
pub mod Prelude
pub mod BTree
pub mod Types
pub mod Quorum
pub mod Ledger
pub mod Consensus
pub mod Node
pub mod Tests
