-- ===== src/Node/Snapshots/Replayed.antt =====
-- A validated chain is a linked chain whose replay is the snapshot.
use entangrid.Prelude.{
  ℕ, List, [], ◌∷◌, none, some, true, false, not, ◌==◌, ◌≡◌, refl, ap, ◌∙◌, arith, ok, >>=-eq-ok,
  >>-eq-ok, bail_if, bail_if-ok, ==_iff, ok-injective, add_u64, All, Option-cases, inl, inr,
}
use entangrid.BTree.Key.{bytes-eq}
use entangrid.BTree.Map.{BTreeMap}
use entangrid.Types.Records.{
  HashBytes, AccountId, Block, RelayReceipt, GenesisConfig, StateSnapshot, ChainSnapshot,
}
use entangrid.Types.Encoding.{Crypto, empty_hash}
use entangrid.Types.Floats.{Floats, f64_zero}
use entangrid.Consensus.Engine.{ConsensusEngine}
use entangrid.Consensus.Slots.{validate_block_basic_iff}
use entangrid.Consensus.Score.{validate_block_basic}
use entangrid.Ledger.{LedgerState, apply_block, from_genesis, replay_from, replay_blocks}
use entangrid.Ledger.Replay.{apply_block-IsHead, replay_from-cons}
use entangrid.Node.Chains.Links.{IsLinked}
use entangrid.Node.BlockChecks.{block_hash_of}
use entangrid.Node.Commitments.{validate_snapshot_receipts}
use entangrid.Node.Commitments.Evidence.{IsWitnessed, not-false, validate_snapshot_receipts-ok}
use entangrid.Node.Snapshots.{
  accounts_eq, snapshot_eq, check_parent, validate_snapshot_block, replay_validated,
  validate_chain_snapshot,
}

accounts_eq-≡ : (a b : BTreeMap AccountId ℕ) → accounts_eq a b ≡ true → a ≡ b
unfolding accounts_eq
accounts_eq-≡ [] [] h = refl
accounts_eq-≡ [] (y ∷ ys) h = cc
accounts_eq-≡ (x ∷ xs) [] h = cc
accounts_eq-≡ ((k, n) ∷ xs) ((k', n') ∷ ys) h =
    let names : k ≡ k' = bytes-eq k k' (ground arith) in
    let amounts : n ≡ n' = ground arith in
    let rest : xs ≡ ys = accounts_eq-≡ xs ys (ground arith) in rw (names, amounts, rest) refl

-- The comparison of snapshots decides equality.
pub snapshot_eq-≡ : (a b : StateSnapshot) → snapshot_eq a b ≡ true → a ≡ b
unfolding snapshot_eq
snapshot_eq-≡ a b h =
    let balances = accounts_eq-≡ a.balances b.balances (ground arith) in
    let nonces = accounts_eq-≡ a.nonces b.nonces (ground arith) in
    let tip_hash : a.tip_hash ≡ b.tip_hash = ground arith in
    let height : a.height ≡ b.height = ground arith in
    let last_slot : a.last_slot ≡ b.last_slot = ground arith in
    λ i. record {
      balances = balances i;
      nonces = nonces i;
      tip_hash = tip_hash i;
      height = height i;
      last_slot = last_slot i;
    }

module _ (c : Crypto) (f : Floats) (e : ConsensusEngine) where
  check_parent-ok :
      (block : Block) (parent : HashBytes)
      → check_parent c f e block parent ≡ ok tt
      → block.header.parent_hash ≡ parent
  unfolding check_parent
  check_parent-ok block parent h =
      elim (Option-cases (validate_block_basic f c e block parent none false f64_zero)) [
        | inl panics ↦ absurd (cc (rw (panics, check_parent) at h))
        | inr (answer, answered) ↦
            let good : answer ≡ ok tt = rw (answered, check_parent) at h in
            let both =
              (validate_block_basic_iff f c e block parent none false f64_zero).0
                (answered ∙ ap (λ z. some z) good) in
            both.1
      ]

  validate_snapshot_block-ok :
      (ledger : LedgerState) (block : Block) (parent : HashBytes)
      → validate_snapshot_block c f e ledger block parent ≡ ok tt
      → (block.header.parent_hash ≡ parent) × (block.header.block_number ≡ add_u64 ledger.height 1)
  unfolding validate_snapshot_block
  validate_snapshot_block-ok ledger block parent h =
      let (_, hashed, h1) =
        >>=-eq-ok
          (bail_if (not (block_hash_of f c block == block.block_hash))
            "block hash mismatch in snapshot")
          _ h in
      let (verified, answered, h2) =
        >>=-eq-ok (c.verify block.header.proposer_id block.block_hash block.signature) _ h1 in
      let (_, signed, h3) =
        >>=-eq-ok (bail_if (not verified) "invalid block signature in snapshot") _ h2 in
      let (_, numbered, h4) =
        >>=-eq-ok
          (bail_if (not (block.header.block_number == add_u64 ledger.height 1))
            "unexpected block number in snapshot")
          _ h3 in
      let (_, linked, h5) = >>=-eq-ok (check_parent c f e block parent) _ h4 in
      (
        check_parent-ok block parent linked,
        (==_iff block.header.block_number (add_u64 ledger.height 1)).0
            (not-false _ (bail_if-ok _ _ numbered)),
      )

  -- The loop replays the blocks, which are linked from where it starts.
  pub replay_validated-ok :
      (s : LedgerState) (parent : HashBytes) (blocks : List Block) {t : LedgerState}
      → replay_validated c f e s parent blocks ≡ ok t
      → (replay_from c s blocks ≡ ok t) × IsLinked parent (add_u64 s.height 1) blocks
  unfolding replay_validated replay_from
  replay_validated-ok s parent [] h = (h, tt)
  replay_validated-ok s parent (block ∷ rest) {t} h =
      let (h1, next) = >>-eq-ok _ _ h in
      let (valid, applied) = >>-eq-ok _ _ h1 in
      let (linked, numbered) = validate_snapshot_block-ok s block parent valid in
      let head = apply_block-IsHead c s block applied in
      let (replayed, links) =
        replay_validated-ok (apply_block c s block).1 block.block_hash rest next in
      let links' : IsLinked block.block_hash (add_u64 (add_u64 s.height 1) 1) rest =
        rw (← numbered, ← head.height) links in
      (replay_from-cons c s block rest applied replayed, (linked, numbered, links'))

  -- A snapshot that passes `validate_chain_snapshot` is what it claims: its blocks are linked from
  -- the empty hash and count up from one, their replay from the genesis succeeds and is the
  -- claimed state, and the receipts are its own, each one witnessed by an assigned validator.
  pub validate_chain_snapshot-ok :
      (genesis : GenesisConfig) (chain : ChainSnapshot) {ledger : LedgerState}
      {receipts : List RelayReceipt}
      → validate_chain_snapshot c f e genesis chain ≡ ok (ledger, receipts)
      → IsLinked empty_hash 1 chain.blocks
        × (replay_blocks c genesis chain.blocks ≡ ok ledger)
        × (ledger ≡ chain.snapshot)
        × (receipts ≡ chain.receipts)
        × All (IsWitnessed c e) chain.receipts
  unfolding validate_chain_snapshot replay_blocks from_genesis
  validate_chain_snapshot-ok genesis chain {ledger} {receipts} h =
      let (kept, checked, h1) = >>=-eq-ok (validate_snapshot_receipts c e chain.receipts) _ h in
      let (replay, replayed, h2) =
        >>=-eq-ok (replay_validated c f e (from_genesis genesis) empty_hash chain.blocks) _ h1 in
      let (same, done) =
        >>-eq-ok (bail_if (not (snapshot_eq replay chain.snapshot)) "snapshot replay mismatch")
          (ok (replay, kept)) h2 in
      let (links, witnessed, distinct) = validate_snapshot_receipts-ok c e chain.receipts checked in
      let (of_chain, chain_links) =
        replay_validated-ok (from_genesis genesis) empty_hash chain.blocks replayed in
      let answer = ok-injective done in
      let ledger_is : replay ≡ ledger = ap (λ r. r.0) answer in
      let receipts_is : kept ≡ receipts = ap (λ r. r.1) answer in
      let claimed = snapshot_eq-≡ replay chain.snapshot (not-false _ (bail_if-ok _ _ same)) in
      (
        chain_links,
        rw (← ledger_is) of_chain,
        rw (← ledger_is) claimed,
        rw (← receipts_is) links,
        witnessed,
      )
