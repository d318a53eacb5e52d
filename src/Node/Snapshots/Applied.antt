-- ===== src/Node/Snapshots/Applied.antt =====
-- The chain of a node after it has taken over a snapshot or a segment.
use entangrid.Prelude.{
  ℕ, List, [], ◌∷◌, ◌++◌, not, ◌&&◌, ◌==◌, ◌≡◌, refl, ap, sym, ◌∙◌, arith, Result, ok, ◌>>=◌,
  >>=-eq-ok, bail_if, ok-injective, add_u64, Option-cases, Bool-cases, inl, inr, subst, ltb, take,
  zero, suc, is_ok,
}
use entangrid.BTree.Set.{BTreeSet}
use entangrid.Types.Records.{
  HashBytes, Block, RelayReceipt, StateSnapshot, ChainSnapshot, ChainSegment, ProposalVote,
}
use entangrid.Types.Encoding.{Crypto, empty_hash}
use entangrid.Types.Floats.{Floats}
use entangrid.Ledger.{LedgerState, apply_block, from_genesis, replay_from, replay_blocks}
use entangrid.Ledger.Replay.{apply_block-IsHead, replay_from-append, replay_from-uncons}
use entangrid.Node.State.{NodeState, LocalVote, highest_local_qc}
use entangrid.Node.State.Outcomes.{at-eq-ok}
use entangrid.Node.Chains.Links.{IsLinked}
use entangrid.Node.Adoption.Keeps.{IsCanonical}
use entangrid.Node.Adoption.Kept.{
  IsKept, Keeps, Fails, IsKept-self, IsKept-trans, SameBlocks, SameBlocks-IsKept,
}
use entangrid.Node.Acceptance.{import_each_vote, import_buffered_proposal_votes_for_block}
use entangrid.Node.Acceptance.Kept.{import_each_vote-IsKept, buffered-IsKept}
use entangrid.Node.Voting.{maybe_broadcast_local_proposal_vote}
use entangrid.Node.Voting.Kept.{local_vote-IsKept, local_vote-Fails}
use entangrid.Node.Segments.{align_chain_segment_to_local_chain}
use entangrid.Node.Commitments.{validate_snapshot_receipts}
use entangrid.Node.Snapshots.{
  snapshot_eq, replay_validated, validate_chain_snapshot, store_receipt, store_receipts,
  validate_receipt, replace_chain, import_buffered_for_blocks, retain_for_blocks, settle_chain,
  apply_chain_snapshot, sync_repair_base_for_segment, apply_chain_segment,
}
use entangrid.Node.Snapshots.Replayed.{replay_validated-ok, validate_chain_snapshot-ok}

module _ (c : Crypto) where
  module _ (local_vote : LocalVote) (keeps : Keeps c local_vote) (fails : Fails c local_vote) where
    buffered_for_blocks-IsKept :
        (s : NodeState) (blocks : List Block) {s' : NodeState}
        → import_buffered_for_blocks c local_vote s blocks ≡ ok s'
        → IsKept c s s'
    unfolding import_buffered_for_blocks
    buffered_for_blocks-IsKept s [] {s'} h = rw (← ok-injective h) (IsKept-self c s)
    buffered_for_blocks-IsKept s (block ∷ rest) {s'} h =
        let (t, imported, h') =
          >>=-eq-ok (import_buffered_proposal_votes_for_block c local_vote s block) _ h in
        IsKept-trans c (buffered-IsKept c local_vote keeps fails s block imported)
          (buffered_for_blocks-IsKept t rest h')

    retain_for_blocks-SameBlocks :
        (hashes : BTreeSet HashBytes) (s : NodeState)
        → SameBlocks s (retain_for_blocks c local_vote hashes s)
    unfolding retain_for_blocks
    retain_for_blocks-SameBlocks hashes s = record {
      genesis = refl;
      ledger = refl;
      blocks = refl;
      orphans = refl;
      pending = refl;
    }

    pub settle_chain-IsKept :
        (s : NodeState) (applied : List Block) (votes : List ProposalVote) {s' : NodeState}
        → settle_chain c local_vote s applied votes ≡ ok s'
        → IsKept c s s'
    unfolding settle_chain
    settle_chain-IsKept s applied votes {s'} h =
        let (t, imported, h1) = >>=-eq-ok (import_each_vote c local_vote s votes) _ h in
        let (u, buffered, h2) =
          >>=-eq-ok (import_buffered_for_blocks c local_vote t applied) _ h1 in
        IsKept-trans c (import_each_vote-IsKept c local_vote keeps fails s votes imported) (
          IsKept-trans c (buffered_for_blocks-IsKept t applied buffered)
            (rw (← ok-injective h2) (SameBlocks-IsKept c (retain_for_blocks-SameBlocks _ u))))

  replaced-IsCanonical :
      (s : NodeState) (ledger : LedgerState) (blocks : List Block) (receipts : List RelayReceipt)
      → IsLinked empty_hash 1 blocks
      → replay_blocks c s.genesis blocks ≡ ok ledger
      → IsCanonical c (replace_chain c s ledger blocks receipts)
  unfolding replace_chain
  replaced-IsCanonical s ledger blocks receipts linked replayed = record {
    linked = linked;
    replayed = replayed;
  }

  -- After `apply_chain_snapshot` succeeds, whatever the node's chain was before and with any fuel
  -- for its own votes, the node's chain is linked from the empty hash and its ledger is the replay
  -- of it.
  pub apply_chain_snapshot-IsCanonical :
      (fuel : ℕ) (f : Floats) (s : NodeState) (chain : ChainSnapshot) {s' : NodeState}
      → apply_chain_snapshot c (maybe_broadcast_local_proposal_vote c fuel) f s chain ≡ ok s'
      → IsCanonical c s'
  unfolding apply_chain_snapshot
  apply_chain_snapshot-IsCanonical fuel f s chain {s'} h =
      let local_vote = maybe_broadcast_local_proposal_vote c fuel in
      let ((ledger, receipts), validated, done) =
        at-eq-ok s (validate_chain_snapshot c f s.consensus s.genesis chain) _ h in
      let (linked, replayed, claimed, kept, witnessed) =
        validate_chain_snapshot-ok c f s.consensus s.genesis chain validated in
      let start = replaced-IsCanonical s ledger chain.blocks receipts linked replayed in
      let steps =
        settle_chain-IsKept local_vote (local_vote-IsKept c fuel) (local_vote-Fails c fuel)
          (replace_chain c s ledger chain.blocks receipts) chain.blocks chain.proposal_votes done in
      steps.canonical start

  store_receipt-SameBlocks :
      (s : NodeState) (r : RelayReceipt) → SameBlocks s (store_receipt c s r).1
  unfolding store_receipt
  store_receipt-SameBlocks s r = elim (Bool-cases (is_ok (validate_receipt c s r))) [
    | inl valid ↦
        rw (valid, store_receipt)
          (record { genesis = refl; ledger = refl; blocks = refl; orphans = refl; pending = refl })
    | inr refused ↦
        rw (refused, store_receipt)
          (record { genesis = refl; ledger = refl; blocks = refl; orphans = refl; pending = refl })
  ]

  store_receipts-IsKept :
      (s : NodeState) (receipts : List RelayReceipt) → IsKept c s (store_receipts c s receipts)
  unfolding store_receipts
  store_receipts-IsKept s [] = IsKept-self c s
  store_receipts-IsKept s (r ∷ rest) =
      IsKept-trans c (SameBlocks-IsKept c (store_receipt-SameBlocks s r))
        (store_receipts-IsKept (store_receipt c s r).1 rest)

  -- Links continue from the state that the first part's replay ends in.
  IsLinked-append :
      (s : LedgerState) (parent : HashBytes) (xs ys : List Block) {t : LedgerState}
      → s.tip_hash ≡ parent
      → IsLinked parent (add_u64 s.height 1) xs
      → replay_from c s xs ≡ ok t
      → IsLinked t.tip_hash (add_u64 t.height 1) ys
      → IsLinked parent (add_u64 s.height 1) (xs ++ ys)
  unfolding replay_from
  IsLinked-append s parent [] ys {t} at_parent linked replayed later =
      let same : s ≡ t = ok-injective replayed in rw (← at_parent, same) later
  IsLinked-append s parent (block ∷ rest) ys {t} at_parent (links, numbered, linked) replayed
        later =
      let (applied, rest_replayed) = replay_from-uncons c s block rest replayed in
      let head = apply_block-IsHead c s block applied in
      let linked' : IsLinked block.block_hash (add_u64 (apply_block c s block).1.height 1) rest =
        rw (head.height, numbered) linked in
      let both =
        IsLinked-append (apply_block c s block).1 block.block_hash rest ys head.tip_hash linked'
          rest_replayed later in
      let both' : IsLinked block.block_hash (add_u64 (add_u64 s.height 1) 1) (rest ++ ys) =
        rw (← numbered, ← head.height) both in
      (links, numbered, both')

  IsLinked-take :
      (parent : HashBytes) (height n : ℕ) (xs : List Block)
      → IsLinked parent height xs
      → IsLinked parent height (take n xs)
  IsLinked-take parent height zero xs linked = tt
  IsLinked-take parent height (suc n) [] linked = tt
  IsLinked-take parent height (suc n) (x ∷ xs) (links, numbered, linked) =
      (links, numbered, IsLinked-take x.block_hash (add_u64 height 1) n xs linked)

  -- A part of a chain that is linked, with the state after it.
  abbrev IsBase : NodeState → List Block × StateSnapshot → Type 0
  IsBase s (base, snapshot) =
      IsLinked empty_hash 1 base × (replay_blocks c s.genesis base ≡ ok snapshot)

  abbrev whole : NodeState → Result (List Block × StateSnapshot)
  whole s = ok (s.blocks, s.ledger)

  whole-IsBase :
      (s : NodeState) (base : List Block) (snapshot : StateSnapshot)
      → IsCanonical c s
      → whole s ≡ ok (base, snapshot)
      → IsBase s (base, snapshot)
  whole-IsBase s base snapshot canonical h =
      subst (IsBase s) (ok-injective h) (canonical.linked, canonical.replayed)

  sync_repair_base_for_segment-IsBase :
      (s : NodeState) (segment : ChainSegment) {base : List Block} {snapshot : StateSnapshot}
      → IsCanonical c s
      → sync_repair_base_for_segment c s segment ≡ ok (base, snapshot)
      → IsBase s (base, snapshot)
  unfolding sync_repair_base_for_segment
  sync_repair_base_for_segment-IsBase s segment {base} {snapshot} canonical h =
      elim (Bool-cases s.consensus_v2) [
        | inr v1 ↦ whole-IsBase s base snapshot canonical (ground arith)
        | inl v2 ↦ elim (Option-cases (highest_local_qc s)) [
          | inl no_qc ↦ whole-IsBase s base snapshot canonical (ground arith)
          | inr (qc, is_qc) ↦
              let prefix = take qc.block_number s.blocks in
              elim (Bool-cases (
                ltb qc.block_number s.ledger.height
                && segment.base_height == qc.block_number
                && segment.base_tip_hash == qc.block_hash)) [
                  | inr other ↦ whole-IsBase s base snapshot canonical (ground arith)
                  | inl repair ↦
                      let next : LedgerState → Result (List Block × StateSnapshot) =
                        λ ledger. ok (prefix, ledger) in
                      let h' : (replay_blocks c s.genesis prefix >>= next) ≡ ok (base, snapshot) =
                        ground arith in
                      let (ledger, replayed, done) =
                        >>=-eq-ok (replay_blocks c s.genesis prefix) next h' in
                      subst (IsBase s) (ok-injective done) (
                        IsLinked-take empty_hash 1 qc.block_number s.blocks canonical.linked,
                        replayed,
                      )
                ]
        ]
      ]

  -- After `apply_chain_segment` succeeds on a node whose chain is linked and replayed, with any
  -- fuel for its own votes, the node's chain is linked and its ledger is the replay of it, also
  -- where the segment replaced the blocks after the locked certificate.
  pub apply_chain_segment-IsCanonical :
      (fuel : ℕ) (f : Floats) (s : NodeState) (segment : ChainSegment) {s' : NodeState}
      → IsCanonical c s
      → apply_chain_segment c (maybe_broadcast_local_proposal_vote c fuel) f s segment ≡ ok s'
      → IsCanonical c s'
  unfolding apply_chain_segment replay_blocks from_genesis
  apply_chain_segment-IsCanonical fuel f s segment {s'} canonical h =
      let local_vote = maybe_broadcast_local_proposal_vote c fuel in
      let ((base, snapshot), based, h1) =
        at-eq-ok s (sync_repair_base_for_segment c s segment) _ h in
      let (chain, aligned, h2) =
        at-eq-ok s (align_chain_segment_to_local_chain base snapshot segment) _ h1 in
      let (receipts, checked, h3) =
        at-eq-ok s (validate_snapshot_receipts c s.consensus chain.receipts) _ h2 in
      let (base_ledger, replayed, h4) = at-eq-ok s (replay_blocks c s.genesis base) _ h3 in
      let (ledger, validated, h5) =
        at-eq-ok s (replay_validated c f s.consensus base_ledger snapshot.tip_hash chain.blocks) _
          h4 in
      let (_, same, done) =
        at-eq-ok s
          (bail_if (not (snapshot_eq ledger chain.target_snapshot))
            "incremental sync replay mismatch")
          _ h5 in
      let (base_linked, base_replayed) =
        sync_repair_base_for_segment-IsBase s segment canonical based in
      let same_ledger : base_ledger ≡ snapshot = ok-injective (sym replayed ∙ base_replayed) in
      let (of_chain, links) =
        replay_validated-ok c f s.consensus base_ledger snapshot.tip_hash chain.blocks validated in
      let links' : IsLinked base_ledger.tip_hash (add_u64 base_ledger.height 1) chain.blocks =
        rw (ap (λ z. z.tip_hash) same_ledger) links in
      let linked =
        IsLinked-append (from_genesis s.genesis) empty_hash base chain.blocks refl base_linked
          replayed links' in
      let all_replayed =
        replay_from-append c (from_genesis s.genesis) base chain.blocks replayed ∙ of_chain in
      let t = replace_chain c s ledger (base ++ chain.blocks) s.receipt_book.receipts in
      let start =
        replaced-IsCanonical s ledger (base ++ chain.blocks) s.receipt_book.receipts linked
          all_replayed in
      let stored = store_receipts-IsKept t receipts in
      let steps =
        settle_chain-IsKept local_vote (local_vote-IsKept c fuel) (local_vote-Fails c fuel)
          (store_receipts c t receipts) (base ++ chain.blocks) chain.proposal_votes done in
      steps.canonical (stored.canonical start)
