-- ===== src/Node/Finality/Kept.antt =====
-- Storing votes and building certificates keeps a node's chain and its blocks.
use entangrid.Prelude.{
  List, [], ◌∷◌, Option, Bool, ◌≡◌, refl, inl, inr, arith, ok, ok-injective, >>=-eq-ok, Bool-cases,
  Option-cases, ltb, length,
}
use entangrid.BTree.Key.{nat_key}
use entangrid.BTree.Map
use entangrid.BTree.Map.{values}
use entangrid.Types.Records.{HashBytes, ProposalVote, QuorumCertificate}
use entangrid.Types.Encoding.{Crypto}
use entangrid.Node.State.{NodeState, known_block}
use entangrid.Node.State.Outcomes.{at-eq-ok}
use entangrid.Node.Votes.{
  remove_all, remove_proposal_vote_from_maps, resolve_conflicting_proposal_vote, collect_conflicts,
  vote_maps, put_vote, store_proposal_vote, store_buffered_proposal_vote,
}
use entangrid.Node.Certificates.{quorum_certificate_threshold}
use entangrid.Node.Finality.{
  certificate_of, record_qc, maybe_build_qc, prune_votes_not_extending_certified_block,
}
use entangrid.Node.Adoption.Kept.{SameBlocks, IsKept, SameBlocks-IsKept, IsKept-self}

remove_all-SameBlocks :
    (s : NodeState) (votes : List ProposalVote) → SameBlocks s (remove_all s votes)
unfolding remove_all remove_proposal_vote_from_maps
remove_all-SameBlocks s [] = record {
  genesis = refl;
  ledger = refl;
  blocks = refl;
  orphans = refl;
  pending = refl;
}
remove_all-SameBlocks s (vote ∷ votes) =
    let k = remove_all-SameBlocks (remove_proposal_vote_from_maps s vote) votes in
    record {
      genesis = k.genesis;
      ledger = k.ledger;
      blocks = k.blocks;
      orphans = k.orphans;
      pending = k.pending;
    }

module _ (c : Crypto) where
  pub resolved-IsKept :
      (s : NodeState) (vote : ProposalVote) {s' : NodeState}
      → resolve_conflicting_proposal_vote s vote ≡ ok s'
      → IsKept c s s'
  unfolding resolve_conflicting_proposal_vote
  resolved-IsKept s vote {s'} h =
      let (conflicts, _, removed) = >>=-eq-ok (collect_conflicts s vote (vote_maps s)) _ h in
      rw (← ok-injective removed) (SameBlocks-IsKept c (remove_all-SameBlocks s conflicts))

  pub store_proposal_vote-IsKept :
      (s : NodeState) (vote : ProposalVote) {inserted : Bool} {s' : NodeState}
      → store_proposal_vote c s vote ≡ ok (inserted, s')
      → IsKept c s s'
  unfolding store_proposal_vote resolve_conflicting_proposal_vote
  store_proposal_vote-IsKept s vote {inserted} {s'} h =
      let (r, resolved, h') = at-eq-ok s (resolve_conflicting_proposal_vote s vote) _ h in
      let (conflicts, _, removed) = >>=-eq-ok (collect_conflicts s vote (vote_maps s)) _ resolved in
      let ((i, votes), _, same) = at-eq-ok r (put_vote c r.proposal_votes vote) _ h' in
      let k = remove_all-SameBlocks s conflicts in
      let at : r ≡ remove_all s conflicts = ground arith in
      SameBlocks-IsKept c {s = s} {s' = s'} (record {
        genesis = ground (arith, k.genesis);
        ledger = ground (arith, k.ledger);
        blocks = ground (arith, k.blocks);
        orphans = ground (arith, k.orphans);
        pending = ground (arith, k.pending);
      })

  pub store_buffered_proposal_vote-IsKept :
      (s : NodeState) (vote : ProposalVote) {inserted : Bool} {s' : NodeState}
      → store_buffered_proposal_vote c s vote ≡ ok (inserted, s')
      → IsKept c s s'
  unfolding store_buffered_proposal_vote resolve_conflicting_proposal_vote
  store_buffered_proposal_vote-IsKept s vote {inserted} {s'} h =
      let (r, resolved, h') = at-eq-ok s (resolve_conflicting_proposal_vote s vote) _ h in
      let (conflicts, _, removed) = >>=-eq-ok (collect_conflicts s vote (vote_maps s)) _ resolved in
      let ((i, votes), _, same) = at-eq-ok r (put_vote c r.buffered_proposal_votes vote) _ h' in
      let k = remove_all-SameBlocks s conflicts in
      let at : r ≡ remove_all s conflicts = ground arith in
      SameBlocks-IsKept c {s = s} {s' = s'} (record {
        genesis = ground (arith, k.genesis);
        ledger = ground (arith, k.ledger);
        blocks = ground (arith, k.blocks);
        orphans = ground (arith, k.orphans);
        pending = ground (arith, k.pending);
      })

  record_qc-IsKept :
      (s : NodeState) (built : QuorumCertificate) {qc : Option QuorumCertificate} {s' : NodeState}
      → record_qc c s built ≡ ok (qc, s')
      → IsKept c s s'
  unfolding record_qc prune_votes_not_extending_certified_block
  record_qc-IsKept s built {qc} {s'} h = SameBlocks-IsKept c {s = s} {s' = s'} (ground arith)

  pub maybe_build_qc-IsKept :
      (s : NodeState) (block_hash : HashBytes) {qc : Option QuorumCertificate} {s' : NodeState}
      → maybe_build_qc c s block_hash ≡ ok (qc, s')
      → IsKept c s s'
  unfolding maybe_build_qc
  maybe_build_qc-IsKept s block_hash {qc} {s'} h =
      elim (Option-cases (Map.get s.quorum_certificates block_hash)) [
        | inr (old, found) ↦ let same : s' ≡ s = ground arith in rw same (IsKept-self c s)
        | inl fresh ↦ elim (Option-cases (known_block s block_hash)) [
          | inl unknown ↦ let same : s' ≡ s = ground arith in rw same (IsKept-self c s)
          | inr (block, known) ↦ elim (Option-cases (Map.get s.proposal_votes block_hash)) [
            | inl no_votes ↦ let same : s' ≡ s = ground arith in rw same (IsKept-self c s)
            | inr (votes, found) ↦
                elim (Bool-cases (
                  ltb (length votes)
                    (quorum_certificate_threshold (length s.genesis.validators)))) [
                      | inl few ↦ let same : s' ≡ s = ground arith in rw same (IsKept-self c s)
                      | inr enough ↦
                          record_qc-IsKept s (certificate_of c block block_hash (values votes))
                            {qc = qc} {s' = s'} (ground arith)
                    ]
          ]
        ]
      ]
