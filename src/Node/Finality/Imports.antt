-- ===== src/Node/Finality/Imports.antt =====
-- What the import of a vote or of a certificate leaves of a node's chain.
use entangrid.Prelude.{
  List, [], ◌∷◌, Option, Bool, true, false, ◌&&◌, ◌≡◌, refl, inl, inr, arith, ok, ◌>>=◌, >>=-eq-ok,
  Bool-cases, Option-cases, ok-injective,
}
use entangrid.BTree.Key.{nat_key}
use entangrid.BTree.Map
use entangrid.BTree.Map.{values}
use entangrid.Types.Records.{HashBytes, ProposalVote, QuorumCertificate}
use entangrid.Types.Encoding.{Crypto}
use entangrid.Node.State.{NodeState, LocalVote, known_block}
use entangrid.Node.State.Outcomes.{at-eq-ok}
use entangrid.Node.State.Recovery.{recovery_sync_only_active}
use entangrid.Node.Chains.{has_block}
use entangrid.Node.Adoption.{
  maybe_adopt_certified_branch, adopt_vote_supported_branch, adopt_better_uncertified_child,
}
use entangrid.Node.Votes.{store_proposal_vote}
use entangrid.Node.Finality.{
  maybe_build_qc, prune_votes_not_extending_certified_block,
  remove_conflicting_votes_for_certified_vote, maybe_finalize_quorum_certificate, settle_vote,
  import_proposal_vote, store_certified_votes, settle_qc, import_quorum_certificate,
}
use entangrid.Node.Adoption.Kept.{
  SameBlocks, IsKept, Keeps, SameBlocks-IsKept, IsKept-self, IsKept-trans,
  maybe_adopt_certified_branch-IsKept, adopt_vote_supported_branch-IsKept,
  adopt_better_uncertified_child-IsKept,
}
use entangrid.Node.Finality.Kept.{
  store_proposal_vote-IsKept, store_buffered_proposal_vote-IsKept, maybe_build_qc-IsKept,
}

module _ (c : Crypto) where
  cleared-SameBlocks :
      (s : NodeState) (vote : ProposalVote)
      → SameBlocks s (remove_conflicting_votes_for_certified_vote s vote)
  unfolding remove_conflicting_votes_for_certified_vote
  cleared-SameBlocks s vote = record {
    genesis = refl;
    ledger = refl;
    blocks = refl;
    orphans = refl;
    pending = refl;
  }

  store_certified_votes-cons :
      (s : NodeState) (vote : ProposalVote) (votes : List ProposalVote) {s' : NodeState}
      → store_certified_votes c s (vote ∷ votes) ≡ ok s'
      → (r : Bool × NodeState) × (store_proposal_vote c
            (remove_conflicting_votes_for_certified_vote s vote)
            vote
          ≡ ok r)
        × (store_certified_votes c r.1 votes ≡ ok s')
  unfolding store_certified_votes
  store_certified_votes-cons s vote votes h =
      >>=-eq-ok (store_proposal_vote c (remove_conflicting_votes_for_certified_vote s vote) vote) _
        h

  store_certified_votes-IsKept :
      (s : NodeState) (votes : List ProposalVote) {s' : NodeState}
      → store_certified_votes c s votes ≡ ok s'
      → IsKept c s s'
  store_certified_votes-IsKept s [] {s'} h =
      let same : s ≡ s' = unfold store_certified_votes in ok-injective h in
      rw (← same) (IsKept-self c s)
  store_certified_votes-IsKept s (vote ∷ votes) {s'} h =
      let cleared = remove_conflicting_votes_for_certified_vote s vote in
      let ((i, t), stored, rest) = store_certified_votes-cons s vote votes h in
      let clear = SameBlocks-IsKept c {s = s} {s' = cleared} (cleared-SameBlocks s vote) in
      IsKept-trans c clear (
        IsKept-trans c (store_proposal_vote-IsKept c cleared vote stored)
          (store_certified_votes-IsKept t votes rest))

  module _ (local_vote : LocalVote) (keeps : Keeps c local_vote) where
    -- The two adoptions that follow a certificate.
    certified_steps-IsKept :
        (s : NodeState) (tip : HashBytes) {a b : Bool} {t u : NodeState}
        → maybe_adopt_certified_branch c s tip ≡ ok (a, t)
        → adopt_better_uncertified_child c local_vote t ≡ ok (b, u)
        → IsKept c s u
    certified_steps-IsKept s tip {a} {b} {t} {u} first second =
        IsKept-trans c (maybe_adopt_certified_branch-IsKept c s tip first)
          (adopt_better_uncertified_child-IsKept c local_vote keeps t second)

    pub maybe_finalize_quorum_certificate-IsKept :
        (s : NodeState) (block_hash : HashBytes) {qc : Option QuorumCertificate} {s' : NodeState}
        → maybe_finalize_quorum_certificate c local_vote s block_hash ≡ ok (qc, s')
        → IsKept c s s'
    unfolding maybe_finalize_quorum_certificate
    maybe_finalize_quorum_certificate-IsKept s block_hash {qc} {s'} h =
        let ((built, t), made, h') = at-eq-ok s (maybe_build_qc c s block_hash) _ h in
        let first = maybe_build_qc-IsKept c s block_hash made in
        elim (Option-cases built) [
          | inl nothing ↦ let same : s' ≡ t = ground arith in rw same first
          | inr (certificate, is_built) ↦
              let h'' = rw is_built at h' in
              let ((_, u), adopted, rest) =
                at-eq-ok t (maybe_adopt_certified_branch c t certificate.block_hash) _ h'' in
              let ((_, v), settled, done) =
                >>=-eq-ok (adopt_better_uncertified_child c local_vote u) _ rest in
              let same : s' ≡ v = ground arith in
              rw same (
                IsKept-trans c first
                  (certified_steps-IsKept t certificate.block_hash adopted settled))
        ]

    settle_vote-IsKept :
        (vote : ProposalVote) (inserted : Bool) (s : NodeState) {out : Bool} {s' : NodeState}
        → settle_vote c local_vote vote (inserted, s) ≡ ok (out, s')
        → IsKept c s s'
    unfolding settle_vote
    settle_vote-IsKept vote false s {out} {s'} h =
        let same : s' ≡ s = ground arith in rw same (IsKept-self c s)
    settle_vote-IsKept vote true s {out} {s'} h =
        let ((built, t), made, h') =
          >>=-eq-ok (maybe_finalize_quorum_certificate c local_vote s vote.block_hash) _ h in
        let first = maybe_finalize_quorum_certificate-IsKept s vote.block_hash made in
        elim (Option-cases built) [
          | inr (certificate, is_built) ↦ let same : s' ≡ t = ground arith in rw same first
          | inl nothing ↦
              let h'' = rw nothing at h' in
              let ((_, u), adopted, done) =
                >>=-eq-ok (adopt_vote_supported_branch c local_vote t vote.block_hash) _ h'' in
              let same : s' ≡ u = ground arith in
              rw same (
                IsKept-trans c first
                  (adopt_vote_supported_branch-IsKept c local_vote keeps t vote.block_hash adopted))
        ]

    settle_qc-IsKept :
        (qc : QuorumCertificate) (s : NodeState) {out : Bool} {s' : NodeState}
        → settle_qc c local_vote qc s ≡ ok (out, s')
        → IsKept c s s'
    unfolding settle_qc prune_votes_not_extending_certified_block
    settle_qc-IsKept qc s {out} {s'} h =
        elim (Bool-cases (Map.contains_key s.quorum_certificates qc.block_hash)) [
          | inl old ↦ let same : s' ≡ s = ground arith in rw same (IsKept-self c s)
          | inr new ↦
              let h' = rw new at h in
              let ((_, u), adopted, rest) = at-eq-ok _ (maybe_adopt_certified_branch c _ _) _ h' in
              let ((_, v), settled, done) =
                >>=-eq-ok (adopt_better_uncertified_child c local_vote u) _ rest in
              let same : s' ≡ v = ground arith in
              rw same (
                IsKept-trans c
                  (SameBlocks-IsKept c {s = s} (record {
                    genesis = refl;
                    ledger = refl;
                    blocks = refl;
                    orphans = refl;
                    pending = refl;
                  }))
                  (certified_steps-IsKept _ qc.block_hash adopted settled))
        ]

    -- An import of a quorum certificate that returns leaves a linked and replayed chain linked and
    -- replayed, and every block known that was known, whether or not the node changes its chain.
    pub certificate_import-IsKept :
        (s : NodeState) (qc : QuorumCertificate) {imported : Bool} {s' : NodeState}
        → import_quorum_certificate c local_vote s qc ≡ ok (imported, s')
        → IsKept c s s'
    unfolding import_quorum_certificate
    certificate_import-IsKept s qc {imported} {s'} h =
        elim (Option-cases (known_block s qc.block_hash)) [
          | inl unknown ↦ absurd (ground arith)
          | inr (block, known) ↦
              let h' : (store_certified_votes c s qc.votes >>= settle_qc c local_vote qc)
                  ≡ ok (imported, s') =
                ground arith in
              let (t, stored, settled) = >>=-eq-ok (store_certified_votes c s qc.votes) _ h' in
              IsKept-trans c (store_certified_votes-IsKept s qc.votes stored)
                (settle_qc-IsKept qc t settled)
        ]

    -- An import of a vote that returns leaves a linked and replayed chain linked and replayed, and
    -- every block known that was known, also where the vote completes a certificate or moves the
    -- chain.
    pub vote_import-IsKept :
        (s : NodeState) (vote : ProposalVote) {imported : Bool} {s' : NodeState}
        → import_proposal_vote c local_vote s vote ≡ ok (imported, s')
        → IsKept c s s'
    unfolding import_proposal_vote
    vote_import-IsKept s vote {imported} {s'} h =
        elim (Option-cases (known_block s vote.block_hash)) [
          | inl unknown ↦
              store_buffered_proposal_vote-IsKept c s vote {inserted = imported} {s' = s'}
                (ground arith)
          | inr (block, known) ↦
              elim (Bool-cases (
                recovery_sync_only_active s
                && has_block block.block_hash s.pending_certified_children)) [
                  | inl deferred ↦ let same : s' ≡ s = ground arith in rw same (IsKept-self c s)
                  | inr go ↦
                      let h' : (store_proposal_vote c s vote >>= settle_vote c local_vote vote)
                          ≡ ok (imported, s') =
                        ground arith in
                      let ((inserted, t), stored, settled) =
                        >>=-eq-ok (store_proposal_vote c s vote) _ h' in
                      IsKept-trans c (store_proposal_vote-IsKept c s vote stored)
                        (settle_vote-IsKept vote inserted t settled)
                ]
        ]
