-- ===== src/Node/Finality/Failed.antt =====
-- An import of a vote that fails: the state that is left, with what was changed before the error.
use entangrid.Prelude.{
  String, Bool, true, false, ◌&&◌, ◌≡◌, inl, inr, arith, err, ◌>>◌, >>=-eq-err, not, bail_if,
  Bool-cases, Option-cases,
}
use entangrid.Types.Records.{HashBytes, ProposalVote}
use entangrid.Types.Encoding.{Crypto}
use entangrid.Node.State.{NodeState, Fault, LocalVote, known_block}
use entangrid.Node.State.Outcomes.{at-eq-err}
use entangrid.Node.State.Recovery.{recovery_sync_only_active}
use entangrid.Node.Chains.{has_block}
use entangrid.Node.Certificates.{
  validate_proposal_vote_signature_and_signer, validate_hybrid_proposal_vote_policy,
  validate_proposal_vote_for_block,
}
use entangrid.Node.Votes.{
  resolve_conflicting_proposal_vote, put_vote, store_proposal_vote, store_buffered_proposal_vote,
}
use entangrid.Node.Adoption.{
  maybe_adopt_certified_branch, adopt_vote_supported_branch, adopt_better_uncertified_child,
}
use entangrid.Node.Finality.{
  maybe_build_qc, maybe_finalize_quorum_certificate, settle_vote, import_proposal_vote,
}
use entangrid.Node.Adoption.Kept.{
  IsKept, Keeps, Fails, IsKept-self, IsKept-trans, maybe_adopt_certified_branch-IsKept,
}
use entangrid.Node.Adoption.Failed.{
  adopt_vote_supported_branch-fails, adopt_better_uncertified_child-fails,
}
use entangrid.Node.Finality.Kept.{
  resolved-IsKept, store_proposal_vote-IsKept, maybe_build_qc-IsKept,
}
use entangrid.Node.Finality.Imports.{maybe_finalize_quorum_certificate-IsKept}

module _ (c : Crypto) where
  -- The conflicting votes that were taken away stay away.
  store_proposal_vote-fails :
      (s : NodeState) (vote : ProposalVote) {text : String} {s' : NodeState}
      → store_proposal_vote c s vote ≡ err (Fault.refused text s')
      → IsKept c s s'
  unfolding store_proposal_vote
  store_proposal_vote-fails s vote {text} {s'} h =
      elim (at-eq-err s (resolve_conflicting_proposal_vote s vote) _ h) [
        | inl same ↦ rw same (IsKept-self c s)
        | inr (r, resolved, h') ↦ elim (at-eq-err r (put_vote c r.proposal_votes vote) _ h') [
          | inl same ↦ rw same (resolved-IsKept c s vote resolved)
          | inr (p, put, impossible) ↦ absurd (ground arith)
        ]
      ]

  store_buffered_proposal_vote-fails :
      (s : NodeState) (vote : ProposalVote) {text : String} {s' : NodeState}
      → store_buffered_proposal_vote c s vote ≡ err (Fault.refused text s')
      → IsKept c s s'
  unfolding store_buffered_proposal_vote
  store_buffered_proposal_vote-fails s vote {text} {s'} h =
      elim (at-eq-err s (resolve_conflicting_proposal_vote s vote) _ h) [
        | inl same ↦ rw same (IsKept-self c s)
        | inr (r, resolved, h') ↦
            elim (at-eq-err r (put_vote c r.buffered_proposal_votes vote) _ h') [
              | inl same ↦ rw same (resolved-IsKept c s vote resolved)
              | inr (p, put, impossible) ↦ absurd (ground arith)
            ]
      ]

  module _ (local_vote : LocalVote) (keeps : Keeps c local_vote) (fails : Fails c local_vote) where
    maybe_finalize_quorum_certificate-fails :
        (s : NodeState) (block_hash : HashBytes) {text : String} {s' : NodeState}
        → maybe_finalize_quorum_certificate c local_vote s block_hash ≡ err (Fault.refused text s')
        → IsKept c s s'
    unfolding maybe_finalize_quorum_certificate
    maybe_finalize_quorum_certificate-fails s block_hash {text} {s'} h =
        elim (at-eq-err s (maybe_build_qc c s block_hash) _ h) [
          | inl same ↦ rw same (IsKept-self c s)
          | inr ((built, t), made, h') ↦
              IsKept-trans c (maybe_build_qc-IsKept c s block_hash made)
                (elim (Option-cases built) [
                  | inl nothing ↦ absurd (ground arith)
                  | inr (certificate, is_built) ↦
                      elim (at-eq-err t (maybe_adopt_certified_branch c t certificate.block_hash) _
                        (rw is_built at h')) [
                          | inl same ↦ rw same (IsKept-self c t)
                          | inr ((_, u), adopted, rest) ↦
                              IsKept-trans c
                                (maybe_adopt_certified_branch-IsKept c t certificate.block_hash
                                  adopted)
                                (elim (>>=-eq-err (adopt_better_uncertified_child c local_vote u) _
                                  rest) [
                                    | inl failed ↦
                                        adopt_better_uncertified_child-fails c local_vote keeps
                                          fails u failed
                                    | inr (v, settled, impossible) ↦ absurd (ground arith)
                                  ])
                        ]
                ])
        ]

    settle_vote-fails :
        (vote : ProposalVote) (inserted : Bool) (s : NodeState) {text : String} {s' : NodeState}
        → settle_vote c local_vote vote (inserted, s) ≡ err (Fault.refused text s')
        → IsKept c s s'
    unfolding settle_vote
    settle_vote-fails vote false s {text} {s'} h = absurd (ground arith)
    settle_vote-fails vote true s {text} {s'} h =
        elim (>>=-eq-err (maybe_finalize_quorum_certificate c local_vote s vote.block_hash) _ h) [
          | inl failed ↦ maybe_finalize_quorum_certificate-fails s vote.block_hash failed
          | inr ((built, t), made, h') ↦
              IsKept-trans c
                (maybe_finalize_quorum_certificate-IsKept c local_vote keeps s vote.block_hash made)
                (elim (Option-cases built) [
                  | inr (certificate, is_built) ↦ absurd (ground arith)
                  | inl nothing ↦
                      elim (>>=-eq-err (adopt_vote_supported_branch c local_vote t vote.block_hash)
                        _ (rw nothing at h')) [
                          | inl failed ↦
                              adopt_vote_supported_branch-fails c local_vote keeps fails t
                                vote.block_hash failed
                          | inr (u, adopted, impossible) ↦ absurd (ground arith)
                        ]
                ])
        ]

    -- An import of a vote that fails leaves a linked and replayed chain linked and replayed, and
    -- every block known that was known.
    pub vote_import-fails :
        (s : NodeState) (vote : ProposalVote) {text : String} {s' : NodeState}
        → import_proposal_vote c local_vote s vote ≡ err (Fault.refused text s')
        → IsKept c s s'
    unfolding import_proposal_vote
    vote_import-fails s vote {text} {s'} h =
        let checks =
          bail_if (not s.consensus_v2) "proposal votes require consensus_v2"
          >> validate_proposal_vote_signature_and_signer c s vote
          >> validate_hybrid_proposal_vote_policy c s vote in
        elim (at-eq-err s checks _ h) [
          | inl same ↦ rw same (IsKept-self c s)
          | inr (_, checked, h1) ↦ elim (Option-cases (known_block s vote.block_hash)) [
            | inl unknown ↦ store_buffered_proposal_vote-fails s vote (rw unknown at h1)
            | inr (block, known) ↦
                elim (Bool-cases (
                  recovery_sync_only_active s
                  && has_block block.block_hash s.pending_certified_children)) [
                    | inl deferred ↦ absurd (cc (rw (known, deferred) at h1))
                    | inr go ↦
                        elim (at-eq-err s (validate_proposal_vote_for_block c s vote block) _
                          (rw (known, go) at h1)) [
                            | inl same ↦ rw same (IsKept-self c s)
                            | inr (_, valid, h2) ↦
                                elim (>>=-eq-err (store_proposal_vote c s vote) _ h2) [
                                  | inl failed ↦ store_proposal_vote-fails s vote failed
                                  | inr ((inserted, t), stored, failed) ↦
                                      IsKept-trans c (store_proposal_vote-IsKept c s vote stored)
                                        (settle_vote-fails vote inserted t failed)
                                ]
                          ]
                  ]
          ]
        ]
