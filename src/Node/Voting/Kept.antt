-- ===== src/Node/Voting/Kept.antt =====
-- What the node's own vote, and the imports that may end in one, leave of its chain.
use entangrid.Prelude.{
  ℕ, zero, suc, Bool, ◌≡◌, inl, String, ok, err, ◌>>=◌, if◌then◌else◌, Bool-cases, arith,
  ok-injective, ◌⊎◌, inr, refl,
}
use entangrid.Types.Records.{ProposalVote, QuorumCertificate}
use text.Mathlib.Text.{◌==◌ as str_eq}
use entangrid.Types.Encoding.{Crypto}
use entangrid.Node.State.{NodeState, Fault, Outcome, at}
use entangrid.Node.State.Outcomes.{at-eq-ok, at-eq-err}
use entangrid.Node.Adoption.Kept.{IsKept, IsKept-self, Keeps, Fails}
use entangrid.Node.Votes.{local_vote_would_scatter_before_qc}
use entangrid.Node.Finality.{import_proposal_vote, import_quorum_certificate}
use entangrid.Node.Finality.Imports.{vote_import-IsKept, certificate_import-IsKept}
use entangrid.Node.Finality.Failed.{vote_import-fails}
use entangrid.Node.Voting.{
  build_local_proposal_vote, cast_or_skip, maybe_broadcast_local_proposal_vote,
}

module _ (c : Crypto) where
  cast_or_skip-cases :
      (r : Outcome (Bool × NodeState)) {s' : NodeState}
      → cast_or_skip c r ≡ ok s'
      → ((text : String) × (r ≡ err (Fault.refused text s'))) ⊎ (i : Bool) × (r ≡ ok (i, s'))
  unfolding cast_or_skip
  cast_or_skip-cases (ok (i, t)) {s'} h =
      let same : t ≡ s' = ok-injective h in inr (i, rw same refl)
  cast_or_skip-cases (err (Fault.refused text t)) {s'} h =
      elim (Bool-cases (str_eq text "conflicting proposal vote")) [
        | inl conflict ↦
            let same : t ≡ s' = ok-injective (rw conflict at h) in inl (text, rw same refl)
        | inr other ↦ absurd (cc (rw other at h))
      ]
  cast_or_skip-cases (err Fault.out_of_fuel) {s'} h = absurd (ground arith)

  cast_or_skip-err :
      (r : Outcome (Bool × NodeState)) {text : String} {s' : NodeState}
      → cast_or_skip c r ≡ err (Fault.refused text s')
      → r ≡ err (Fault.refused text s')
  unfolding cast_or_skip
  cast_or_skip-err (ok (i, t)) {text} {s'} h = absurd (ground arith)
  cast_or_skip-err (err (Fault.refused text' t)) {text} {s'} h =
      elim (Bool-cases (str_eq text' "conflicting proposal vote")) [
        | inl conflict ↦ absurd (cc (rw conflict at h))
        | inr other ↦ cc (rw other at h)
      ]
  cast_or_skip-err (err Fault.out_of_fuel) {text} {s'} h = absurd (ground arith)

  -- One vote, when the votes with less fuel keep the chain.
  module _ (fuel : ℕ) (keeps : Keeps c (maybe_broadcast_local_proposal_vote c fuel))
      (fails : Fails c (maybe_broadcast_local_proposal_vote c fuel)) where
    vote_step-IsKept : Keeps c (maybe_broadcast_local_proposal_vote c (suc fuel))
    unfolding maybe_broadcast_local_proposal_vote
    vote_step-IsKept s block s' h = elim (Bool-cases s.consensus_v2) [
      | inr v1 ↦ let same : s' ≡ s = ground arith in rw same (IsKept-self c s)
      | inl v2 ↦
          let cast = import_proposal_vote c (maybe_broadcast_local_proposal_vote c fuel) s in
          let next : ProposalVote → Outcome NodeState = λ vote.
            (if local_vote_would_scatter_before_qc s vote
              then ok s
              else cast_or_skip c (cast vote)) in
          let h1 : (at s (build_local_proposal_vote c s block) >>= next) ≡ ok s' = ground arith in
          let (vote, built, h2) = at-eq-ok s (build_local_proposal_vote c s block) next h1 in
          elim (Bool-cases (local_vote_would_scatter_before_qc s vote)) [
            | inl scatter ↦ let same : s' ≡ s = ground arith in rw same (IsKept-self c s)
            | inr go ↦ elim (cast_or_skip-cases (cast vote) {s' = s'} (ground arith)) [
              | inl (text, failed) ↦
                  vote_import-fails c (maybe_broadcast_local_proposal_vote c fuel) keeps fails s
                    vote failed
              | inr (i, done) ↦
                  vote_import-IsKept c (maybe_broadcast_local_proposal_vote c fuel) keeps s vote
                    done
            ]
          ]
    ]

    vote_step-Fails : Fails c (maybe_broadcast_local_proposal_vote c (suc fuel))
    unfolding maybe_broadcast_local_proposal_vote
    vote_step-Fails s block text s' h = elim (Bool-cases s.consensus_v2) [
      | inr v1 ↦ absurd (ground arith)
      | inl v2 ↦
          let cast = import_proposal_vote c (maybe_broadcast_local_proposal_vote c fuel) s in
          let next : ProposalVote → Outcome NodeState = λ vote.
            (if local_vote_would_scatter_before_qc s vote
              then ok s
              else cast_or_skip c (cast vote)) in
          let h1 : (at s (build_local_proposal_vote c s block) >>= next)
              ≡ err (Fault.refused text s') =
            ground arith in
          elim (at-eq-err s (build_local_proposal_vote c s block) next h1) [
            | inl same ↦ rw same (IsKept-self c s)
            | inr (vote, built, h2) ↦
                elim (Bool-cases (local_vote_would_scatter_before_qc s vote)) [
                  | inl scatter ↦ absurd (ground arith)
                  | inr go ↦
                      let failed : cast_or_skip c (cast vote) ≡ err (Fault.refused text s') =
                        ground arith in
                      vote_import-fails c (maybe_broadcast_local_proposal_vote c fuel) keeps fails s
                        vote (cast_or_skip-err (cast vote) failed)
                ]
          ]
    ]

  -- The node's own vote keeps its chain, whatever the fuel, also where it fails.
  local_vote-kept :
      (fuel : ℕ)
      → Keeps c (maybe_broadcast_local_proposal_vote c fuel)
        × Fails c (maybe_broadcast_local_proposal_vote c fuel)
  unfolding maybe_broadcast_local_proposal_vote
  local_vote-kept zero =
      (λ s block s' h. absurd (ground arith), λ s block text s' h. absurd (ground arith))
  local_vote-kept (suc fuel) =
      let (keeps, fails) = local_vote-kept fuel in
      (vote_step-IsKept fuel keeps fails, vote_step-Fails fuel keeps fails)

  pub local_vote-IsKept : (fuel : ℕ) → Keeps c (maybe_broadcast_local_proposal_vote c fuel)
  local_vote-IsKept fuel = (local_vote-kept fuel).0

  pub local_vote-Fails : (fuel : ℕ) → Fails c (maybe_broadcast_local_proposal_vote c fuel)
  local_vote-Fails fuel = (local_vote-kept fuel).1

  -- An import of a quorum certificate that returns, with any fuel for the node's own votes that
  -- it may cast, leaves a linked and replayed chain linked and replayed, and every block known
  -- that was known, whether or not the node changes its chain.
  pub import_quorum_certificate-IsKept :
      (fuel : ℕ) (s : NodeState) (qc : QuorumCertificate) {imported : Bool} {s' : NodeState}
      → import_quorum_certificate c (maybe_broadcast_local_proposal_vote c fuel) s qc
        ≡ ok (imported, s')
      → IsKept c s s'
  import_quorum_certificate-IsKept fuel =
      certificate_import-IsKept c (maybe_broadcast_local_proposal_vote c fuel)
        (local_vote-IsKept fuel)

  -- An import of a vote that returns, with any fuel for the node's own votes that it may cast,
  -- leaves a linked and replayed chain linked and replayed, and every block known that was known,
  -- also where the vote completes a certificate or moves the chain.
  pub import_proposal_vote-IsKept :
      (fuel : ℕ) (s : NodeState) (vote : ProposalVote) {imported : Bool} {s' : NodeState}
      → import_proposal_vote c (maybe_broadcast_local_proposal_vote c fuel) s vote
        ≡ ok (imported, s')
      → IsKept c s s'
  import_proposal_vote-IsKept fuel =
      vote_import-IsKept c (maybe_broadcast_local_proposal_vote c fuel) (local_vote-IsKept fuel)

  -- An import of a vote that is refused, with any fuel for the node's own votes that it may cast,
  -- leaves a linked and replayed chain linked and replayed, and every block known that was known,
  -- also where the error comes after votes were taken away, a certificate was recorded or the
  -- chain was moved.
  pub import_proposal_vote-fails :
      (fuel : ℕ) (s : NodeState) (vote : ProposalVote) {text : String} {s' : NodeState}
      → import_proposal_vote c (maybe_broadcast_local_proposal_vote c fuel) s vote
        ≡ err (Fault.refused text s')
      → IsKept c s s'
  import_proposal_vote-fails fuel =
      vote_import-fails c (maybe_broadcast_local_proposal_vote c fuel) (local_vote-IsKept fuel)
        (local_vote-Fails fuel)
